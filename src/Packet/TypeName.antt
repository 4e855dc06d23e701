-- ===== src/Packet/TypeName.antt =====
-- PacketTypeName (udt/packet/packet.go), a name for the log. `sprintf` is fmt.Sprintf with one number.
use Prim.Native.String.{String}
use go_udt.Common.{ℕ, ◌≡◌, refl, ◌==◌, if◌then◌else◌}
use go_udt.Packet.Header.{
  pt_handshake, pt_keepalive, pt_ack, pt_nak, pt_congestion, pt_shutdown, pt_ack2, pt_msg_drop_req,
  pt_special_err, pt_user_def_pkt, pt_data,
}

packet_type_name : (String → ℕ → String) → ℕ → String
packet_type_name sprintf pt =
    if pt == pt_handshake
    then "handshake"
    else if pt == pt_keepalive
    then "keep-alive"
    else if pt == pt_ack
    then "ack"
    else if pt == pt_nak
    then "nak"
    else if pt == pt_congestion
    then "congestion"
    else if pt == pt_shutdown
    then "shutdown"
    else if pt == pt_ack2
    then "ack2"
    else if pt == pt_msg_drop_req
    then "msg-drop"
    else if pt == pt_special_err
    then "error"
    else if pt == pt_user_def_pkt
    then "user-defined"
    else if pt == pt_data
    then "data"
    else sprintf "packet-type-%d" pt

data_name : (sprintf : String → ℕ → String) → packet_type_name sprintf pt_data ≡ "data"
unfolding packet_type_name
data_name sprintf = refl
