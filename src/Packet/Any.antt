-- ===== src/Packet/Any.antt =====
-- The Packet interface with its twelve implementations, and ReadPacketFrom (udt/packet/packet.go).
pub mod Write
pub mod Read
pub mod Safe
mod Tests
use go_udt.Common.{ℕ, ◌+◌, ◌/◌, ◌%◌, ◌^◌, List, [], ◌++◌, length, false, if◌then◌else◌, ◌==◌}
use go_udt.Common.Run.{unknown_type}
use go_udt.Packet.Slice.{Slice, ◌>>=◌, return, fail, len, from_be32, then_run}
use go_udt.Packet.Header
use go_udt.Packet.Header.{
  CtrlHeader, pt_handshake, pt_keepalive, pt_ack, pt_nak, pt_congestion, pt_shutdown, pt_ack2,
  pt_msg_drop_req, pt_special_err, pt_user_def_pkt, pt_data,
}
use go_udt.Packet.Handshake
use go_udt.Packet.Handshake.{HandshakePacket}
use go_udt.Packet.KeepAlive
use go_udt.Packet.KeepAlive.{KeepAlivePacket}
use go_udt.Packet.Ack
use go_udt.Packet.Ack.{AckPacket}
use go_udt.Packet.LightAck
use go_udt.Packet.LightAck.{LightAckPacket}
use go_udt.Packet.Nak
use go_udt.Packet.Nak.{NakPacket}
use go_udt.Packet.Congestion
use go_udt.Packet.Congestion.{CongestionPacket}
use go_udt.Packet.Shutdown
use go_udt.Packet.Shutdown.{ShutdownPacket}
use go_udt.Packet.Ack2
use go_udt.Packet.Ack2.{Ack2Packet}
use go_udt.Packet.MsgDropReq
use go_udt.Packet.MsgDropReq.{MsgDropReqPacket}
use go_udt.Packet.SpecialErr
use go_udt.Packet.SpecialErr.{ErrPacket}
use go_udt.Packet.UserDef
use go_udt.Packet.UserDef.{UserDefControlPacket}
use go_udt.Packet.Data
use go_udt.Packet.Data.{DataPacket}

pub data Packet : Type 0 where
  handshake : HandshakePacket → Packet
  keep_alive : KeepAlivePacket → Packet
  ack : AckPacket → Packet
  light_ack : LightAckPacket → Packet
  nak : NakPacket → Packet
  congestion : CongestionPacket → Packet
  shutdown : ShutdownPacket → Packet
  ack2 : Ack2Packet → Packet
  msg_drop_req : MsgDropReqPacket → Packet
  special_err : ErrPacket → Packet
  user_def : UserDefControlPacket → Packet
  data_pkt : DataPacket → Packet

-- SocketID
unfoldable pub socket_id : Packet → ℕ
socket_id (handshake p) = p.hdr.dst_sock_id
socket_id (keep_alive p) = p.hdr.dst_sock_id
socket_id (ack p) = p.hdr.dst_sock_id
socket_id (light_ack p) = p.hdr.dst_sock_id
socket_id (nak p) = p.hdr.dst_sock_id
socket_id (congestion p) = p.hdr.dst_sock_id
socket_id (shutdown p) = p.hdr.dst_sock_id
socket_id (ack2 p) = p.hdr.dst_sock_id
socket_id (msg_drop_req p) = p.hdr.dst_sock_id
socket_id (special_err p) = p.hdr.dst_sock_id
socket_id (user_def p) = p.hdr.dst_sock_id
socket_id (data_pkt p) = p.dst_sock_id

-- SendTime
unfoldable pub send_time : Packet → ℕ
send_time (handshake p) = p.hdr.ts
send_time (keep_alive p) = p.hdr.ts
send_time (ack p) = p.hdr.ts
send_time (light_ack p) = p.hdr.ts
send_time (nak p) = p.hdr.ts
send_time (congestion p) = p.hdr.ts
send_time (shutdown p) = p.hdr.ts
send_time (ack2 p) = p.hdr.ts
send_time (msg_drop_req p) = p.hdr.ts
send_time (special_err p) = p.hdr.ts
send_time (user_def p) = p.hdr.ts
send_time (data_pkt p) = p.ts

-- PacketType
unfoldable pub packet_type : Packet → ℕ
packet_type (handshake p) = pt_handshake
packet_type (keep_alive p) = pt_keepalive
packet_type (ack p) = pt_ack
packet_type (light_ack p) = pt_ack
packet_type (nak p) = pt_nak
packet_type (congestion p) = pt_congestion
packet_type (shutdown p) = pt_shutdown
packet_type (ack2 p) = pt_ack2
packet_type (msg_drop_req p) = pt_msg_drop_req
packet_type (special_err p) = pt_special_err
packet_type (user_def p) = pt_user_def_pkt
packet_type (data_pkt p) = pt_data

-- SetHeader
unfoldable pub set_header : Packet → ℕ → ℕ → Packet
unfolding Data.set_header
set_header (handshake p) dest ts = handshake (record p { hdr = Header.set_header p.hdr dest ts })
set_header (keep_alive p) dest ts = keep_alive (record p { hdr = Header.set_header p.hdr dest ts })
set_header (ack p) dest ts = ack (record p { hdr = Header.set_header p.hdr dest ts })
set_header (light_ack p) dest ts = light_ack (record p { hdr = Header.set_header p.hdr dest ts })
set_header (nak p) dest ts = nak (record p { hdr = Header.set_header p.hdr dest ts })
set_header (congestion p) dest ts = congestion (record p { hdr = Header.set_header p.hdr dest ts })
set_header (shutdown p) dest ts = shutdown (record p { hdr = Header.set_header p.hdr dest ts })
set_header (ack2 p) dest ts = ack2 (record p { hdr = Header.set_header p.hdr dest ts })
set_header (msg_drop_req p) dest ts =
    msg_drop_req (record p { hdr = Header.set_header p.hdr dest ts })
set_header (special_err p) dest ts =
    special_err (record p { hdr = Header.set_header p.hdr dest ts })
set_header (user_def p) dest ts = user_def (record p { hdr = Header.set_header p.hdr dest ts })
set_header (data_pkt p) dest ts = data_pkt (Data.set_header p dest ts)

-- WriteTo
unfoldable pub write_to : Packet → Slice ℕ
write_to (handshake p) = Handshake.write_to p
write_to (keep_alive p) = KeepAlive.write_to p
write_to (ack p) = Ack.write_to p
write_to (light_ack p) = LightAck.write_to p
write_to (nak p) = Nak.write_to p
write_to (congestion p) = Congestion.write_to p
write_to (shutdown p) = Shutdown.write_to p
write_to (ack2 p) = Ack2.write_to p
write_to (msg_drop_req p) = MsgDropReq.write_to p
write_to (special_err p) = SpecialErr.write_to p
write_to (user_def p) = UserDef.write_to p
write_to (data_pkt p) = Data.write_to p

-- The header of a new packet.
abbrev new_header : CtrlHeader
new_header = record { ts = 0; dst_sock_id = 0 }

-- `if len(data) == 20 { p = &LightAckPacket{} } else { p = &AckPacket{} }`, and the read
read_ack : Slice Packet
read_ack = do
  l ← len
  if l == 20
      then (do
        p ← LightAck.read_from (record { hdr = new_header; pkt_seq_hi = 0 })
        return (light_ack p))
      else (do p ← Ack.read_from (Ack.new); return (ack p))

-- The `switch msgType`, on the message type and the low sixteen bits of the first word.
read_control : ℕ → ℕ → Slice Packet
unfolding read_ack
read_control msg_type low =
    if msg_type == pt_handshake
    then (do
      p ← Handshake.read_from (record {
        hdr = new_header;
        udt_ver = 0;
        sock_type = 0;
        init_pkt_seq = 0;
        max_pkt_size = 0;
        max_flow_win_size = 0;
        req_type = 0;
        sock_id = 0;
        syn_cookie = 0;
        sock_addr = [];
      })
      return (handshake p))
    else if msg_type == pt_keepalive
    then (do p ← KeepAlive.read_from (record { hdr = new_header }); return (keep_alive p))
    else if msg_type == pt_ack
    then read_ack
    else if msg_type == pt_nak
    then (do p ← Nak.read_from (record { hdr = new_header; cmp_loss_info = [] }); return (nak p))
    else if msg_type == pt_congestion
    then (do p ← Congestion.read_from (record { hdr = new_header }); return (congestion p))
    else if msg_type == pt_shutdown
    then (do p ← Shutdown.read_from (record { hdr = new_header }); return (shutdown p))
    else if msg_type == pt_ack2
    then (do p ← Ack2.read_from (record { hdr = new_header; ack_seq_no = 0 }); return (ack2 p))
    else if msg_type == pt_msg_drop_req
    then (do
      p ←
          MsgDropReq.read_from
            (record { hdr = new_header; msg_id = 0; first_seq = 0; last_seq = 0 })
      return (msg_drop_req p))
    else if msg_type == pt_special_err
    then (do
      p ← SpecialErr.read_from (record { hdr = new_header; errno = 0 })
      return (special_err p))
    else if msg_type == pt_user_def_pkt
    then (do
      p ←
          UserDef.read_from
            (record { hdr = new_header; msg_type = low; addtl_info = 0; content = [] })
      return (user_def p))
    else fail unknown_type

-- On the first word of the datagram.
read_packet : ℕ → Slice Packet
unfolding read_control
read_packet h =
    if h / 2 ^ 31 % 2 == 1 then read_control (h % 2 ^ 31 / 2 ^ 16) (h % 2 ^ 31 % 2 ^ 16) else (do
      p ← Data.read_from (record { seq = h; msg = 0; ts = 0; dst_sock_id = 0; content = [] })
      return (data_pkt p))

-- ReadPacketFrom. `data[0:4]` reaches behind the slice, up to its capacity: `spare` is what the
-- buffer holds there.
unfoldable pub read_packet_from : List ℕ → Slice Packet
unfolding read_packet
read_packet_from spare bytes = then_run (from_be32 (bytes ++ spare), bytes) read_packet

-- Every field fits its type. A data packet has a sequence number of 31 bits, a handshake an
-- address of sixteen bytes, and an ACK without link fields no rates.
abbrev pub IsWire : Packet → Type 0
IsWire (handshake p) = Handshake.IsWire p
IsWire (keep_alive p) = KeepAlive.IsWire p
IsWire (ack p) = Ack.IsWire p
IsWire (light_ack p) = LightAck.IsWire p
IsWire (nak p) = Nak.IsWire p
IsWire (congestion p) = Congestion.IsWire p
IsWire (shutdown p) = Shutdown.IsWire p
IsWire (ack2 p) = Ack2.IsWire p
IsWire (msg_drop_req p) = MsgDropReq.IsWire p
IsWire (special_err p) = SpecialErr.IsWire p
IsWire (user_def p) = UserDef.IsWire p
IsWire (data_pkt p) = Data.IsWire p

-- The bytes of a packet, and their number.
unfoldable pub wire : Packet → List ℕ
wire (handshake p) = Handshake.wire p
wire (keep_alive p) = KeepAlive.wire p
wire (ack p) = Ack.wire p
wire (light_ack p) = LightAck.wire p
wire (nak p) = Nak.wire p
wire (congestion p) = Congestion.wire p
wire (shutdown p) = Shutdown.wire p
wire (ack2 p) = Ack2.wire p
wire (msg_drop_req p) = MsgDropReq.wire p
wire (special_err p) = SpecialErr.wire p
wire (user_def p) = UserDef.wire p
wire (data_pkt p) = Data.wire p

unfoldable pub size : Packet → ℕ
size (handshake p) = 64
size (keep_alive p) = 16
size (ack p) = Ack.size p
size (light_ack p) = 20
size (nak p) = Nak.size p
size (congestion p) = 16
size (shutdown p) = 16
size (ack2 p) = 16
size (msg_drop_req p) = 24
size (special_err p) = 16
size (user_def p) = UserDef.size p
size (data_pkt p) = Data.size p
