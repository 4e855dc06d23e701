-- ===== src/Packet/Any/Tests.antt =====
-- Runs of the codec, and its theorems at concrete packets.
use go_udt.Common.{ℕ, ◌<◌, ◌≡◌, ◌≢◌, refl, List, [], ◌∷◌, ◌++◌, take, drop, replicate, true, arith}
use go_udt.Common.Run.{ok, err, panic, Error, too_small, unknown_type}
use go_udt.Packet.Slice.{need, store, copy_to}
use go_udt.Packet.Header.{CtrlHeader}
use go_udt.Packet.Ack.{AckPacket}
use go_udt.Packet.Data
use go_udt.Packet.Data.{
  DataPacket, set_message_data, get_message_data, get_message_data-set_message_data,
}
use go_udt.Packet.Any.{ack, data_pkt, wire, size, write_to, read_packet_from, set_header, socket_id}
use go_udt.Packet.Any.Write.{write_to-wire, write_to-too_small}
use go_udt.Packet.Any.Read.{read_packet_from-write_to}
use go_udt.Packet.Any.Safe.{read_packet_from_safe}

abbrev header : CtrlHeader
header = record { ts = 100; dst_sock_id = 59 }

abbrev link_ack : AckPacket
link_ack = record {
  hdr = header;
  ack_seq_no = 90;
  pkt_seq_hi = 91;
  rtt = 92;
  rtt_var = 93;
  buff_avail = 94;
  include_link = true;
  pkt_recv_rate = 95;
  est_link_cap = 96;
}

abbrev hello : DataPacket
hello = record { seq = 50; msg = 0; ts = 1409; dst_sock_id = 90; content = 72 ∷ 105 ∷ [] }

abbrev buffer : ℕ → List ℕ
buffer n = replicate n 7

hello_bytes :
    wire (data_pkt hello)
    ≡ 0 ∷ 0 ∷ 0 ∷ 50 ∷ 0 ∷ 0 ∷ 0 ∷ 0 ∷ 0 ∷ 0 ∷ 5 ∷ 129 ∷ 0 ∷ 0 ∷ 0 ∷ 90 ∷ 72 ∷ 105 ∷ []
unfolding wire
hello_bytes = refl

hello_written : write_to (data_pkt hello) (buffer 20) ≡ (ok 18, wire (data_pkt hello) ++ 7 ∷ 7 ∷ [])
unfolding write_to wire Data.write_to need store copy_to
hello_written = refl

-- The control type 9 is unknown, and a first word alone is too short.
refused :
    ((read_packet_from [] (0x80 ∷ 9 ∷ buffer 14)).0 ≡ err unknown_type)
    × ((read_packet_from [] (0 ∷ 0 ∷ 0 ∷ 1 ∷ [])).0 ≡ err too_small)
    × ((read_packet_from [] (0 ∷ [])).0 ≡ panic)
unfolding read_packet_from Data.read_from need
refused = (refl, refl, refl)

addressed : socket_id (set_header (ack link_ack) 3 4) ≡ 3
unfolding socket_id set_header
addressed = refl

read_packet_from-write_to_example :
    ((write_to (ack link_ack) (buffer 64)).0 ≡ ok (size (ack link_ack)))
    × ((read_packet_from [] (take (size (ack link_ack)) (write_to (ack link_ack) (buffer 64)).1)).0
        ≡ ok (ack link_ack))
unfolding size
read_packet_from-write_to_example =
    read_packet_from-write_to [] (buffer 64) (ack link_ack) (ground arith) (omega arith)

read_packet_from_safe_example :
    ((read_packet_from [] (0x80 ∷ 2 ∷ buffer 6)).0 ≢ panic)
    × (8 < 16 → (e : Error) × ((read_packet_from [] (0x80 ∷ 2 ∷ buffer 6)).0 ≡ err e))
read_packet_from_safe_example = read_packet_from_safe [] (0x80 ∷ 2 ∷ buffer 6) (omega arith)

write_to-wire_example :
    write_to (ack link_ack) (buffer 64)
    ≡ (ok (size (ack link_ack)), wire (ack link_ack) ++ drop (size (ack link_ack)) (buffer 64))
unfolding size
write_to-wire_example = write_to-wire (ack link_ack) (buffer 64) (omega arith)

-- Room for the fixed part of an ACK, and not for its link fields.
write_to-too_small_example : (write_to (ack link_ack) (buffer 36)).0 ≡ err too_small
unfolding size
write_to-too_small_example = write_to-too_small (ack link_ack) (buffer 36) (omega arith)
