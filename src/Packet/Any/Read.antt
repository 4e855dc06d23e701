-- ===== src/Packet/Any/Read.antt =====
-- ReadPacketFrom reads back what WriteTo writes.
use go_udt.Common.{
  ℕ, ◌+◌, ◌*◌, ◌/◌, ◌%◌, ◌^◌, ◌≤◌, ◌<◌, ◌≡◌, refl, ap, List, ◌++◌, length, take, drop, arith,
  take-append, ◌==◌, false,
}
use go_udt.Common.Run.{ok}
use go_udt.Packet.Slice.{from_be32}
use go_udt.Packet.Reads.{Reads, return-Reads, bind-Reads, len-Reads}
use go_udt.Packet.Handshake
use go_udt.Packet.KeepAlive
use go_udt.Packet.Ack
use go_udt.Packet.LightAck
use go_udt.Packet.Nak
use go_udt.Packet.Congestion
use go_udt.Packet.Shutdown
use go_udt.Packet.Ack2
use go_udt.Packet.MsgDropReq
use go_udt.Packet.SpecialErr
use go_udt.Packet.UserDef
use go_udt.Packet.Data
use go_udt.Packet.Any.{
  Packet, handshake, keep_alive, ack, light_ack, nak, congestion, shutdown, ack2, msg_drop_req,
  special_err, user_def, data_pkt, wire, size, write_to, read_ack, read_packet, read_packet_from,
  IsWire,
}
use go_udt.Packet.Any.Write.{length-wire, write_to-wire}

-- The packet that follows from the first word.
read_first :
    (spare bytes : List ℕ) (h : ℕ) (p : Packet)
    → from_be32 (bytes ++ spare) ≡ ok h
    → Reads bytes (read_packet h) p
    → Reads bytes (read_packet_from spare) p
unfolding read_packet_from
read_first spare bytes h p first rest = record { run = rw first rest.run }

-- An ACK that is no light ACK is told by its length.
read_long_ack :
    (bytes : List ℕ) (p : Ack.AckPacket)
    → 20 < length bytes
    → Reads bytes (Ack.read_from Ack.new) p
    → Reads bytes read_ack (ack p)
unfolding read_ack
read_long_ack bytes p long rest =
    let test : (length bytes == 20) ≡ false = ground arith in
    len-Reads _ (rw test (bind-Reads _ rest (return-Reads (ack p))))

-- The first words of user-defined control packets and of data packets vary.
read_user_def :
    (p : UserDef.UserDefControlPacket)
    → UserDef.IsWire p
    → (h : ℕ) → h / 2 ^ 31 % 2 ≡ 1
    → h % 2 ^ 31 / 2 ^ 16 ≡ 0x7fff
    → h % 2 ^ 31 % 2 ^ 16 ≡ p.msg_type
    → Reads (UserDef.wire p) (read_packet h) (user_def p)
unfolding read_packet
read_user_def p w h control kind low =
    rw (control, kind, low)
      (bind-Reads _ (UserDef.read_from-wire _ p w refl) (return-Reads (user_def p)))

read_data :
    (p : Data.DataPacket)
    → Data.IsWire p
    → (h : ℕ) → h / 2 ^ 31 % 2 ≡ 0
    → h ≡ p.seq
    → Reads (Data.wire p) (read_packet h) (data_pkt p)
unfolding read_packet
read_data p w h plain same =
    rw plain (bind-Reads _ (Data.read_from-wire _ p w same) (return-Reads (data_pkt p)))

-- A packet is read back from its own bytes, whatever stands behind them in the buffer.
pub read_packet_from-wire :
    (spare : List ℕ) (p : Packet) → IsWire p → Reads (wire p) (read_packet_from spare) p
unfolding wire read_packet Nak.wire
read_packet_from-wire spare (handshake p) w =
    read_first spare (Handshake.wire p) 0x80000000 (handshake p) refl
      (bind-Reads _ (Handshake.read_from-whole _ p w) (return-Reads (handshake p)))
read_packet_from-wire spare (keep_alive p) w =
    read_first spare (KeepAlive.wire p) 0x80010000 (keep_alive p) refl
      (bind-Reads _ (KeepAlive.read_from-whole _ p w) (return-Reads (keep_alive p)))
read_packet_from-wire spare (ack p) w =
    read_first spare (Ack.wire p) 0x80020000 (ack p) refl
      (read_long_ack (Ack.wire p) p (omega arith) (Ack.read_from-wire p w))
read_packet_from-wire spare (light_ack p) w =
    read_first spare (LightAck.wire p) 0x80020000 (light_ack p) refl
      (len-Reads _ (bind-Reads _ (LightAck.read_from-whole _ p w) (return-Reads (light_ack p))))
read_packet_from-wire spare (nak p) w =
    read_first spare (Nak.wire p) 0x80030000 (nak p) refl
      (bind-Reads _ (Nak.read_from-wire _ p w) (return-Reads (nak p)))
read_packet_from-wire spare (congestion p) w =
    read_first spare (Congestion.wire p) 0x80040000 (congestion p) refl
      (bind-Reads _ (Congestion.read_from-whole _ p w) (return-Reads (congestion p)))
read_packet_from-wire spare (shutdown p) w =
    read_first spare (Shutdown.wire p) 0x80050000 (shutdown p) refl
      (bind-Reads _ (Shutdown.read_from-whole _ p w) (return-Reads (shutdown p)))
read_packet_from-wire spare (ack2 p) w =
    read_first spare (Ack2.wire p) 0x80060000 (ack2 p) refl
      (bind-Reads _ (Ack2.read_from-whole _ p w) (return-Reads (ack2 p)))
read_packet_from-wire spare (msg_drop_req p) w =
    read_first spare (MsgDropReq.wire p) 0x80070000 (msg_drop_req p) refl
      (bind-Reads _ (MsgDropReq.read_from-whole _ p w) (return-Reads (msg_drop_req p)))
read_packet_from-wire spare (special_err p) w =
    read_first spare (SpecialErr.wire p) 0x80080000 (special_err p) refl
      (bind-Reads _ (SpecialErr.read_from-whole _ p w) (return-Reads (special_err p)))
read_packet_from-wire spare (user_def p) w =
    read_first spare (UserDef.wire p) (0xffff * 2 ^ 16 + p.msg_type) (user_def p)
      (ap ok (omega (arith, w.msg_type_fits)))
      (read_user_def p w (0xffff * 2 ^ 16 + p.msg_type) (omega (arith, w.msg_type_fits))
        (omega (arith, w.msg_type_fits)) (omega (arith, w.msg_type_fits)))
read_packet_from-wire spare (data_pkt p) w =
    read_first spare (Data.wire p) p.seq (data_pkt p) (ap ok (omega (arith, w.seq_fits)))
      (read_data p w p.seq (omega (arith, w.seq_fits)) refl)

-- A packet that WriteTo wrote into a buffer with room for it is read back by ReadPacketFrom from
-- the bytes whose number WriteTo reported. Its fields fit their types; a data packet has a sequence
-- number of 31 bits, a handshake an address of sixteen bytes (a shorter one is padded, and is not read
-- back), and an ACK without link fields has 0 for the two rates, which are not written.
pub read_packet_from-write_to :
    (spare buf : List ℕ) (p : Packet)
    → IsWire p
    → size p ≤ length buf
    → ((write_to p buf).0 ≡ ok (size p))
      × ((read_packet_from spare (take (size p) (write_to p buf).1)).0 ≡ ok p)
read_packet_from-write_to spare buf p w h = rw (write_to-wire p buf h) (
  refl,
  rw (take-append (size p) (wire p) (drop (size p) buf) (length-wire p))
      (ap (λ r. r.0) (read_packet_from-wire spare p w).run),
)
