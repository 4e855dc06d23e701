-- ===== src/Packet/LightAck.antt =====
-- LightAckPacket (udt/packet/packet_lightack.go).
use go_udt.Common.{
  ℕ, ◌^◌, ◌≤◌, ◌<◌, ◌≡◌, refl, List, [], ◌++◌, length, drop, arith, lt→ltb, append-nil,
}
use go_udt.Common.Run.{ok, err, too_small}
use go_udt.Packet.Slice.{Slice, ◌>>=◌, ◌>>◌, return, need, be32, put_uint32, uint32_at}
use go_udt.Packet.Wire.{return-Fills, store-Fills, then-Fills, need-Fills, Fills-front}
use go_udt.Packet.Reads.{Reads, return-Reads, bind-Reads, need-Reads, uint32_at-Reads}
use go_udt.Packet.Header.{
  CtrlHeader, IsWireHeader, write_hdr_to, read_hdr_from, hdr_wire, write_hdr_to-Fills,
  read_hdr_from-Reads, pt_ack,
}

pub record LightAckPacket : Type 0 where
  pub hdr : CtrlHeader
  pub pkt_seq_hi : ℕ

unfoldable pub write_to : LightAckPacket → Slice ℕ
unfolding write_hdr_to
write_to p = do need 20; write_hdr_to p.hdr pt_ack 0; put_uint32 16 p.pkt_seq_hi; return 20

unfoldable pub read_from : LightAckPacket → Slice LightAckPacket
unfolding read_hdr_from
read_from p = do
  need 20
  (info, hdr) ← read_hdr_from p.hdr
  pkt_seq_hi ← uint32_at 16
  return (record p { hdr = hdr; pkt_seq_hi = pkt_seq_hi })

pub record IsWire (p : LightAckPacket) : Type 0 where
  pub hdr_fits : IsWireHeader p.hdr
  pub pkt_seq_hi_fits : p.pkt_seq_hi < 2 ^ 32

-- The layout on the wire.
abbrev pub wire : LightAckPacket → List ℕ
wire p = hdr_wire p.hdr pt_ack 0 ++ (be32 p.pkt_seq_hi)

pub write_to-wire :
    (p : LightAckPacket) (buf : List ℕ)
    → 20 ≤ length buf
    → write_to p buf ≡ (ok 20, wire p ++ drop 20 buf)
unfolding write_to
write_to-wire p buf h =
    Fills-front
      (need-Fills 20 (omega arith) (
        then-Fills (write_hdr_to-Fills p.hdr pt_ack (0))
          (then-Fills (store-Fills 16 (be32 p.pkt_seq_hi)) (return-Fills 20 20))))
      20 refl buf h

pub write_to-too_small :
    (p : LightAckPacket) (buf : List ℕ) → length buf < 20 → write_to p buf ≡ (err too_small, buf)
unfolding write_to need
write_to-too_small p buf h = rw (lt→ltb (length buf) 20 h)

-- A packet is read back from any data that begins with its bytes.
pub read_from-wire :
    (q p : LightAckPacket) (rest : List ℕ) → IsWire p → Reads (wire p ++ rest) (read_from q) p
unfolding read_from
read_from-wire q p rest w = need-Reads 20 (omega arith) (
    bind-Reads _
      (read_hdr_from-Reads q.hdr p.hdr pt_ack 0 (be32 p.pkt_seq_hi ++ (rest)) w.hdr_fits
        (omega arith))
      (bind-Reads _ (uint32_at-Reads 16 p.pkt_seq_hi _ refl w.pkt_seq_hi_fits) (return-Reads p)))

pub read_from-whole : (q p : LightAckPacket) → IsWire p → Reads (wire p) (read_from q) p
read_from-whole q p w = rw (append-nil (wire p)) at (read_from-wire q p [] w)
