-- ===== src/Packet/MsgDropReq.antt =====
-- MsgDropReqPacket (udt/packet/packet_msgdropreq.go).
use go_udt.Common.{
  ℕ, ◌^◌, ◌≤◌, ◌<◌, ◌≡◌, refl, List, [], ◌++◌, length, drop, arith, lt→ltb, append-nil,
}
use go_udt.Common.Run.{ok, err, too_small}
use go_udt.Packet.Slice.{Slice, ◌>>=◌, ◌>>◌, return, need, be32, put_uint32, uint32_at}
use go_udt.Packet.Wire.{return-Fills, store-Fills, then-Fills, need-Fills, Fills-front}
use go_udt.Packet.Reads.{Reads, return-Reads, bind-Reads, need-Reads, uint32_at-Reads}
use go_udt.Packet.Header.{
  CtrlHeader, IsWireHeader, write_hdr_to, read_hdr_from, hdr_wire, write_hdr_to-Fills,
  read_hdr_from-Reads, pt_msg_drop_req,
}

pub record MsgDropReqPacket : Type 0 where
  pub hdr : CtrlHeader
  pub msg_id : ℕ
  pub first_seq : ℕ
  pub last_seq : ℕ

unfoldable pub write_to : MsgDropReqPacket → Slice ℕ
unfolding write_hdr_to
write_to p = do
  need 24
  write_hdr_to p.hdr pt_msg_drop_req p.msg_id
  put_uint32 16 p.first_seq
  put_uint32 20 p.last_seq
  return 24

unfoldable pub read_from : MsgDropReqPacket → Slice MsgDropReqPacket
unfolding read_hdr_from
read_from p = do
  need 24
  (info, hdr) ← read_hdr_from p.hdr
  first_seq ← uint32_at 16
  last_seq ← uint32_at 20
  return (record p { hdr = hdr; msg_id = info; first_seq = first_seq; last_seq = last_seq })

pub record IsWire (p : MsgDropReqPacket) : Type 0 where
  pub hdr_fits : IsWireHeader p.hdr
  pub msg_id_fits : p.msg_id < 2 ^ 32
  pub first_seq_fits : p.first_seq < 2 ^ 32
  pub last_seq_fits : p.last_seq < 2 ^ 32

-- The layout on the wire.
abbrev pub wire : MsgDropReqPacket → List ℕ
wire p = hdr_wire p.hdr pt_msg_drop_req p.msg_id ++ (be32 p.first_seq ++ (be32 p.last_seq))

pub write_to-wire :
    (p : MsgDropReqPacket) (buf : List ℕ)
    → 24 ≤ length buf
    → write_to p buf ≡ (ok 24, wire p ++ drop 24 buf)
unfolding write_to
write_to-wire p buf h =
    Fills-front
      (need-Fills 24 (omega arith) (
        then-Fills (write_hdr_to-Fills p.hdr pt_msg_drop_req (p.msg_id)) (
          then-Fills (store-Fills 16 (be32 p.first_seq))
            (then-Fills (store-Fills 20 (be32 p.last_seq)) (return-Fills 24 24)))))
      24 refl buf h

pub write_to-too_small :
    (p : MsgDropReqPacket) (buf : List ℕ) → length buf < 24 → write_to p buf ≡ (err too_small, buf)
unfolding write_to need
write_to-too_small p buf h = rw (lt→ltb (length buf) 24 h)

-- A packet is read back from any data that begins with its bytes.
pub read_from-wire :
    (q p : MsgDropReqPacket) (rest : List ℕ) → IsWire p → Reads (wire p ++ rest) (read_from q) p
unfolding read_from
read_from-wire q p rest w = need-Reads 24 (omega arith) (
    bind-Reads _
      (read_hdr_from-Reads q.hdr p.hdr pt_msg_drop_req p.msg_id
        (be32 p.first_seq ++ (be32 p.last_seq ++ (rest))) w.hdr_fits w.msg_id_fits)
      (bind-Reads _ (uint32_at-Reads 16 p.first_seq _ refl w.first_seq_fits)
        (bind-Reads _ (uint32_at-Reads 20 p.last_seq _ refl w.last_seq_fits) (return-Reads p))))

pub read_from-whole : (q p : MsgDropReqPacket) → IsWire p → Reads (wire p) (read_from q) p
read_from-whole q p w = rw (append-nil (wire p)) at (read_from-wire q p [] w)
