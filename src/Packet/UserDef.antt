-- ===== src/Packet/UserDef.antt =====
-- UserDefControlPacket (udt/packet/packet_userdefctrl.go).
use Prim.Native.Nat.{bit_or}
use go_udt.Common.{
  ℕ, ◌+◌, ◌^◌, ◌≤◌, ◌<◌, ◌≡◌, refl, List, ◌++◌, length, drop, arith, subst, lt→ltb, append-nil,
}
use go_udt.Common.Run.{ok, err, too_small}
use go_udt.Packet.Slice.{
  Slice, ◌>>=◌, ◌>>◌, return, need, be16, be32, put_uint16, put_uint32, copy_to, tail_at,
}
use go_udt.Packet.Wire.{
  Fills, return-Fills, store-Fills, copy_to-Fills, then-Fills, need-Fills, Fills-front,
}
use go_udt.Packet.Reads.{
  Reads, return-Reads, bind-Reads, need-Reads, uint32_at-Reads, tail_at-Reads,
}
use go_udt.Packet.Header.{CtrlHeader, IsWireHeader, read_hdr_from, pt_user_def_pkt, flag_bit16}

pub record UserDefControlPacket : Type 0 where
  pub hdr : CtrlHeader
  pub msg_type : ℕ
  pub addtl_info : ℕ
  pub content : List ℕ

unfoldable pub write_to : UserDefControlPacket → Slice ℕ
write_to p = do
  let ol = 16 + length p.content
  need ol
  put_uint16 0 (bit_or pt_user_def_pkt flag_bit16)
  put_uint16 2 p.msg_type
  put_uint32 4 p.addtl_info
  put_uint32 8 p.hdr.ts
  put_uint32 12 p.hdr.dst_sock_id
  copy_to 16 p.content
  return ol

-- The message type is the receiver's: ReadPacketFrom takes it from the first word.
unfoldable pub read_from : UserDefControlPacket → Slice UserDefControlPacket
unfolding read_hdr_from
read_from p = do
  (info, hdr) ← read_hdr_from p.hdr
  content ← tail_at 16
  return (record p { hdr = hdr; addtl_info = info; content = content })

pub record IsWire (p : UserDefControlPacket) : Type 0 where
  pub hdr_fits : IsWireHeader p.hdr
  pub msg_type_fits : p.msg_type < 2 ^ 16
  pub addtl_info_fits : p.addtl_info < 2 ^ 32

-- The layout on the wire: the reserved bits of the header hold the message type.
abbrev pub wire : UserDefControlPacket → List ℕ
wire p =
    be16 (bit_or pt_user_def_pkt flag_bit16)
    ++ (be16 p.msg_type
        ++ (be32 p.addtl_info ++ (be32 p.hdr.ts ++ (be32 p.hdr.dst_sock_id ++ p.content))))

abbrev pub size : UserDefControlPacket → ℕ
size p = 16 + length p.content

pub length-wire : (p : UserDefControlPacket) → length (wire p) ≡ size p
length-wire p = omega arith

write_to-Fills : (p : UserDefControlPacket) → Fills 0 (write_to p) (size p) (wire p)
unfolding write_to
write_to-Fills p = need-Fills (size p) (omega arith) (
    then-Fills (store-Fills 0 (be16 (bit_or pt_user_def_pkt flag_bit16))) (
      then-Fills (store-Fills 2 (be16 p.msg_type)) (
        then-Fills (store-Fills 4 (be32 p.addtl_info)) (
          then-Fills (store-Fills 8 (be32 p.hdr.ts)) (
            then-Fills (store-Fills 12 (be32 p.hdr.dst_sock_id)) (
              rw (append-nil p.content) at
                (then-Fills (copy_to-Fills 16 p.content) (return-Fills _ (size p)))))))))

pub write_to-wire :
    (p : UserDefControlPacket) (buf : List ℕ)
    → size p ≤ length buf
    → write_to p buf ≡ (ok (size p), wire p ++ drop (size p) buf)
write_to-wire p buf h = Fills-front (write_to-Fills p) (size p) (length-wire p) buf h

pub write_to-too_small :
    (p : UserDefControlPacket) (buf : List ℕ)
    → length buf < size p
    → write_to p buf ≡ (err too_small, buf)
unfolding write_to need
write_to-too_small p buf h = rw (lt→ltb (length buf) (size p) h)

-- Into a receiver with its message type, a packet is read back from its own bytes.
pub read_from-wire :
    (q p : UserDefControlPacket)
    → IsWire p
    → q.msg_type ≡ p.msg_type
    → Reads (wire p) (read_from q) p
unfolding read_from read_hdr_from
read_from-wire q p w same =
    bind-Reads _
      (need-Reads 16 (omega arith) (
        bind-Reads _ (uint32_at-Reads 4 p.addtl_info _ refl w.addtl_info_fits) (
          bind-Reads _ (uint32_at-Reads 8 p.hdr.ts _ refl w.hdr_fits.ts_fits) (
            bind-Reads _ (uint32_at-Reads 12 p.hdr.dst_sock_id _ refl w.hdr_fits.dst_fits)
              (return-Reads (p.addtl_info, p.hdr))))))
      (bind-Reads _ (tail_at-Reads 16 (omega arith))
        (subst (λ r. Reads (wire p) (return r) p) (ground arith) (return-Reads p)))
