-- ===== src/Packet/Data.antt =====
-- DataPacket and its message field (udt/packet/packet_data.go).
use go_udt.Common.{
  ℕ, ◌+◌, ◌*◌, ◌/◌, ◌%◌, ◌^◌, ◌≤◌, ◌<◌, ◌≡◌, refl, List, ◌++◌, Bool, true, false, not, ◌==◌, length,
  drop, arith, subst, lt→ltb, if◌then◌else◌, append-nil,
}
use go_udt.Common.Run.{ok, err, too_small}
use go_udt.Packet.Slice.{
  Slice, ◌>>=◌, ◌>>◌, return, need, be32, put_uint32, copy_to, uint32_at, tail_at,
}
use go_udt.Packet.Wire.{
  Fills, return-Fills, store-Fills, copy_to-Fills, then-Fills, need-Fills, Fills-front,
}
use go_udt.Packet.Reads.{
  Reads, return-Reads, bind-Reads, need-Reads, uint32_at-Reads, tail_at-Reads,
}

-- A MessageBoundary is its number.
abbrev pub mb_first : ℕ
mb_first = 2

abbrev pub mb_last : ℕ
mb_last = 1

abbrev pub mb_only : ℕ
mb_only = 3

abbrev pub mb_middle : ℕ
mb_middle = 0

pub record DataPacket : Type 0 where
  pub seq : ℕ
  pub msg : ℕ
  pub ts : ℕ
  pub dst_sock_id : ℕ
  pub content : List ℕ

-- SetHeader
unfoldable pub set_header : DataPacket → ℕ → ℕ → DataPacket
set_header dp dest ts = record dp { dst_sock_id = dest; ts = ts }

-- `(uint32(boundary) << 30) | iOrder | (msg & 0x1FFFFFFF)`: the three parts share no bit, so the
-- disjunction is their sum.
unfoldable pub set_message_data : DataPacket → ℕ → Bool → ℕ → DataPacket
set_message_data dp boundary order msg =
    let i_order : ℕ = if order then 2 ^ 29 else 0 in
    record dp { msg = boundary * 2 ^ 30 % 2 ^ 32 + i_order + msg % 2 ^ 29 }

-- The boundary, the order flag and the message number.
unfoldable pub get_message_data : DataPacket → ℕ × Bool × ℕ
get_message_data dp = (dp.msg / 2 ^ 30, not (dp.msg / 2 ^ 29 % 2 == 0), dp.msg % 2 ^ 29)

unfoldable pub write_to : DataPacket → Slice ℕ
write_to dp = do
  let ol = 16 + length dp.content
  need ol
  put_uint32 0 (dp.seq % 2 ^ 31)
  put_uint32 4 dp.msg
  put_uint32 8 dp.ts
  put_uint32 12 dp.dst_sock_id
  copy_to 16 dp.content
  return ol

-- The sequence number is the receiver's: ReadPacketFrom takes it from the first word.
unfoldable pub read_from : DataPacket → Slice DataPacket
read_from dp = do
  need 16
  msg ← uint32_at 4
  ts ← uint32_at 8
  dst ← uint32_at 12
  content ← tail_at 16
  return (record dp { msg = msg; ts = ts; dst_sock_id = dst; content = content })

pub record IsWire (p : DataPacket) : Type 0 where
  pub seq_fits : p.seq < 2 ^ 31
  pub msg_fits : p.msg < 2 ^ 32
  pub ts_fits : p.ts < 2 ^ 32
  pub dst_fits : p.dst_sock_id < 2 ^ 32

-- The layout on the wire: the first word is the sequence number, its top bit clear.
abbrev pub wire : DataPacket → List ℕ
wire p = be32 (p.seq % 2 ^ 31) ++ (be32 p.msg ++ (be32 p.ts ++ (be32 p.dst_sock_id ++ p.content)))

abbrev pub size : DataPacket → ℕ
size p = 16 + length p.content

pub length-wire : (p : DataPacket) → length (wire p) ≡ size p
length-wire p = omega arith

write_to-Fills : (p : DataPacket) → Fills 0 (write_to p) (size p) (wire p)
unfolding write_to
write_to-Fills p = need-Fills (size p) (omega arith) (
    then-Fills (store-Fills 0 (be32 (p.seq % 2 ^ 31))) (
      then-Fills (store-Fills 4 (be32 p.msg)) (
        then-Fills (store-Fills 8 (be32 p.ts)) (
          then-Fills (store-Fills 12 (be32 p.dst_sock_id)) (
            rw (append-nil p.content) at
              (then-Fills (copy_to-Fills 16 p.content) (return-Fills _ (size p))))))))

pub write_to-wire :
    (p : DataPacket) (buf : List ℕ)
    → size p ≤ length buf
    → write_to p buf ≡ (ok (size p), wire p ++ drop (size p) buf)
write_to-wire p buf h = Fills-front (write_to-Fills p) (size p) (length-wire p) buf h

pub write_to-too_small :
    (p : DataPacket) (buf : List ℕ) → length buf < size p → write_to p buf ≡ (err too_small, buf)
unfolding write_to need
write_to-too_small p buf h = rw (lt→ltb (length buf) (size p) h)

-- Into a receiver with its sequence number, a packet is read back from its own bytes.
pub read_from-wire : (q p : DataPacket) → IsWire p → q.seq ≡ p.seq → Reads (wire p) (read_from q) p
unfolding read_from
read_from-wire q p w same = need-Reads 16 (omega arith) (
    bind-Reads _ (uint32_at-Reads 4 p.msg _ refl w.msg_fits) (
      bind-Reads _ (uint32_at-Reads 8 p.ts _ refl w.ts_fits) (
        bind-Reads _ (uint32_at-Reads 12 p.dst_sock_id _ refl w.dst_fits) (
          bind-Reads _ (tail_at-Reads 16 (omega arith))
            (subst (λ r. Reads (wire p) (return r) p) (ground arith) (return-Reads p))))))

-- What SetMessageData stores, GetMessageData gives back: a boundary of two bits, the order flag,
-- and the low 29 bits of the message number; the other fields of the packet are kept.
pub get_message_data-set_message_data :
    (dp : DataPacket) (boundary : ℕ) (order : Bool) (msg : ℕ)
    → boundary < 4
    → (get_message_data (set_message_data dp boundary order msg) ≡ (boundary, order, msg % 2 ^ 29))
      × ((set_message_data dp boundary order msg).msg < 2 ^ 32)
      × (record (set_message_data dp boundary order msg) { msg = dp.msg } ≡ dp)
unfolding get_message_data set_message_data
get_message_data-set_message_data dp boundary true msg h = (ground arith, ground arith, refl)
get_message_data-set_message_data dp boundary false msg h = (ground arith, ground arith, refl)
