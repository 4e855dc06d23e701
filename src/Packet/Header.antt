-- ===== src/Packet/Header.antt =====
-- The constants of udt/packet/packet.go, the sequence number as a field, and the header that all
-- control packets share (ctrlHeader).
use Prim.Native.Nat.{bit_or}
use go_udt.Common.{ℕ, ◌^◌, ◌<◌, ◌≡◌, refl, List, ◌++◌, length, arith, lt→ltb}
use go_udt.Common.Run.{err, too_small}
use go_udt.Packet.Slice.{
  Slice, ◌>>=◌, ◌>>◌, return, need, be16, be32, put_uint16, put_uint32, uint32_at,
}
use go_udt.Packet.Reads.{Reads, return-Reads, bind-Reads, need-Reads, uint32_at-Reads}
use go_udt.Packet.Wire.{Fills, return-Fills, store-Fills, then-Fills, need-Fills}

abbrev pub flag_bit32 : ℕ
flag_bit32 = 2 ^ 31

abbrev pub flag_bit16 : ℕ
flag_bit16 = 2 ^ 15

-- A PacketType is its uint16.
abbrev pub pt_handshake : ℕ
pt_handshake = 0x0

abbrev pub pt_keepalive : ℕ
pt_keepalive = 0x1

abbrev pub pt_ack : ℕ
pt_ack = 0x2

abbrev pub pt_nak : ℕ
pt_nak = 0x3

abbrev pub pt_congestion : ℕ
pt_congestion = 0x4

abbrev pub pt_shutdown : ℕ
pt_shutdown = 0x5

abbrev pub pt_ack2 : ℕ
pt_ack2 = 0x6

abbrev pub pt_msg_drop_req : ℕ
pt_msg_drop_req = 0x7

abbrev pub pt_special_err : ℕ
pt_special_err = 0x8

abbrev pub pt_user_def_pkt : ℕ
pt_user_def_pkt = 0x7fff

abbrev pub pt_data : ℕ
pt_data = 0x8000

pub record CtrlHeader : Type 0 where
  pub ts : ℕ
  pub dst_sock_id : ℕ

-- SetHeader
abbrev pub set_header : CtrlHeader → ℕ → ℕ → CtrlHeader
set_header h dest ts = record h { dst_sock_id = dest; ts = ts }

unfoldable pub write_hdr_to : CtrlHeader → ℕ → ℕ → Slice ℕ
write_hdr_to h msg_type info = do
  need 16
  put_uint16 0 (bit_or msg_type flag_bit16)
  put_uint16 2 0
  put_uint32 4 info
  put_uint32 8 h.ts
  put_uint32 12 h.dst_sock_id
  return 16

-- The additional information, and the header with its other fields read.
unfoldable pub read_hdr_from : CtrlHeader → Slice (ℕ × CtrlHeader)
read_hdr_from h = do
  need 16
  info ← uint32_at 4
  ts ← uint32_at 8
  dst ← uint32_at 12
  return (info, record h { ts = ts; dst_sock_id = dst })

-- The layout of a control header: the flagged type, sixteen reserved bits, the additional
-- information, the time stamp, the destination.
abbrev pub hdr_wire : CtrlHeader → ℕ → ℕ → List ℕ
hdr_wire h msg_type info =
    be16 (bit_or msg_type flag_bit16)
    ++ (be16 0 ++ (be32 info ++ (be32 h.ts ++ be32 h.dst_sock_id)))

pub record IsWireHeader (h : CtrlHeader) : Type 0 where
  pub ts_fits : h.ts < 2 ^ 32
  pub dst_fits : h.dst_sock_id < 2 ^ 32

pub write_hdr_to-Fills :
    (h : CtrlHeader) (msg_type info : ℕ)
    → Fills 0 (write_hdr_to h msg_type info) 16 (hdr_wire h msg_type info)
unfolding write_hdr_to
write_hdr_to-Fills h msg_type info = need-Fills 16 (omega arith) (
    then-Fills (store-Fills 0 (be16 (bit_or msg_type flag_bit16))) (
      then-Fills (store-Fills 2 (be16 0)) (
        then-Fills (store-Fills 4 (be32 info)) (
          then-Fills (store-Fills 8 (be32 h.ts))
            (then-Fills (store-Fills 12 (be32 h.dst_sock_id)) (return-Fills 16 16))))))

-- The header is read back from any data that begins with its bytes.
pub read_hdr_from-Reads :
    (q h : CtrlHeader) (msg_type info : ℕ) (rest : List ℕ)
    → IsWireHeader h
    → info < 2 ^ 32
    → Reads (hdr_wire h msg_type info ++ rest) (read_hdr_from q) (info, h)
unfolding read_hdr_from
read_hdr_from-Reads q h msg_type info rest w fits = need-Reads 16 (omega arith) (
    bind-Reads _ (uint32_at-Reads 4 info _ refl fits) (
      bind-Reads _ (uint32_at-Reads 8 h.ts _ refl w.ts_fits) (
        bind-Reads _ (uint32_at-Reads 12 h.dst_sock_id _ refl w.dst_fits)
          (return-Reads (info, h)))))

pub write_hdr_to-too_small :
    (h : CtrlHeader) (msg_type info : ℕ) (buf : List ℕ)
    → length buf < 16
    → write_hdr_to h msg_type info buf ≡ (err too_small, buf)
unfolding write_hdr_to need
write_hdr_to-too_small h msg_type info buf small = rw (lt→ltb (length buf) 16 small)
