-- ===== src/Packet/Ack.antt =====
-- AckPacket (udt/packet/packet_ack.go).
use go_udt.Common.{
  ℕ, ◌^◌, ◌≤◌, ◌<◌, ◌≡◌, refl, List, [], ◌++◌, Bool, true, false, length, drop, arith, leb, subst,
  Bool-cases, inl, inr, le→leb, if◌then◌else◌,
}
use go_udt.Common.Run.{ok, err, too_small}
use go_udt.Packet.Slice.{Slice, ◌>>=◌, ◌>>◌, return, len, need, be32, put_uint32, uint32_at}
use go_udt.Packet.Wire.{
  Fills, return-Fills, store-Fills, then-Fills, need-Fills, Fills-front, Fails, need-Fails,
  need_then-Fails, then-Fails, Fails-whole,
}
use go_udt.Packet.Reads.{Reads, return-Reads, len-Reads, bind-Reads, need-Reads, uint32_at-Reads}
use go_udt.Packet.Header.{
  CtrlHeader, IsWireHeader, write_hdr_to, read_hdr_from, hdr_wire, write_hdr_to-Fills,
  read_hdr_from-Reads, pt_ack,
}

pub record AckPacket : Type 0 where
  pub hdr : CtrlHeader
  pub ack_seq_no : ℕ
  pub pkt_seq_hi : ℕ
  pub rtt : ℕ
  pub rtt_var : ℕ
  pub buff_avail : ℕ
  pub include_link : Bool
  pub pkt_recv_rate : ℕ
  pub est_link_cap : ℕ

-- `if p.IncludeLink { … }` and the two returns
write_link : AckPacket → Slice ℕ
write_link p =
    if p.include_link
    then (do need 40; put_uint32 32 p.pkt_recv_rate; put_uint32 36 p.est_link_cap; return 40)
    else return 32

unfoldable pub write_to : AckPacket → Slice ℕ
unfolding write_hdr_to write_link
write_to p = do
  need 32
  write_hdr_to p.hdr pt_ack p.ack_seq_no
  put_uint32 16 p.pkt_seq_hi
  put_uint32 20 p.rtt
  put_uint32 24 p.rtt_var
  put_uint32 28 p.buff_avail
  write_link p

-- `if l >= 40 { … }`
unfoldable pub read_cap : AckPacket → ℕ → Slice AckPacket
read_cap p l =
    if leb 40 l
    then (do est_link_cap ← uint32_at 36; return (record p { est_link_cap = est_link_cap }))
    else return p

-- `if l >= 36 { … }`
unfoldable pub read_link : AckPacket → ℕ → Slice AckPacket
unfolding read_cap
read_link p l =
    if leb 36 l
    then (do
      pkt_recv_rate ← uint32_at 32
      read_cap (record p { include_link = true; pkt_recv_rate = pkt_recv_rate }) l)
    else return p

unfoldable pub read_from : AckPacket → Slice AckPacket
unfolding read_hdr_from read_link
read_from p = do
  l ← len
  need 32
  (info, hdr) ← read_hdr_from p.hdr
  pkt_seq_hi ← uint32_at 16
  rtt ← uint32_at 20
  rtt_var ← uint32_at 24
  buff_avail ← uint32_at 28
  let q = record p {
    hdr = hdr;
    ack_seq_no = info;
    pkt_seq_hi = pkt_seq_hi;
    rtt = rtt;
    rtt_var = rtt_var;
    buff_avail = buff_avail;
  }
  read_link q l

-- Without the link fields the rates are those of a new packet.
pub record IsWire (p : AckPacket) : Type 0 where
  pub hdr_fits : IsWireHeader p.hdr
  pub ack_seq_no_fits : p.ack_seq_no < 2 ^ 32
  pub pkt_seq_hi_fits : p.pkt_seq_hi < 2 ^ 32
  pub rtt_fits : p.rtt < 2 ^ 32
  pub rtt_var_fits : p.rtt_var < 2 ^ 32
  pub buff_avail_fits : p.buff_avail < 2 ^ 32
  pub pkt_recv_rate_fits : p.pkt_recv_rate < 2 ^ 32
  pub est_link_cap_fits : p.est_link_cap < 2 ^ 32
  pub no_rate : p.include_link ≡ false → p.pkt_recv_rate ≡ 0
  pub no_cap : p.include_link ≡ false → p.est_link_cap ≡ 0

-- The packet that `&AckPacket{}` makes.
abbrev pub new : AckPacket
new = record {
  hdr = record { ts = 0; dst_sock_id = 0 };
  ack_seq_no = 0;
  pkt_seq_hi = 0;
  rtt = 0;
  rtt_var = 0;
  buff_avail = 0;
  include_link = false;
  pkt_recv_rate = 0;
  est_link_cap = 0;
}

abbrev link_wire : AckPacket → List ℕ
link_wire p = if p.include_link then be32 p.pkt_recv_rate ++ be32 p.est_link_cap else []

-- The bytes ahead of the link fields, and `rest`.
abbrev fixed_wire : AckPacket → List ℕ → List ℕ
fixed_wire p rest =
    hdr_wire p.hdr pt_ack p.ack_seq_no
    ++ (be32 p.pkt_seq_hi ++ (be32 p.rtt ++ (be32 p.rtt_var ++ (be32 p.buff_avail ++ rest))))

-- The layout on the wire.
abbrev pub wire : AckPacket → List ℕ
wire p = fixed_wire p (link_wire p)

abbrev pub size : AckPacket → ℕ
size p = if p.include_link then 40 else 32

pub length-wire : (p : AckPacket) → length (wire p) ≡ size p
length-wire p = elim (Bool-cases p.include_link) [ inl e ↦ rw e | inr e ↦ rw e ]

write_link-Fills : (p : AckPacket) → Fills 32 (write_link p) (size p) (link_wire p)
unfolding write_link
write_link-Fills p = elim (Bool-cases p.include_link) [
  | inl e ↦ rw e (
      need-Fills 40 (omega arith) (
        then-Fills (store-Fills 32 (be32 p.pkt_recv_rate))
          (then-Fills (store-Fills 36 (be32 p.est_link_cap)) (return-Fills 40 40))))
  | inr e ↦ rw e (return-Fills 32 32)
]

pub write_to-wire :
    (p : AckPacket) (buf : List ℕ)
    → size p ≤ length buf
    → write_to p buf ≡ (ok (size p), wire p ++ drop (size p) buf)
unfolding write_to
write_to-wire p buf h =
    Fills-front
      (need-Fills 32 (omega arith) (
        then-Fills (write_hdr_to-Fills p.hdr pt_ack p.ack_seq_no) (
          then-Fills (store-Fills 16 (be32 p.pkt_seq_hi)) (
            then-Fills (store-Fills 20 (be32 p.rtt)) (
              then-Fills (store-Fills 24 (be32 p.rtt_var))
                (then-Fills (store-Fills 28 (be32 p.buff_avail)) (write_link-Fills p)))))))
      (size p) (length-wire p) buf h

write_link-Fails : (p : AckPacket) → Fails 32 (write_link p) 32 (size p)
unfolding write_link
write_link-Fails p = elim (Bool-cases p.include_link) [
  | inl e ↦ rw e (need-Fails 32 _ 32 40)
  | inr e ↦ rw e (record { run = λ done room h lo hi. absurd (omega arith) })
]

-- The error comes before the first byte is written, or after the fixed part.
pub write_to-too_small :
    (p : AckPacket) (buf : List ℕ) → length buf < size p → (write_to p buf).0 ≡ err too_small
unfolding write_to
write_to-too_small p = Fails-whole (
    need_then-Fails (
      then-Fails (write_hdr_to-Fills p.hdr pt_ack p.ack_seq_no) (omega arith) (
        then-Fails (store-Fills 16 (be32 p.pkt_seq_hi)) (omega arith) (
          then-Fails (store-Fills 20 (be32 p.rtt)) (omega arith) (
            then-Fails (store-Fills 24 (be32 p.rtt_var)) (omega arith) (
              then-Fails (store-Fills 28 (be32 p.buff_avail)) (omega arith)
                (write_link-Fails p)))))))

read_link_absent : (bytes : List ℕ) (q : AckPacket) (l : ℕ) → l < 36 → Reads bytes (read_link q l) q
unfolding read_link
read_link_absent bytes q l h = record { run = ground arith }

read_link_present :
    (bytes rest : List ℕ) (q : AckPacket) (l rate cap : ℕ)
    → 40 ≤ l
    → drop 32 bytes ≡ be32 rate ++ (be32 cap ++ rest)
    → drop 36 bytes ≡ be32 cap ++ rest
    → rate < 2 ^ 32
    → cap < 2 ^ 32
    → Reads bytes
        (read_link q l)
        (record q { include_link = true; pkt_recv_rate = rate; est_link_cap = cap })
unfolding read_link
read_link_present bytes rest q l rate cap h at_rate at_cap rate_fits cap_fits =
    rw (le→leb 36 l (omega arith), le→leb 40 l h)
      (bind-Reads _ (uint32_at-Reads 32 rate _ at_rate rate_fits)
        (bind-Reads _ (uint32_at-Reads 36 cap _ at_cap cap_fits) (return-Reads _)))

-- The packet before its link fields are read.
abbrev unlinked : AckPacket → AckPacket
unlinked p = record p { include_link = false; pkt_recv_rate = 0; est_link_cap = 0 }

read_link-Reads :
    (p : AckPacket) → IsWire p → Reads (wire p) (read_link (unlinked p) (length (wire p))) p
read_link-Reads p w = elim (Bool-cases p.include_link) [
  | inl e ↦
      let linked : record (unlinked p) {
        include_link = true;
        pkt_recv_rate = p.pkt_recv_rate;
        est_link_cap = p.est_link_cap;
      }
          ≡ p =
        ground arith in
      subst (λ r. Reads (wire p) (read_link (unlinked p) (length (wire p))) r) linked
        (read_link_present (wire p) [] (unlinked p) (length (wire p)) p.pkt_recv_rate p.est_link_cap
          (ground (arith, length-wire p)) (rw e) (rw e) w.pkt_recv_rate_fits w.est_link_cap_fits)
  | inr e ↦
      let plain : unlinked p ≡ p = ground arith in
      subst (λ r. Reads (wire p) (read_link (unlinked p) (length (wire p))) r) plain
        (read_link_absent (wire p) (unlinked p) (length (wire p)) (ground (arith, length-wire p)))
]

-- A packet is read back from its own bytes, whose number says if the link fields are there.
pub read_from-wire : (p : AckPacket) → IsWire p → Reads (wire p) (read_from new) p
unfolding read_from
read_from-wire p w = len-Reads _ (
    need-Reads 32 (omega arith) (
      bind-Reads _
        (read_hdr_from-Reads new.hdr p.hdr pt_ack p.ack_seq_no _ w.hdr_fits w.ack_seq_no_fits)
        (bind-Reads _ (uint32_at-Reads 16 p.pkt_seq_hi _ refl w.pkt_seq_hi_fits) (
          bind-Reads _ (uint32_at-Reads 20 p.rtt _ refl w.rtt_fits) (
            bind-Reads _ (uint32_at-Reads 24 p.rtt_var _ refl w.rtt_var_fits) (
              bind-Reads _ (uint32_at-Reads 28 p.buff_avail _ refl w.buff_avail_fits)
                (read_link-Reads p w)))))))
