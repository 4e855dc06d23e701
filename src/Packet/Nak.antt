-- ===== src/Packet/Nak.antt =====
-- NakPacket (udt/packet/packet_nak.go).
use go_udt.Common.{
  ℕ, zero, suc, ◌+◌, ◌-◌, ◌*◌, ◌/◌, ◌^◌, ◌≤◌, ◌<◌, ◌≡◌, refl, List, [], ◌∷◌, ◌++◌, length, drop,
  All, arith, ltb, Bool-cases, inl, inr, append_assoc, length-append, drop-append,
}
use go_udt.Common.Run.{ok, err, too_small}
use go_udt.Packet.Slice.{Slice, ◌>>=◌, ◌>>◌, return, len, need, be32, put_uint32, uint32_at}
use go_udt.Packet.Wire.{
  Fills, return-Fills, store-Fills, then-Fills, bind-Fills, need-Fills, Fills-front, need-Fails,
  bind-Fails,
}
use go_udt.Packet.Reads.{Reads, return-Reads, len-Reads, bind-Reads, uint32_at-Reads}
use go_udt.Packet.Header.{
  CtrlHeader, IsWireHeader, write_hdr_to, read_hdr_from, hdr_wire, write_hdr_to-Fills,
  read_hdr_from-Reads, write_hdr_to-too_small, pt_nak,
}

pub record NakPacket : Type 0 where
  pub hdr : CtrlHeader
  pub cmp_loss_info : List ℕ

-- `for _, elm := range p.CmpLossInfo { … }`, from `off` on; the offset behind the last entry
write_entries : List ℕ → ℕ → Slice ℕ
write_entries [] off = return off
write_entries (e ∷ es) off = do put_uint32 off e; write_entries es (off + 4)

unfoldable pub write_to : NakPacket → Slice ℕ
unfolding write_hdr_to write_entries
write_to p = do
  off ← write_hdr_to p.hdr pt_nak 0
  need (off + 4 * length p.cmp_loss_info)
  write_entries p.cmp_loss_info off

-- `for idx := range p.CmpLossInfo { … }`, for `n` entries from offset `st` on
unfoldable pub read_entries : ℕ → ℕ → Slice (List ℕ)
read_entries zero st = return []
read_entries (suc n) st = do e ← uint32_at st; es ← read_entries n (st + 4); return (e ∷ es)

unfoldable pub read_from : NakPacket → Slice NakPacket
unfolding read_hdr_from read_entries
read_from p = do
  (info, hdr) ← read_hdr_from p.hdr
  l ← len
  es ← read_entries ((l - 16) / 4) 16
  return (record { hdr = hdr; cmp_loss_info = es })

pub record IsWire (p : NakPacket) : Type 0 where
  pub hdr_fits : IsWireHeader p.hdr
  pub entries_fit : All (λ e. e < 2 ^ 32) p.cmp_loss_info

entries_wire : List ℕ → List ℕ
entries_wire [] = []
entries_wire (e ∷ es) = be32 e ++ entries_wire es

-- The layout on the wire: the entries follow the header.
unfoldable pub wire : NakPacket → List ℕ
unfolding entries_wire
wire p = hdr_wire p.hdr pt_nak 0 ++ entries_wire p.cmp_loss_info

abbrev pub size : NakPacket → ℕ
size p = 16 + 4 * length p.cmp_loss_info

length-entries_wire : (es : List ℕ) → length (entries_wire es) ≡ 4 * length es
unfolding entries_wire
length-entries_wire [] = refl
length-entries_wire (e ∷ es) = omega (arith, length-entries_wire es)

pub length-wire : (p : NakPacket) → length (wire p) ≡ size p
unfolding wire
length-wire p = omega (arith, length-entries_wire p.cmp_loss_info)

write_entries-Fills :
    (es : List ℕ) (off end : ℕ)
    → off + 4 * length es ≡ end
    → Fills off (write_entries es off) end (entries_wire es)
unfolding write_entries entries_wire
write_entries-Fills [] off end h =
    let here : off ≡ end = omega arith in rw here (return-Fills end end)
write_entries-Fills (e ∷ es) off end h =
    then-Fills (store-Fills off (be32 e)) (write_entries-Fills es (off + 4) end (omega arith))

pub write_to-wire :
    (p : NakPacket) (buf : List ℕ)
    → size p ≤ length buf
    → write_to p buf ≡ (ok (size p), wire p ++ drop (size p) buf)
unfolding write_to wire
write_to-wire p buf h =
    Fills-front
      (bind-Fills (write_hdr_to-Fills p.hdr pt_nak 0) _ (
        need-Fills (size p) (omega (arith, length-entries_wire p.cmp_loss_info))
          (write_entries-Fills p.cmp_loss_info 16 (size p) refl)))
      (size p) (length-wire p) buf h

-- Too short for the header, or, once that is written, for the entries.
pub write_to-too_small :
    (p : NakPacket) (buf : List ℕ) → length buf < size p → (write_to p buf).0 ≡ err too_small
unfolding write_to
write_to-too_small p buf h = elim (Bool-cases (ltb (length buf) 16)) [
  | inl short ↦ rw (write_hdr_to-too_small p.hdr pt_nak 0 buf (ground arith))
  | inr enough ↦
      (bind-Fails (write_hdr_to-Fills p.hdr pt_nak 0) _ (omega arith)
          (need-Fails 16 (write_entries p.cmp_loss_info 16) 16 (size p))).run
        [] buf refl (ground arith) (omega arith)
]

read_entries-Reads :
    (es done : List ℕ) (st : ℕ)
    → length done ≡ st
    → All (λ e. e < 2 ^ 32) es
    → Reads (done ++ entries_wire es) (read_entries (length es) st) es
unfolding read_entries entries_wire
read_entries-Reads [] done st h fits = return-Reads []
read_entries-Reads (e ∷ es) done st h (fit, fits) =
    let rest : Reads (done ++ (be32 e ++ entries_wire es)) (read_entries (length es) (st + 4)) es =
      rw (append_assoc done (be32 e) (entries_wire es)) at (
        read_entries-Reads es (done ++ be32 e) (st + 4) (omega (arith, length-append done (be32 e)))
          fits) in
    bind-Reads _ (uint32_at-Reads st e (entries_wire es) (drop-append st done _ h) fit)
      (bind-Reads _ rest (return-Reads (e ∷ es)))

-- A packet is read back from its own bytes, whose number says how many entries there are.
pub read_from-wire : (q p : NakPacket) → IsWire p → Reads (wire p) (read_from q) p
unfolding read_from wire
read_from-wire q p w =
    bind-Reads _
      (read_hdr_from-Reads q.hdr p.hdr pt_nak 0 (entries_wire p.cmp_loss_info) w.hdr_fits
        (omega arith))
      (len-Reads _ (rw (← count) (bind-Reads _ entries (return-Reads p))))
  where
    count : length p.cmp_loss_info ≡ (length (wire p) - 16) / 4
    count = omega (arith, length-wire p)

    entries : Reads (wire p) (read_entries (length p.cmp_loss_info) 16) p.cmp_loss_info
    entries = read_entries-Reads p.cmp_loss_info (hdr_wire p.hdr pt_nak 0) 16 refl w.entries_fit
