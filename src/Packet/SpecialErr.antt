-- ===== src/Packet/SpecialErr.antt =====
-- ErrPacket (udt/packet/packet_err.go).
use go_udt.Common.{ℕ, ◌^◌, ◌≤◌, ◌<◌, ◌≡◌, refl, List, [], ◌++◌, length, drop, append-nil}
use go_udt.Common.Run.{ok, err, too_small}
use go_udt.Packet.Slice.{Slice, ◌>>=◌, return}
use go_udt.Packet.Wire.{Fills-front}
use go_udt.Packet.Reads.{Reads, return-Reads, bind-Reads}
use go_udt.Packet.Header.{
  CtrlHeader, IsWireHeader, write_hdr_to, read_hdr_from, hdr_wire, write_hdr_to-Fills,
  read_hdr_from-Reads, write_hdr_to-too_small, pt_special_err,
}

pub record ErrPacket : Type 0 where
  pub hdr : CtrlHeader
  pub errno : ℕ

unfoldable pub write_to : ErrPacket → Slice ℕ
unfolding write_hdr_to
write_to p = write_hdr_to p.hdr pt_special_err p.errno

unfoldable pub read_from : ErrPacket → Slice ErrPacket
unfolding read_hdr_from
read_from p = do (info, hdr) ← read_hdr_from p.hdr; return (record p { hdr = hdr; errno = info })

pub record IsWire (p : ErrPacket) : Type 0 where
  pub hdr_fits : IsWireHeader p.hdr
  pub errno_fits : p.errno < 2 ^ 32

-- The layout on the wire.
abbrev pub wire : ErrPacket → List ℕ
wire p = hdr_wire p.hdr pt_special_err p.errno

pub write_to-wire :
    (p : ErrPacket) (buf : List ℕ)
    → 16 ≤ length buf
    → write_to p buf ≡ (ok 16, wire p ++ drop 16 buf)
unfolding write_to
write_to-wire p buf h = Fills-front (write_hdr_to-Fills p.hdr pt_special_err p.errno) 16 refl buf h

pub write_to-too_small :
    (p : ErrPacket) (buf : List ℕ) → length buf < 16 → write_to p buf ≡ (err too_small, buf)
unfolding write_to
write_to-too_small p buf h = write_hdr_to-too_small p.hdr pt_special_err p.errno buf h

-- A packet is read back from any data that begins with its bytes.
pub read_from-wire :
    (q p : ErrPacket) (rest : List ℕ) → IsWire p → Reads (wire p ++ rest) (read_from q) p
unfolding read_from
read_from-wire q p rest w =
    bind-Reads _
      (read_hdr_from-Reads q.hdr p.hdr pt_special_err p.errno (rest) w.hdr_fits w.errno_fits)
      (return-Reads p)

pub read_from-whole : (q p : ErrPacket) → IsWire p → Reads (wire p) (read_from q) p
read_from-whole q p w = rw (append-nil (wire p)) at (read_from-wire q p [] w)
