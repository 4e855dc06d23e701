-- ===== src/Packet/PktSeq/Tests.antt =====
-- Runs of the sequence arithmetic, and its theorems at concrete numbers.
use go_udt.Common.{◌≡◌, refl, [], ◌∷◌, some}
use go_udt.Common.Int.{pos}
use go_udt.Packet.PktSeq.{incr, decr, blind_diff}
use go_udt.Packet.PktSeq.Walk.{walk}

wraps : (incr 0x7fff_ffff ≡ 0) × (decr 0 ≡ 0x7fff_ffff) × (blind_diff 1 0x7fff_ffff ≡ pos 2)
unfolding incr decr blind_diff
wraps = (refl, refl, refl)

walks : walk 5 0x7fff_fffe 1 ≡ some (0x7fff_fffe ∷ 0x7fff_ffff ∷ 0 ∷ [])
unfolding walk incr
walks = refl
