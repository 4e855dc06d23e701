-- ===== src/Packet/PktSeq/Walk.antt =====
-- The loops `for id := a; id != b; id.Incr()` of the sender and the receiver.
use go_udt.Common.{
  ℕ, zero, suc, ◌+◌, ◌-◌, ◌%◌, ◌^◌, ◌<◌, ◌≡◌, arith, ◌==◌, if◌then◌else◌, Option, none, some, List,
  [], ◌∷◌, false,
}
use mathlib.Core.Option
use go_udt.Packet.PktSeq.{PacketId, incr}

-- The numbers that the loop visits; `none` means that the fuel ran out.
unfoldable pub walk : ℕ → PacketId → PacketId → Option (List PacketId)
walk zero a b = none
walk (suc fuel) a b =
    let rest = walk fuel (incr a) b in if a == b then some [] else Option.map (◌∷◌ a) rest

-- The `n` sequence numbers from `a` on.
abbrev pub run_from : PacketId → ℕ → List PacketId
run_from a zero = []
run_from a (suc n) = a ∷ run_from ((a + 1) % 2 ^ 31) n

walk_run :
    (fuel a b n : ℕ)
    → a < 2 ^ 31
    → n < 2 ^ 31
    → n < fuel
    → b ≡ (a + n) % 2 ^ 31
    → walk fuel a b ≡ some (run_from a n)
unfolding walk incr
walk_run zero a b n ha hn hf e = absurd (omega arith)
walk_run (suc fuel) a b zero ha hn hf e = ground arith
walk_run (suc fuel) a b (suc n) ha hn hf e =
    let step : incr a ≡ (a + 1) % 2 ^ 31 = omega arith in
    let ih =
      walk_run fuel ((a + 1) % 2 ^ 31) b n (omega arith) (omega arith) (omega arith)
        (omega arith) in
    let test : (a == b) ≡ false = ground arith in rw (test, step, ih)

-- Between sequence numbers the loop ends: it visits those from `a` up to but excluding `b`, in
-- order round the circle, if the fuel exceeds their number.
pub walk-eq-run_from :
    (fuel a b : ℕ)
    → a < 2 ^ 31
    → b < 2 ^ 31
    → (b + 2 ^ 31 - a) % 2 ^ 31 < fuel
    → walk fuel a b ≡ some (run_from a ((b + 2 ^ 31 - a) % 2 ^ 31))
walk-eq-run_from fuel a b ha hb hf = walk_run fuel a b _ ha (omega arith) hf (omega arith)
