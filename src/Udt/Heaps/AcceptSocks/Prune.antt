-- ===== src/Udt/Heaps/AcceptSocks/Prune.antt =====
-- What Prune leaves.
use mathlib.Core.List.{Perm, filter}
use mathlib.Core.List.Perm
use mathlib.Core.Logic.{if_pos, if_neg}
use native.Mathlib.Decide.{dec_le}
use go_udt.Common.{
  ℕ, zero, suc, ◌+◌, ◌<◌, ◌≡◌, refl, ap, List, [], ◌∷◌, Option, none, some, length, get_elem?, ltb,
  arith, Bool-cases, Option-cases, inl, inr, length-perm,
}
use go_udt.Udt.Heap.Contents.{remove-perm}
use go_udt.Udt.Heaps.AcceptSocks.{AcceptSockInfo, less, first_stale, prune_loop, prune}

-- The entries that were last touched at `before` or later.
abbrev pub fresh : ℕ → List AcceptSockInfo → List AcceptSockInfo
fresh before = filter (λ e. dec_le before e.last_touch)

fresh_stale :
    (before : ℕ) (x : AcceptSockInfo) (r : List AcceptSockInfo)
    → x.last_touch < before
    → fresh before (x ∷ r) ≡ fresh before r
fresh_stale before x r old = if_neg (dec_le before x.last_touch) (omega arith) _ _

first_stale-none :
    (before : ℕ) (h : List AcceptSockInfo) (idx : ℕ)
    → first_stale before h idx ≡ none
    → fresh before h ≡ h
unfolding first_stale
first_stale-none before [] idx e = refl
first_stale-none before (x ∷ h) idx e = elim (Bool-cases (ltb x.last_touch before)) [
  | inl t ↦ cc (rw t at e)
  | inr t ↦
      rw (if_pos (dec_le before x.last_touch) (ground arith))
        (ap (◌∷◌ x) (first_stale-none before h (idx + 1) (rw t at e)))
]

first_stale-some :
    (before : ℕ) (h : List AcceptSockInfo) (idx i : ℕ)
    → first_stale before h idx ≡ some i
    → (x : AcceptSockInfo) × (k : ℕ) × (i ≡ idx + k)
      × (get_elem? h k ≡ some x)
      × (x.last_touch < before)
unfolding first_stale
first_stale-some before [] idx i e = cc
first_stale-some before (x ∷ h) idx i e = elim (Bool-cases (ltb x.last_touch before)) [
  | inl t ↦ (x, 0, ground arith, refl, ground arith)
  | inr t ↦
      let (y, k, at, there, old) = first_stale-some before h (idx + 1) i (rw t at e) in
      (y, suc k, omega arith, there, old)
]

abbrev pub Pruned : ℕ → List AcceptSockInfo → Option (List AcceptSockInfo) → Type 0
Pruned before h o = (r : List AcceptSockInfo) × (o ≡ some r) × Perm r (fresh before h)

prune_loop_prunes :
    (fuel before : ℕ) (h : List AcceptSockInfo)
    → length h < fuel
    → Pruned before h (prune_loop fuel before h)
unfolding prune_loop
prune_loop_prunes zero before h enough = absurd (omega arith)
prune_loop_prunes (suc fuel) before h enough = elim (Option-cases (first_stale before h 0)) [
  | inl e ↦ (h, rw (e, prune_loop), rw (first_stale-none before h 0 e) (Perm.refl h))
  | inr (i, e) ↦
      let (x, k, at, there, old) = first_stale-some before h 0 i e in
      let i≡k : i ≡ k = omega arith in
      let (r, removed, same) = (remove-perm less h i).1 x (rw i≡k there) in
      let (r', done, rest) = prune_loop_prunes fuel before r (omega (arith, length-perm same)) in
      (
        r',
        rw (e, prune_loop, removed) done,
        Perm.trans rest (
            rw (fresh_stale before x r old) at
              (Perm.filter (λ (e : AcceptSockInfo). dec_le before e.last_touch) same)),
      )
]

-- Prune ends, without a panic, and leaves exactly the entries that were last touched at the given
-- time or later.
pub prune-perm : (h : List AcceptSockInfo) (before : ℕ) → Pruned before h (prune h before)
unfolding prune
prune-perm h before = prune_loop_prunes (suc (length h)) before h (omega arith)
