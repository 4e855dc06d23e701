-- ===== src/Udt/Send/Ack/Release.antt =====
-- Which entries an ACK takes from the sender's heaps.
use mathlib.Core.List.{Perm}
use mathlib.Core.List.Perm
use mathlib.Core.Option.{some-injective}
use go_udt.Common.{
  ℕ, zero, suc, ◌<◌, ◌≡◌, ◌⊎◌, inl, inr, refl, true, List, [], ◌∷◌, ◌++◌, Option, some, length,
  get_elem?, All, arith, Bool-cases, Option-cases, length-perm,
}
use go_udt.Common.Int.{is_neg}
use go_udt.Packet.PktSeq.{PacketId, blind_diff}
use go_udt.Udt.Heap.Contents.{remove-perm}
use go_udt.Udt.Search.{Search, found, missing, out_of_fuel, out_of_range}
use go_udt.Udt.Heaps.{less_by}
use go_udt.Udt.Send.Ack.{release_loop}

Search-cases :
    (o : Search)
    → ((i : ℕ) × (o ≡ found i)) ⊎ ((o ≡ missing) ⊎ ((o ≡ out_of_fuel) ⊎ (o ≡ out_of_range)))
Search-cases (found i) = inl (i, refl)
Search-cases missing = inr (inl refl)
Search-cases out_of_fuel = inr (inr (inl refl))
Search-cases out_of_range = inr (inr (inr refl))

module _ {A : Type 0} (key : A → ℕ) (smallest : List A → Search) (at_none : Option ℕ)
    (hi : PacketId) where
  -- What a finished loop has taken from `h`.
  abbrev pub Taken : List A → List A → Type 0
  Taken h h' =
      (gone : List A) × Perm (gone ++ h') h × All (λ x. is_neg (blind_diff hi (key x)) ≡ true) gone

  same_on_fuel :
      (fuel fuel' : ℕ) (h : List A)
      → length h < fuel
      → length h < fuel'
      → release_loop key smallest at_none hi fuel h ≡ release_loop key smallest at_none hi fuel' h
  unfolding release_loop
  same_on_fuel zero fuel' h enough enough' = absurd (omega arith)
  same_on_fuel (suc fuel) zero h enough enough' = absurd (omega arith)
  same_on_fuel (suc fuel) (suc fuel') h enough enough' = elim (Search-cases (smallest h)) [
    | inr (inl e) ↦ rw (release_loop, e) refl
    | inr (inr (inl e)) ↦ rw (release_loop, e) refl
    | inr (inr (inr e)) ↦ rw (release_loop, e) refl
    | inl (i, e) ↦ elim (Option-cases (get_elem? h i)) [
      | inl n ↦ rw (release_loop, e, n) refl
      | inr (x, n) ↦ elim (Bool-cases (is_neg (blind_diff hi (key x)))) [
        | inr b ↦ rw (release_loop, e, n, b) refl
        | inl b ↦
            let (r, removed, same) = (remove-perm (less_by key) h i).1 x n in
            let size = length-perm same in
            rw (release_loop, e, n, b, removed)
              (same_on_fuel fuel fuel' r (omega arith) (omega arith))
      ]
    ]
  ]

  none-Taken : (h h' : List A) → some h ≡ some h' → Taken h h'
  none-Taken h h' e = ([], rw (some-injective h h' e) (Perm.refl h'), tt)

  takes :
      (fuel : ℕ) (h h' : List A)
      → release_loop key smallest at_none hi fuel h ≡ some h'
      → Taken h h'
  unfolding release_loop
  takes zero h h' ends = cc
  takes (suc fuel) h h' ends = elim (Search-cases (smallest h)) [
    | inr (inl e) ↦ elim (Option-cases at_none) [
      | inl a ↦ let stops = rw (release_loop, e, a) at ends in cc
      | inr (k, a) ↦ none-Taken h h' (rw (release_loop, e, a) at ends)
    ]
    | inr (inr (inl e)) ↦ let stops = rw (release_loop, e) at ends in cc
    | inr (inr (inr e)) ↦ let stops = rw (release_loop, e) at ends in cc
    | inl (i, e) ↦ elim (Option-cases (get_elem? h i)) [
      | inl n ↦ let stops = rw (release_loop, e, n) at ends in cc
      | inr (x, n) ↦ elim (Bool-cases (is_neg (blind_diff hi (key x)))) [
        | inr b ↦ none-Taken h h' (rw (release_loop, e, n, b) at ends)
        | inl b ↦
            let (r, removed, same) = (remove-perm (less_by key) h i).1 x n in
            let (gone, all, beyond) =
              takes fuel r h' (rw (release_loop, e, n, b, removed) at ends) in
            (x ∷ gone, Perm.trans (Perm.cons x all) same, (b, beyond))
      ]
    ]
  ]

-- One more round than there are entries is as good as any more.
pub release_loop_fuel :
    {A : Type 0} (key : A → ℕ) (smallest : List A → Search) (at_none : Option ℕ) (hi : PacketId)
    (h : List A) (fuel : ℕ)
    → length h < fuel
    → release_loop key smallest at_none hi fuel h
      ≡ release_loop key smallest at_none hi (suc (length h)) h
release_loop_fuel key smallest at_none hi h fuel enough =
    same_on_fuel key smallest at_none hi fuel (suc (length h)) h enough (omega arith)

-- Of the loop that is to take acknowledged entries from a heap, whatever Min answers, where it
-- ends: each entry that it takes lies beyond the acknowledged number, and no other entry is lost.
-- So the entries that the ACK is for are all kept.
pub release_loop_keeps :
    {A : Type 0} (key : A → ℕ) (smallest : List A → Search) (at_none : Option ℕ) (hi : PacketId)
    (h h' : List A) (fuel : ℕ)
    → release_loop key smallest at_none hi fuel h ≡ some h'
    → (gone : List A) × Perm (gone ++ h') h × All (λ x. is_neg (blind_diff hi (key x)) ≡ true) gone
release_loop_keeps key smallest at_none hi h h' fuel ends =
    takes key smallest at_none hi fuel h h' ends
