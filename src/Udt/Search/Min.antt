-- ===== src/Udt/Search/Min.antt =====
-- When Min ends, and what it returns.
use go_udt.Common.{
  ℕ, zero, suc, ◌+◌, ◌*◌, ◌≤◌, ◌<◌, ◌≡◌, ◌≢◌, ◌⊎◌, inl, inr, refl, sym, ◌∙◌, Bool, true, false,
  ◌&&◌, ◌||◌, List, [], ◌∷◌, some, length, get_elem?, ltb, leb, ◌==◌, if◌then◌else◌, arith,
  Bool-cases, Option-cases, lt-length_of_get_elem?, length-le_of_get_elem?, le→ltb,
}
use mathlib.Core.Option.{some-injective}
use go_udt.Udt.Search.Way.{Way, root, to_even, to_odd, Reached, Outcome}
use go_udt.Udt.Search.{Search, found, out_of_fuel, out_of_range, wrap_loop, min_loop, min}

module _ {A : Type 0} (key : A → ℕ) (from upto : ℕ) (h : List A) where
  -- Above the start of the range the loop goes to `2 * i`, unless it stops.
  abbrev pub Above : ℕ → A → Type 0
  Above i x = (from < key x) × ((upto < key x) ⊎ (i * 2 < length h))

  abbrev pub Below : ℕ → A → Type 0
  Below i x = key x < from

  -- It stops at the start of the range, or within the range where `2 * i` leaves the slice.
  abbrev pub First : ℕ → A → Type 0
  First i x = (key x ≡ from) ⊎ ((from < key x) × (key x ≤ upto) × (length h ≤ i * 2))

  min_loop_stays :
      (x : A)
      → get_elem? h 0 ≡ some x
      → from < key x
      → (fuel : ℕ) → min_loop key fuel from upto h 0 ≡ out_of_fuel
  unfolding min_loop
  min_loop_stays x e above zero = refl
  min_loop_stays x e above (suc fuel) =
      let lt = lt-length_of_get_elem? h 0 e in
      let le : leb from (key x) ≡ true = ground arith in
      let ne : (key x == from) ≡ false = ground arith in
      let more : leb (length h) 0 ≡ false = ground arith in
      rw (e, min_loop, le, ne, more) (min_loop_stays x e above fuel)

  -- The end of a round at an entry that is not the one at `from`.
  abbrev leaves : A → ℕ → Bool
  leaves x next = leb (length h) next && (ltb from (key x) && (ltb upto from || leb (key x) upto))

  abbrev next_of : A → ℕ → ℕ
  next_of x idx = if leb from (key x) then idx * 2 else idx * 2 + 1

  step-Way :
      (x : A) (idx : ℕ)
      → get_elem? h idx ≡ some x
      → Way Above Below h idx
      → (key x == from) ≡ false
      → leaves x (next_of x idx) ≡ false
      → Way Above Below h (next_of x idx)
  step-Way x idx e way other stays = elim (Bool-cases (leb from (key x))) [
    | inr t ↦ rw t (to_odd idx x way e (ground arith))
    | inl t ↦ elim (Bool-cases (leb (key x) upto)) [
      | inl u ↦ rw t (to_even idx x way e (ground arith, inr (ground arith)))
      | inr u ↦ rw t (to_even idx x way e (ground arith, inl (ground arith)))
    ]
  ]

  round_answers :
      (x : A) (idx : ℕ) (rest : Search)
      → from ≤ upto
      → get_elem? h idx ≡ some x
      → Way Above Below h idx
      → ((key x == from) ≡ false
          → Way Above Below h (next_of x idx)
          → Reached Above Below First h rest)
      → Reached Above Below First h (
          if key x == from then found idx else if leaves x (next_of x idx) then found idx else rest)
  round_answers x idx rest plain e way ih = elim (Bool-cases (key x == from)) [
    | inl t ↦ rw t (x, way, e, inl (ground arith))
    | inr t ↦ elim (Bool-cases (leaves x (next_of x idx))) [
      | inl u ↦ rw (t, u) (x, way, e, inr (ground arith, ground arith, ground arith))
      | inr u ↦ rw (t, u) (ih t (step-Way x idx e way t u))
    ]
  ]

  module _ (plain : from ≤ upto) where
    min_loop_answers :
        (fuel idx : ℕ)
        → 0 < fuel
        → 0 < idx
        → length h < idx + fuel
        → Way Above Below h idx
        → Reached Above Below First h (min_loop key fuel from upto h idx)
    unfolding min_loop
    min_loop_answers zero idx left pos enough way = absurd (omega arith)
    min_loop_answers (suc fuel) idx left pos enough way = elim (Option-cases (get_elem? h idx)) [
      | inl e ↦ rw (e, min_loop, le→ltb upto from plain) (idx, way, length-le_of_get_elem? h idx e)
      | inr (x, e) ↦
          let lt = lt-length_of_get_elem? h idx e in
          let further : idx < next_of x idx = ground arith in
          rw (e, min_loop)
            (round_answers x idx _ plain e way λ other.
              min_loop_answers fuel (next_of x idx) (omega arith) (omega arith) (omega arith))
    ]

    answers :
        ((x : A) → get_elem? h 0 ≡ some x → key x ≤ from)
        → Reached Above Below First h (min key from upto h)
    unfolding min min_loop
    answers low = elim (Option-cases (get_elem? h 0)) [
      | inl e ↦ rw (e, min_loop, le→ltb upto from plain) (0, root, length-le_of_get_elem? h 0 e)
      | inr (x, e) ↦
          let lt = lt-length_of_get_elem? h 0 e in
          let below = low x e in
          rw (e, min_loop)
            (round_answers x 0 _ plain e root λ other.
              let further : 0 < next_of x 0 = ground arith in
              min_loop_answers (length h) (next_of x 0) (omega arith) (omega arith) (omega arith))
    ]

-- Over a range that does not wrap around, Min goes from index i to 2 * i at an entry above the start of
-- the range, and to 2 * i + 1 at one below it. Where the root is above the start it never ends,
-- whatever the fuel. Otherwise it ends within one round more than there are entries: at an entry on
-- this way that is at the start of the range, or in the range with 2 * i outside the slice, and with
-- its index; or where the way leaves the slice, with none.
pub min_outcome :
    {A : Type 0} (key : A → ℕ) (from upto : ℕ) (h : List A)
    → from ≤ upto
    → Outcome
        (Above key from upto h)
        (Below key from upto h)
        (First key from upto h)
        h
        (λ fuel. min_loop key fuel from upto h 0)
        (min key from upto h)
min_outcome key from upto h plain = elim (Option-cases (get_elem? h 0)) [
  | inl e ↦
      let low : (y : _) → get_elem? h 0 ≡ some y → key y ≤ from = λ y e'. absurd (cc) in
      inr (λ y e' w. absurd (cc), answers key from upto h plain low)
  | inr (x, e) ↦ elim (Bool-cases (ltb from (key x))) [
    | inl above ↦
        let lt = lt-length_of_get_elem? h 0 e in
        inl (
          x,
          e,
          (ground arith, inr (omega arith)),
          min_loop_stays key from upto h x e (ground arith),
        )
    | inr below ↦
        let low : (y : _) → get_elem? h 0 ≡ some y → key y ≤ from =
          λ y e'. rw (some-injective y x (sym e' ∙ e)) (ground arith) in
        inr (λ y e' w. (let le = low y e' in omega (arith, w.0)), answers key from upto h plain low)
  ]
]

wrap_loop_empty :
    {A : Type 0} (key : A → ℕ) (fuel upto : ℕ) → wrap_loop key (suc fuel) upto [] 0 ≡ out_of_range
unfolding wrap_loop
wrap_loop_empty key fuel upto = ground arith

wrap_loop_stays :
    {A : Type 0} (key : A → ℕ) (fuel upto : ℕ) (x : A) (h : List A)
    → wrap_loop key fuel upto (x ∷ h) 0 ≡ out_of_fuel
unfolding wrap_loop
wrap_loop_stays key zero upto x h = refl
wrap_loop_stays key (suc fuel) upto x h =
    let more : leb (length (x ∷ h)) 0 ≡ false = ground arith in
    rw more (wrap_loop_stays key fuel upto x h)

-- Over a range that wraps around, the second loop of Min panics on an empty heap, and on any other
-- never ends, whatever the fuel.
pub wrap_loop_outcome :
    {A : Type 0} (key : A → ℕ) (upto : ℕ) (h : List A)
    → ((h ≡ []) × ((fuel : ℕ) → wrap_loop key (suc fuel) upto h 0 ≡ out_of_range))
      ⊎ ((h ≢ []) × ((fuel : ℕ) → wrap_loop key fuel upto h 0 ≡ out_of_fuel))
wrap_loop_outcome key upto [] = inl (refl, λ fuel. wrap_loop_empty key fuel upto)
wrap_loop_outcome key upto (x ∷ h) = inr (λ e. cc, λ fuel. wrap_loop_stays key fuel upto x h)
