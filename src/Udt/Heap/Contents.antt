-- ===== src/Udt/Heap/Contents.antt =====
-- What the heap operations hold, whatever Less says: Init and Push lose and invent nothing, and
-- Remove takes out exactly the entry at its index.
use mathlib.Core.List.{Perm, perm_middle}
use mathlib.Core.List.Perm
use mathlib.Core.Option.{some-injective}
use go_udt.Common.{
  ℕ, zero, suc, ◌+◌, ◌-◌, ◌*◌, ◌/◌, ◌≤◌, ◌<◌, ◌≡◌, refl, ap, ◌∙◌, Bool, true, false, List, [], ◌∷◌,
  ◌++◌, none, some, length, get_elem?, set, take, ltb, leb, ◌==◌, if◌then◌else◌, arith, Bool-cases,
  inl, inr, append-nil, get_elem?-some, length-set, get_elem?-set_self, length-perm,
  lt-length_of_get_elem?, le→leb, Option-cases, sym, ◌≢◌, ◌⊎◌,
}
use go_udt.Udt.Heap.{swap, up, child, down, init_loop, init, push, settle, remove}

module _ {A : Type 0} where
  -- A write trades the old entry for the new one.
  set-trade :
      (h : List A) (i : ℕ) (v : A) {x : A} → get_elem? h i ≡ some x → Perm (x ∷ set h i v) (v ∷ h)
  set-trade [] i v e = cc
  set-trade (y ∷ h) zero v {x} e = rw (← some-injective y x e) (Perm.swap v y h)
  set-trade (y ∷ h) (suc i) v {x} e =
      let rest = Perm.cons y (set-trade h i v e) in
      Perm.trans (Perm.swap y x (set h i v)) (Perm.trans rest (Perm.swap v y h))

  -- Where the write at `i` is seen again.
  get_elem?-set :
      (h : List A) (i j : ℕ) (v : A) {y : A}
      → get_elem? h j ≡ some y
      → (z : A) × (get_elem? (set h i v) j ≡ some z) × (z ≡ (if i == j then v else y))
  get_elem?-set [] i j v e = cc
  get_elem?-set (x ∷ h) zero zero v e = (v, refl, ground arith)
  get_elem?-set (x ∷ h) zero (suc j) v {y} e = (y, e, ground arith)
  get_elem?-set (x ∷ h) (suc i) zero v e = (x, refl, ground arith)
  get_elem?-set (x ∷ h) (suc i) (suc j) v e =
      let (z, there, same) = get_elem?-set h i j v e in (z, there, ground arith)

  swap-perm : (h : List A) (i j : ℕ) → Perm (swap h i j) h
  unfolding swap
  swap-perm h i j = elim (Option-cases (get_elem? h i)) [
    | inl e ↦ rw (e, swap) (Perm.refl h)
    | inr (x, e) ↦ elim (Option-cases (get_elem? h j)) [
      | inl f ↦ rw (e, f, swap) (Perm.refl h)
      | inr (y, f) ↦
          let (z, there, same) = get_elem?-set h i j y f in
          let z≡y : z ≡ y = ground arith in
          let second = set-trade (set h i y) j x (rw z≡y at there) in
          rw (e, f, swap) (Perm.cons_inv (Perm.trans second (set-trade h i y e)))
    ]
  ]

  -- An index that is not swapped keeps its entry.
  get_elem?-set_ne :
      (h : List A) (i k : ℕ) (v : A) → i ≢ k → get_elem? (set h i v) k ≡ get_elem? h k
  get_elem?-set_ne [] i k v ne = refl
  get_elem?-set_ne (x ∷ h) zero zero v ne = absurd (ne refl)
  get_elem?-set_ne (x ∷ h) zero (suc k) v ne = refl
  get_elem?-set_ne (x ∷ h) (suc i) zero v ne = refl
  get_elem?-set_ne (x ∷ h) (suc i) (suc k) v ne = get_elem?-set_ne h i k v (omega arith)

  swap_keeps : (h : List A) (i j k : ℕ) → i ≢ k → j ≢ k → get_elem? (swap h i j) k ≡ get_elem? h k
  unfolding swap
  swap_keeps h i j k ne ne' = elim (Option-cases (get_elem? h i)) [
    | inl e ↦ rw (e, swap)
    | inr (x, e) ↦ elim (Option-cases (get_elem? h j)) [
      | inl f ↦ rw (e, f, swap)
      | inr (y, f) ↦
          rw (e, f, swap) (get_elem?-set_ne (set h i y) j k x ne' ∙ get_elem?-set_ne h i k y ne)
    ]
  ]

  -- The entry at `i` comes to the index that it is swapped with.
  swap_moves :
      (h : List A) (i j : ℕ) {x : A}
      → get_elem? h i ≡ some x
      → j < length h
      → get_elem? (swap h i j) j ≡ some x
  unfolding swap
  swap_moves h i j {x} e lt =
      let (y, f) = get_elem?-some h j lt in
      rw (e, f, swap) (get_elem?-set_self (set h i y) j x (omega (arith, length-set h i y)))

  if-perm : {h l r : List A} (b : Bool) → Perm l h → Perm r h → Perm (if b then l else r) h
  if-perm true p q = p
  if-perm false p q = q

  if-perm_front :
      {h : List A} (l r : List A × ℕ) (b : Bool)
      → Perm l.0 h
      → Perm r.0 h
      → Perm (if b then l else r).0 h
  if-perm_front l r true p q = p
  if-perm_front l r false p q = q

  take-last :
      (n : ℕ) (h : List A) {x : A}
      → length h ≡ suc n
      → get_elem? h n ≡ some x
      → take n h ++ x ∷ [] ≡ h
  take-last zero (y ∷ []) {x} l e = ap (λ z. z ∷ []) (some-injective x y (sym e))
  take-last (suc n) (y ∷ h) l e = ap (◌∷◌ y) (take-last n h (omega arith) e)
  take-last n h l e = absurd (ground arith)

module _ {A : Type 0} (less : A → A → Bool) where
  up-perm : (fuel : ℕ) (h : List A) (j : ℕ) → Perm (up less fuel h j) h
  unfolding up
  up-perm zero h j = Perm.refl h
  up-perm (suc fuel) h j =
      if-perm _ (Perm.refl h)
        (Perm.trans (up-perm fuel (swap h ((j - 1) / 2) j) ((j - 1) / 2)) (swap-perm h _ j))

  down-perm : (fuel : ℕ) (h : List A) (i n : ℕ) → Perm (down less fuel h i n).0 h
  unfolding down
  down-perm zero h i n = Perm.refl h
  down-perm (suc fuel) h i n = if-perm_front _ _ _ (Perm.refl h) (
      Perm.trans (down-perm fuel (swap h i (child less h i n)) (child less h i n) n)
        (swap-perm h i _))

  init_loop-perm : (k : ℕ) (h : List A) → Perm (init_loop less k h) h
  unfolding init_loop
  init_loop-perm zero h = Perm.refl h
  init_loop-perm (suc k) h =
      Perm.trans (init_loop-perm k (down less (length h) h k (length h)).0)
        (down-perm (length h) h k (length h))

  settle-perm : (h : List A) (i n : ℕ) → Perm (settle less h i n) h
  unfolding settle
  settle-perm h i n =
      let sunk = down-perm (length h) h i n in
      if-perm (ltb i (down less (length h) h i n).1) sunk (Perm.trans (up-perm (i + 1) _ i) sunk)

  up_keeps :
      (fuel : ℕ) (h : List A) (j n : ℕ) → j < n → get_elem? (up less fuel h j) n ≡ get_elem? h n
  unfolding up
  up_keeps zero h j n lt = refl
  up_keeps (suc fuel) h j n lt =
      let i = (j - 1) / 2 in
      ground (
        arith,
        up_keeps fuel (swap h i j) i n (omega arith),
        swap_keeps h i j n (omega arith) (omega arith),
      )

  child-lt : (h : List A) (i n : ℕ) → 2 * i + 1 < n → child less h i n < n
  unfolding child
  child-lt h i n lt = ground arith

  down_keeps :
      (fuel : ℕ) (h : List A) (i n : ℕ)
      → i < n
      → (get_elem? (down less fuel h i n).0 n ≡ get_elem? h n)
  unfolding down
  down_keeps zero h i n lt = refl
  down_keeps (suc fuel) h i n lt = elim (Bool-cases (leb n (2 * i + 1))) [
    | inl e ↦ rw e
    | inr e ↦
        let j = child less h i n in
        let below = child-lt h i n (ground arith) in
        ground (
          arith,
          down_keeps fuel (swap h i j) j n below,
          swap_keeps h i j n (omega arith) (omega arith),
        )
  ]

  settle_keeps : (h : List A) (i n : ℕ) → i < n → get_elem? (settle less h i n) n ≡ get_elem? h n
  unfolding settle
  settle_keeps h i n lt =
      let (h', to) = down less (length h) h i n in
      ground (arith, down_keeps (length h) h i n lt, up_keeps (i + 1) h' i n lt)

-- Init, which orders a slice, and Push hold exactly the entries that they are given.
pub init-perm : {A : Type 0} (less : A → A → Bool) (h : List A) → Perm (init less h) h
unfolding init
init-perm less h = init_loop-perm less (length h / 2) h

pub push-perm :
    {A : Type 0} (less : A → A → Bool) (h : List A) (x : A) → Perm (push less h x) (x ∷ h)
unfolding push
push-perm less h x =
    Perm.trans (up-perm less (length h + 1) (h ++ x ∷ []) (length h))
      (rw (append-nil h) at (perm_middle {a = x} h []))

take_out :
    {A : Type 0} (h h' : List A) (n : ℕ) (x : A)
    → length h ≡ suc n
    → Perm h' h
    → get_elem? h' n ≡ some x
    → Perm (x ∷ take n h') h
take_out h h' n x size same last =
    let whole = take-last n h' (length-perm same ∙ size) last in
    let front : Perm (x ∷ take n h') (take n h' ++ x ∷ []) =
      Perm.symm (rw (append-nil (take n h')) at (perm_middle {a = x} (take n h') [])) in
    Perm.trans (rw whole at front) same

-- Remove of an index in range takes out exactly the entry there; of any other index it panics.
pub remove-perm :
    {A : Type 0} (less : A → A → Bool) (h : List A) (i : ℕ)
    → (length h ≤ i → remove less h i ≡ none)
      × ((x : A)
          → get_elem? h i ≡ some x
          → (r : List A) × (remove less h i ≡ some r) × Perm (x ∷ r) h)
unfolding remove
remove-perm {A} less h i = (λ out. rw (le→leb (length h) i out), inside)
  where
    inside :
        (x : A)
        → get_elem? h i ≡ some x
        → (r : List A) × (remove less h i ≡ some r) × Perm (x ∷ r) h
    inside x e =
        let n = length h - 1 in
        let lt = lt-length_of_get_elem? h i e in
        let fits : leb (length h) i ≡ false = ground arith in
        let size : length h ≡ suc n = omega arith in
        let swapped = swap h i n in
        elim (Bool-cases (n == i)) [
          | inl same ↦
              let at : i ≡ n = ground arith in
              (take n h, rw (fits, same), take_out h h n x size (Perm.refl h) (rw (← at) e))
          | inr other ↦
              let below : i < n = ground arith in
              (
                take n (settle less swapped i n),
                rw (fits, other),
                take_out h (settle less swapped i n) n x size
                    (Perm.trans (settle-perm less swapped i n) (swap-perm h i n))
                    (settle_keeps less swapped i n below ∙ swap_moves h i n e (omega arith)),
              )
        ]

-- Remove of any index either panics, if that is out of range, or takes out exactly the entry there
-- and keeps all others.
pub remove_outcome :
    {A : Type 0} (less : A → A → Bool) (h : List A) (i : ℕ)
    → ((length h ≤ i) × (remove less h i ≡ none))
      ⊎ ((x : A) × (r : List A) × (get_elem? h i ≡ some x)
          × (remove less h i ≡ some r)
          × Perm (x ∷ r) h)
remove_outcome less h i = elim (Bool-cases (leb (length h) i)) [
  | inl out ↦ let le : length h ≤ i = ground arith in inl (le, (remove-perm less h i).0 le)
  | inr inside ↦
      let (x, e) = get_elem?-some h i (ground arith) in
      let (r, removed, same) = (remove-perm less h i).1 x e in inr (x, r, e, removed, same)
]
