-- ===== src/Udt/Search/Way.antt =====
-- The way of a lookup through the slice: from `i` to `2 * i` at some entries, and to `2 * i + 1` at
-- others.
use go_udt.Common.{ℕ, ◌+◌, ◌*◌, ◌≤◌, ◌≡◌, ◌⊎◌, List, some, length, get_elem?}
use go_udt.Udt.Search.{Search, found, missing, out_of_fuel}

pub data Way {A : Type 0} (Even Odd : ℕ → A → Type 0) (h : List A) : ℕ → Type 0 where
  root : Way Even Odd h 0
  to_even :
      (i : ℕ) (x : A)
      → Way Even Odd h i
      → get_elem? h i ≡ some x
      → Even i x
      → Way Even Odd h (i * 2)
  to_odd :
      (i : ℕ) (x : A)
      → Way Even Odd h i
      → get_elem? h i ≡ some x
      → Odd i x
      → Way Even Odd h (i * 2 + 1)

module _ {A : Type 0} (Even Odd Here : ℕ → A → Type 0) (h : List A) where
  -- What a finished search says: an entry on the way where it is to stop, or that the way leaves the
  -- slice.
  abbrev pub Reached : Search → Type 0
  Reached (found i) = (x : A) × Way Even Odd h i × (get_elem? h i ≡ some x) × Here i x
  Reached missing = (i : ℕ) × Way Even Odd h i × (length h ≤ i)
  Reached _ = ⊥

  -- A loop that goes from the root to `2 * 0` never ends; any other does.
  abbrev pub Outcome : (ℕ → Search) → Search → Type 0
  Outcome loop result =
      ((x : A) × (get_elem? h 0 ≡ some x) × Even 0 x × ((fuel : ℕ) → loop fuel ≡ out_of_fuel))
      ⊎ (((x : A) → get_elem? h 0 ≡ some x → Even 0 x → ⊥) × Reached result)
