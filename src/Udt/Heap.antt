-- ===== src/Udt/Heap.antt =====
-- Go's `container/heap`, as the heaps of the udt package use it: Init, Push and Remove over a
-- slice, ordered by Less. The loops run on fuel; `up` rises at most as often as its index is
-- large, and `down` sinks at most as often as the slice is long.
pub mod Contents
use go_udt.Common.{
  ℕ, zero, suc, ◌+◌, ◌-◌, ◌*◌, ◌/◌, Bool, true, false, ◌&&◌, ◌||◌, not, List, [], ◌∷◌, ◌++◌, Option,
  none, some, length, get_elem?, set, take, ltb, leb, ◌==◌, if◌then◌else◌,
}

module _ {A : Type 0} where
  -- `h[i], h[j] = h[j], h[i]`; the callers keep both indices in range.
  swap : List A → ℕ → ℕ → List A
  swap h i j = elim (get_elem? h i) [
    | none ↦ h
    | some x ↦ elim (get_elem? h j) [ none ↦ h | some y ↦ set (set h i y) j x ]
  ]

module _ {A : Type 0} (less : A → A → Bool) where
  -- `h.Less(i, j)`
  less_at : List A → ℕ → ℕ → Bool
  less_at h i j = elim (get_elem? h i) [
    | none ↦ false
    | some x ↦ elim (get_elem? h j) [ none ↦ false | some y ↦ less x y ]
  ]

  up : ℕ → List A → ℕ → List A
  unfolding swap less_at
  up zero h j = h
  up (suc fuel) h j =
      let i = (j - 1) / 2 in
      let risen = up fuel (swap h i j) i in if i == j || not (less_at h j i) then h else risen

  -- The child of `i` below `n` that is the lesser.
  child : List A → ℕ → ℕ → ℕ
  unfolding less_at
  child h i n = let j1 = 2 * i + 1 in if ltb (j1 + 1) n && less_at h (j1 + 1) j1 then j1 + 1 else j1

  -- The slice, and the index that the entry came to.
  down : ℕ → List A → ℕ → ℕ → List A × ℕ
  unfolding swap less_at child
  down zero h i n = (h, i)
  down (suc fuel) h i n =
      let j = child h i n in
      let sunk = down fuel (swap h i j) j n in
      if leb n (2 * i + 1) || not (less_at h j i) then (h, i) else sunk

  -- `for i := n/2 - 1; i >= 0; i-- { down(h, i, n) }`, for the first `k` indices
  init_loop : ℕ → List A → List A
  unfolding down
  init_loop zero h = h
  init_loop (suc i) h = init_loop i ((down (length h) h i (length h)).0)

  unfoldable pub init : List A → List A
  unfolding init_loop
  init h = init_loop (length h / 2) h

  unfoldable pub push : List A → A → List A
  unfolding up
  push h x = up (length h + 1) (h ++ x ∷ []) (length h)

  -- `if !down(h, i, n) { up(h, i) }`
  settle : List A → ℕ → ℕ → List A
  unfolding up down
  settle h i n = let (h', to) = down (length h) h i n in if ltb i to then h' else up (i + 1) h' i

  -- The slice without the entry at `i`; `none` is the panic on an index out of range.
  unfoldable pub remove : List A → ℕ → Option (List A)
  unfolding swap settle
  remove h i =
      if leb (length h) i
      then none
      else (let n = length h - 1 in some (take n (if n == i then h else settle (swap h i n) i n)))
