-- ===== src/Udt/Search.antt =====
-- The loops by which the heaps of the udt package look entries up. Each goes from index `i` to
-- `2 * i` or `2 * i + 1`, so one that turns to `2 * i` at the root stays there: Go's loop does
-- not end, and on fuel the model runs out of it.
pub mod Way
pub mod Halting
pub mod Min
use go_udt.Common.{
  ℕ, zero, suc, ◌+◌, ◌*◌, Bool, true, false, ◌&&◌, ◌||◌, not, List, Option, none, some, length,
  get_elem?, ltb, leb, ◌==◌, if◌then◌else◌,
}

-- The index that a search returned, `missing` for -1, `out_of_fuel` where it goes on for ever, or
-- the panic on an index out of range.
pub data Search : Type 0 where
  found : ℕ → Search
  missing : Search
  out_of_fuel : Search
  out_of_range : Search

-- What the loop does at an entry: it returns it, or goes on to `2 * i` or to `2 * i + 1`.
pub data Turn : Type 0 where
  here : Turn
  even : Turn
  odd : Turn

module _ {A : Type 0} where
  -- `for idx < len { … }` with a turn at each entry
  unfoldable pub find_loop : ℕ → (A → Turn) → List A → ℕ → Search
  find_loop zero turn h idx = out_of_fuel
  find_loop (suc fuel) turn h idx = elim (get_elem? h idx) [
    | none ↦ missing
    | some x ↦ elim (turn x) [
      | here ↦ found idx
      | even ↦ find_loop fuel turn h (idx * 2)
      | odd ↦ find_loop fuel turn h (idx * 2 + 1)
    ]
  ]

  unfoldable pub find : (A → Turn) → List A → Search
  unfolding find_loop
  find turn h = find_loop (suc (length h)) turn h 0

-- The turns of Find and Remove where a greater entry leads to `2 * i`, and of Find where a lesser
-- one does.
abbrev pub turn_down : ℕ → ℕ → Turn
turn_down want key = if key == want then here else if ltb want key then even else odd

abbrev pub turn_up : ℕ → ℕ → Turn
turn_up want key = if ltb want key then odd else if ltb key want then even else here

module _ {A : Type 0} (key : A → ℕ) where
  -- `for { next := idx * 2; if next >= len && h[idx] <= lessEqual { return … }; idx = next }`
  unfoldable pub wrap_loop : ℕ → ℕ → List A → ℕ → Search
  wrap_loop zero upto h idx = out_of_fuel
  wrap_loop (suc fuel) upto h idx =
      let next = idx * 2 in
      let rest = wrap_loop fuel upto h next in
      if leb (length h) next
      then elim (get_elem? h idx) [
        | none ↦ out_of_range
        | some x ↦ if leb (key x) upto then found idx else rest
      ]
      else rest

  -- The first loop of Min; where it leaves the slice, the second one if the range wraps around.
  unfoldable pub min_loop : ℕ → ℕ → ℕ → List A → ℕ → Search
  unfolding wrap_loop
  min_loop zero from upto h idx = out_of_fuel
  min_loop (suc fuel) from upto h idx = elim (get_elem? h idx) [
    | none ↦ if ltb upto from then wrap_loop (suc (length h)) upto h 0 else missing
    | some x ↦
        let next = if leb from (key x) then idx * 2 else idx * 2 + 1 in
        let rest = min_loop fuel from upto h next in
        if key x == from
        then found idx
        else if leb (length h) next && (ltb from (key x) && (ltb upto from || leb (key x) upto))
        then found idx
        else rest
  ]

  unfoldable pub min : ℕ → ℕ → List A → Search
  unfolding min_loop
  min from upto h = min_loop (suc (length h)) from upto h 0
