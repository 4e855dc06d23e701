-- ===== src/Udt/Heaps.antt =====
-- The heaps of the udt package. A heap is its slice; a time is a number of nanoseconds.
pub mod AckHistory
pub mod DataPackets
pub mod PacketIds
pub mod RecvLoss
pub mod SendPackets
pub mod AcceptSocks
use go_udt.Common.{ℕ, Bool, true, false, List, Option, none, some, ltb}
use mathlib.Core.Option
use go_udt.Udt.Heap
use go_udt.Udt.Search.{Search, found, missing}

-- Less where it compares the keys of two entries.
abbrev pub less_by : {A : Type 0} → (A → ℕ) → A → A → Bool
less_by key x y = ltb (key x) (key y)

-- `heap.Remove(h, idx); return true` at the index that a search finds, and `return false` where it
-- finds none. `none` stands for a search that never ends, and for a panic.
unfoldable pub remove_found : {A : Type 0} → (A → ℕ) → List A → Search → Option (List A × Bool)
remove_found key h (found i) = Option.map (λ r. (r, true)) (Heap.remove (less_by key) h i)
remove_found key h missing = some (h, false)
remove_found key h _ = none
