-- ===== src/Udt/Tests.antt =====
-- Runs of the heaps, and their theorems at concrete slices.
use mathlib.Core.List.{Perm}
use go_udt.Common.{ℕ, ◌≡◌, refl, List, [], ◌∷◌, some, arith}
use go_udt.Udt.Heap
use go_udt.Udt.Heap.Contents.{init-perm}
use go_udt.Udt.Search.{found, out_of_fuel, find, turn_down, min_loop, min}
use go_udt.Udt.Search.Way.{Outcome}
use go_udt.Udt.Search.Halting.{Above, Below}
use go_udt.Udt.Search.Min
use go_udt.Udt.Search.Min.{First, min_outcome}
use go_udt.Udt.Heaps.PacketIds
use go_udt.Udt.Heaps.AcceptSocks
use go_udt.Udt.Heaps.AcceptSocks.{AcceptSockInfo}
use go_udt.Udt.Heaps.AcceptSocks.Prune.{Pruned, prune-perm}

abbrev ids : List ℕ
ids = 5 ∷ 7 ∷ 6 ∷ []

abbrev key : ℕ → ℕ
key p = p

heap_runs :
    (Heap.push PacketIds.less ids 4 ≡ 4 ∷ 5 ∷ 6 ∷ 7 ∷ [])
    × (Heap.remove PacketIds.less ids 0 ≡ some (6 ∷ 7 ∷ []))
    × (Heap.init PacketIds.less (7 ∷ 6 ∷ 5 ∷ []) ≡ 5 ∷ 6 ∷ 7 ∷ [])
unfolding Heap.push Heap.remove Heap.init
heap_runs = (refl, refl, refl)

searches : (find (turn_down 7) ids ≡ found 1) × (find (turn_down 4) ids ≡ out_of_fuel)
unfolding find
searches = (refl, refl)

init-perm_example : Perm (Heap.init PacketIds.less ids) ids
init-perm_example = init-perm PacketIds.less ids

min_outcome_example :
    Outcome
      (Min.Above key 6 9 ids)
      (Min.Below key 6 9 ids)
      (First key 6 9 ids)
      ids
      (λ fuel. min_loop key fuel 6 9 ids 0)
      (min key 6 9 ids)
min_outcome_example = min_outcome key 6 9 ids (omega arith)

abbrev old_and_new : List AcceptSockInfo
old_and_new =
    record { sock_id = 1; init_seq_no = 10; last_touch = 100; sock = 0 }
    ∷ record { sock_id = 2; init_seq_no = 20; last_touch = 300; sock = 1 }
    ∷ []

prune-perm_example : Pruned 200 old_and_new (AcceptSocks.prune old_and_new 200)
prune-perm_example = prune-perm old_and_new 200
