-- ===== src/Udt/Heaps/AcceptSocks.antt =====
-- acceptSockHeap (udt/acceptsock_heap.go), ordered by the peer's socket and first packet.
pub mod Prune
use go_udt.Common.{
  ℕ, zero, suc, ◌+◌, Bool, true, false, ◌&&◌, ◌||◌, List, [], ◌∷◌, Option, none, some, length, ltb,
  ◌==◌, if◌then◌else◌,
}
use mathlib.Core.Option
use go_udt.Packet.PktSeq.{PacketId}
use go_udt.Udt.Heap
use go_udt.Udt.Search
use go_udt.Udt.Search.{Search, Turn, here, even, odd}

-- `sock` is the address of the socket.
pub record AcceptSockInfo : Type 0 where
  pub sock_id : ℕ
  pub init_seq_no : PacketId
  pub last_touch : ℕ
  pub sock : ℕ

unfoldable pub less : AcceptSockInfo → AcceptSockInfo → Bool
less x y =
    if x.sock_id == y.sock_id then ltb x.init_seq_no y.init_seq_no else ltb x.sock_id y.sock_id

-- `compare`, and what Find does on its result: `2 * i` on +1, `2 * i + 1` on -1.
unfoldable pub turn : ℕ → PacketId → AcceptSockInfo → Turn
turn sock_id init_seq_no e =
    if ltb sock_id e.sock_id
    then odd
    else if ltb e.sock_id sock_id
    then even
    else if ltb init_seq_no e.init_seq_no
    then odd
    else if ltb e.init_seq_no init_seq_no
    then even
    else here

unfoldable pub find : List AcceptSockInfo → ℕ → PacketId → Search
unfolding Search.find turn
find h sock_id init_seq_no = Search.find (turn sock_id init_seq_no) h

-- The first entry that was last touched before `before`, counting from `idx`.
first_stale : ℕ → List AcceptSockInfo → ℕ → Option ℕ
first_stale before [] idx = none
first_stale before (e ∷ h) idx =
    if ltb e.last_touch before then some idx else first_stale before h (idx + 1)

-- Each round removes an entry, so that the length and one is fuel enough. `none` stands for no
-- end, and for a panic.
prune_loop : ℕ → ℕ → List AcceptSockInfo → Option (List AcceptSockInfo)
unfolding first_stale
prune_loop zero before h = none
prune_loop (suc fuel) before h = elim (first_stale before h 0) [
  | none ↦ some h
  | some i ↦ elim (Heap.remove less h i) [ none ↦ none | some h' ↦ prune_loop fuel before h' ]
]

unfoldable pub prune : List AcceptSockInfo → ℕ → Option (List AcceptSockInfo)
unfolding prune_loop
prune h before = prune_loop (suc (length h)) before h
