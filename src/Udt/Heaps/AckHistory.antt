-- ===== src/Udt/Heaps/AckHistory.antt =====
-- ackHistoryHeap (udt/ack_history_heap.go).
use go_udt.Common.{ℕ, Bool, List}
use go_udt.Packet.PktSeq.{PacketId}
use go_udt.Udt.Search
use go_udt.Udt.Search.{Search, turn_down}
use go_udt.Udt.Heaps.{less_by}

pub record AckHistoryEntry : Type 0 where
  pub ack_id : ℕ
  pub last_packet : PacketId
  pub send_time : ℕ

abbrev pub key : AckHistoryEntry → ℕ
key e = e.ack_id

abbrev pub less : AckHistoryEntry → AckHistoryEntry → Bool
less = less_by key

unfoldable pub find : List AckHistoryEntry → ℕ → Search
unfolding Search.find
find h ack_id = Search.find (λ e. turn_down ack_id e.ack_id) h
