-- ===== src/Udt/Heaps/RecvLoss.antt =====
-- receiveLossHeap (udt/recvloss_heap.go).
use go_udt.Common.{ℕ, Bool, List, Option}
use go_udt.Packet.PktSeq.{PacketId}
use go_udt.Udt.Search
use go_udt.Udt.Search.{Search, turn_down}
use go_udt.Udt.Heaps.{less_by, remove_found}

pub record RecvLossEntry : Type 0 where
  pub packet_id : PacketId
  pub last_feedback : ℕ
  pub num_nak : ℕ

abbrev pub key : RecvLossEntry → ℕ
key e = e.packet_id

abbrev pub less : RecvLossEntry → RecvLossEntry → Bool
less = less_by key

unfoldable pub find : List RecvLossEntry → PacketId → Search
unfolding Search.find
find h id = Search.find (λ e. turn_down id e.packet_id) h

unfoldable pub min : List RecvLossEntry → PacketId → PacketId → Search
unfolding Search.min
min h from upto = Search.min key from upto h

unfoldable pub remove : List RecvLossEntry → PacketId → Option (List RecvLossEntry × Bool)
unfolding Search.find remove_found
remove h id = remove_found key h (Search.find (λ e. turn_down id e.packet_id) h)
