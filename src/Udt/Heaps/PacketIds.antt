-- ===== src/Udt/Heaps/PacketIds.antt =====
-- packetIDHeap (udt/packetid_heap.go). Find turns the other way round than the other heaps' do.
use go_udt.Common.{ℕ, Bool, List}
use go_udt.Packet.PktSeq.{PacketId}
use go_udt.Udt.Search
use go_udt.Udt.Search.{Search, turn_up}
use go_udt.Udt.Heaps.{less_by}

abbrev pub key : PacketId → ℕ
key p = p

abbrev pub less : PacketId → PacketId → Bool
less = less_by key

unfoldable pub find : List PacketId → PacketId → Search
unfolding Search.find
find h id = Search.find (turn_up id) h

unfoldable pub min : List PacketId → PacketId → PacketId → Search
unfolding Search.min
min h from upto = Search.min key from upto h
