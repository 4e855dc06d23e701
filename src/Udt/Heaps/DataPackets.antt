-- ===== src/Udt/Heaps/DataPackets.antt =====
-- dataPacketHeap (udt/datapacket_heap.go).
use go_udt.Common.{ℕ, Bool, List, Option}
use go_udt.Packet.PktSeq.{PacketId}
use go_udt.Packet.Data.{DataPacket}
use go_udt.Udt.Search
use go_udt.Udt.Search.{Search, turn_down}
use go_udt.Udt.Heaps.{less_by, remove_found}

abbrev pub key : DataPacket → ℕ
key p = p.seq

abbrev pub less : DataPacket → DataPacket → Bool
less = less_by key

unfoldable pub find : List DataPacket → PacketId → Search
unfolding Search.find
find h id = Search.find (λ p. turn_down id p.seq) h

unfoldable pub min : List DataPacket → PacketId → PacketId → Search
unfolding Search.min
min h from upto = Search.min key from upto h

unfoldable pub remove : List DataPacket → PacketId → Option (List DataPacket × Bool)
unfolding Search.find remove_found
remove h id = remove_found key h (Search.find (λ p. turn_down id p.seq) h)
