-- ===== src/Udt/Heaps/SendPackets.antt =====
-- sendPacketHeap (udt/sendpacket_heap.go).
use go_udt.Common.{ℕ, Bool, List, Option}
use go_udt.Packet.PktSeq.{PacketId}
use go_udt.Packet.Data.{DataPacket}
use go_udt.Udt.Search
use go_udt.Udt.Search.{Search, turn_down}
use go_udt.Udt.Heaps.{less_by, remove_found}

pub record SendPacketEntry : Type 0 where
  pub pkt : DataPacket
  pub tim : ℕ
  pub ttl : ℕ

abbrev pub key : SendPacketEntry → ℕ
key e = e.pkt.seq

abbrev pub less : SendPacketEntry → SendPacketEntry → Bool
less = less_by key

unfoldable pub find : List SendPacketEntry → PacketId → Search
unfolding Search.find
find h id = Search.find (λ e. turn_down id e.pkt.seq) h

unfoldable pub min : List SendPacketEntry → PacketId → PacketId → Search
unfolding Search.min
min h from upto = Search.min key from upto h

unfoldable pub remove : List SendPacketEntry → PacketId → Option (List SendPacketEntry × Bool)
unfolding Search.find remove_found
remove h id = remove_found key h (Search.find (λ e. turn_down id e.pkt.seq) h)
