-- ===== src/Packet.antt =====
-- The packet package (udt/packet): sequence numbers, the wire format of each packet type, and
-- the dispatch of a received datagram.
pub mod PktSeq
pub mod Slice
pub mod Wire
pub mod Reads
pub mod Safe
pub mod Header
pub mod Handshake
pub mod KeepAlive
pub mod Ack
pub mod LightAck
pub mod Nak
pub mod Congestion
pub mod Shutdown
pub mod Ack2
pub mod MsgDropReq
pub mod SpecialErr
pub mod UserDef
pub mod Data
pub mod Any
pub mod TypeName
