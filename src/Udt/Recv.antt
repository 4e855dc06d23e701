-- ===== src/Udt/Recv.antt =====
-- The receiver of a socket (udt/udtsocket_recv.go).
pub mod State
pub mod Sound
pub mod Speeds
pub mod Ack
pub mod Assemble
pub mod Data
pub mod Events
mod Tests
