-- ===== src/Udt/Send.antt =====
-- The sending side of a socket (udt/udtsocket_send.go).
pub mod State
pub mod Expire
pub mod Data
pub mod Loss
pub mod Nak
pub mod Ack
pub mod Timer
pub mod Events
mod Tests
