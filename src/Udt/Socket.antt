-- ===== src/Udt/Socket.antt =====
-- A socket (udt/udtsocket.go): its handshake, its life and its ends.
pub mod State
pub mod Handshake
pub mod Manage
pub mod Read
pub mod Deadline
pub mod Write
pub mod Close
pub mod Life
pub mod Exchange
mod Tests
