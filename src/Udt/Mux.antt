-- ===== src/Udt/Mux.antt =====
-- The multiplexer (udt/multiplexer.go): the sockets that share one local address, their packets, and
-- the end of it.
pub mod State
pub mod Listen
pub mod Dial
pub mod Life
mod Tests
pub mod Route
