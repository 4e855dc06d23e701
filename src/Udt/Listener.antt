-- ===== src/Udt/Listener.antt =====
-- The listener (udt/listener.go): the SYN cookies by which it answers a first handshake without
-- keeping a state for it, and the sockets that it makes for the others.
pub mod SynCookie
pub mod State
pub mod Accept
