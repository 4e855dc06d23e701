-- ===== src/Udt.antt =====
-- The udt package: the heaps, and the socket's parts over them.
pub mod Monad
pub mod Address
pub mod Heap
pub mod Search
pub mod Heaps
pub mod Send
pub mod Listener
pub mod Estimates
pub mod Cong
pub mod Mux
pub mod Socket
pub mod Recv
mod Tests
