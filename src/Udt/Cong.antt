-- ===== src/Udt/Cong.antt =====
-- Congestion control: the interface (udt/congestion.go), the goroutine that calls it
-- (udt/udtsocket_cc.go), and the control that is used by default (udt/congestion_native.go).
pub mod Float64
pub mod State
pub mod Native
pub mod Msg
pub mod Plumbing
pub mod Calls
pub mod Stores
mod Tests
