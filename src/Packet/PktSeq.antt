-- ===== src/Packet/PktSeq.antt =====
-- PacketID (udt/packet/pktseq.go). A PacketID is its Seq, a uint32; the sequence numbers proper
-- are those below 2 ^ 31. `& 0x7FFFFFFF` is `% 2 ^ 31`, after the wrap-around of the uint32.
pub mod Order
pub mod Walk
mod Tests
use go_udt.Common.{ℕ, ◌+◌, ◌-◌, ◌/◌, ◌%◌, ◌^◌, ltb, ◌==◌, if◌then◌else◌}
use go_udt.Common.Int.{ℤ, pos, negsuc}

abbrev pub PacketId : Type 0
PacketId = ℕ

unfoldable pub incr : PacketId → PacketId
incr p = (p + 1) % 2 ^ 32 % 2 ^ 31

unfoldable pub decr : PacketId → PacketId
decr p = (p + 2 ^ 32 - 1) % 2 ^ 32 % 2 ^ 31

-- `off` is not used: the code adds 1.
unfoldable pub add : PacketId → ℤ → PacketId
add p off = (p + 1) % 2 ^ 32 % 2 ^ 31

-- `int32(w)`
abbrev pub int32 : ℕ → ℤ
int32 w = if ltb w (2 ^ 31) then pos w else negsuc (2 ^ 32 - w - 1)

-- `result & 0x40000000 != 0` is bit 30, and `result | 0x80000000` adds bit 31, which is clear.
unfoldable pub blind_diff : PacketId → PacketId → ℤ
blind_diff p rhs =
    let result = (p + 2 ^ 32 - rhs) % 2 ^ 32 % 2 ^ 31 in
    if result / 2 ^ 30 % 2 == 1 then int32 (result + 2 ^ 31) else int32 result
