-- ===== src/Packet/PktSeq/Order.antt =====
-- Sequence numbers as a circle of 2 ^ 31.
use go_udt.Common.{ℕ, ◌+◌, ◌-◌, ◌%◌, ◌^◌, ◌<◌, ◌≡◌, ◌≢◌, ◌↔◌, refl, arith}
use go_udt.Common.Int.{ℤ, pos, negsuc}
use go_udt.Packet.PktSeq.{PacketId, incr, decr, add, blind_diff}

-- Incr and Decr undo one another on sequence numbers, and both results are sequence numbers.
pub incr-decr_inverse :
    (p : PacketId)
    → p < 2 ^ 31
    → (decr (incr p) ≡ p) × (incr (decr p) ≡ p) × (incr p < 2 ^ 31) × (decr p < 2 ^ 31)
unfolding incr decr
incr-decr_inverse p h = (omega arith, omega arith, omega arith, omega arith)

-- Add disregards its offset: whatever that is, it returns the successor, so on a sequence number
-- Add(-1) is never the predecessor.
pub add_off_ignored :
    (p : PacketId) (off : ℤ) → p < 2 ^ 31 → (add p off ≡ incr p) × (add p (negsuc 0) ≢ decr p)
unfolding add incr decr
add_off_ignored p off h = (refl, omega arith)

-- For two sequence numbers that are d steps apart on the circle, with 0 < d < 2 ^ 30, BlindDiff is d
-- in the direction of the steps and -d in the other one.
pub blind_diff_steps :
    (p d : ℕ)
    → p < 2 ^ 31
    → 0 < d
    → d < 2 ^ 30
    → (blind_diff ((p + d) % 2 ^ 31) p ≡ pos d) × (blind_diff p ((p + d) % 2 ^ 31) ≡ negsuc (d - 1))
unfolding blind_diff
blind_diff_steps p d hp low hd = (ground arith, ground arith)

-- BlindDiff is zero on sequence numbers exactly when they are the same.
pub blind_diff-eq_zero_iff :
    (p q : PacketId) → p < 2 ^ 31 → q < 2 ^ 31 → (blind_diff p q ≡ pos 0) ↔ (p ≡ q)
unfolding blind_diff
blind_diff-eq_zero_iff p q hp hq = (λ e. ground arith, λ e. ground arith)
