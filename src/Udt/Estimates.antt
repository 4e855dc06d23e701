-- ===== src/Udt/Estimates.antt =====
-- The estimates that a socket keeps (udt/udtsocket.go): the round trip time with its variance, and
-- the rates that the peer reports. A uint has 64 bits.
pub mod Bounds
mod Tests
use go_udt.Common.{ℕ, ◌+◌, ◌-◌, ◌*◌, ◌/◌, ◌%◌, ◌^◌, ltb, if◌then◌else◌}

pub record Estimates : Type 0 where
  pub rtt : ℕ
  pub rtt_var : ℕ
  pub delivery_rate : ℕ
  pub bandwidth : ℕ

unfoldable pub absdiff : ℕ → ℕ → ℕ
absdiff a b = if ltb a b then b - a else a - b

-- `(old*weight + new) >> shift`, with `2 ^ shift` as `divisor`
abbrev pub smooth : ℕ → ℕ → ℕ → ℕ → ℕ
smooth weight divisor old new = (old * weight + new) % 2 ^ 64 / divisor

unfoldable pub apply_rtt : ℕ → Estimates → Estimates
unfolding absdiff
apply_rtt rtt s = record s {
  rtt_var = smooth 3 4 s.rtt_var (absdiff s.rtt rtt);
  rtt = smooth 7 8 s.rtt rtt;
}

unfoldable pub apply_receive_rates : ℕ → ℕ → Estimates → Estimates
apply_receive_rates delivery_rate bandwidth s = record s {
  delivery_rate =
      if ltb 0 delivery_rate then smooth 7 8 s.delivery_rate delivery_rate else s.delivery_rate;
  bandwidth = if ltb 0 bandwidth then smooth 7 8 s.bandwidth bandwidth else s.bandwidth;
}
