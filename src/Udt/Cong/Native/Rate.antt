-- ===== src/Udt/Cong/Native/Rate.antt =====
-- The arithmetic of NativeCongestionControl (udt/congestion_native.go): times, windows and periods.
use go_udt.Common.{ℕ, ◌-◌, ◌/◌, ◌^◌, not, ◌&&◌, Option, ltb, if◌then◌else◌}
use go_udt.Common.Int.{ℤ, pos, negsuc}
use go_udt.Common.Int64
use go_udt.Udt.Cong.Float64.{Float64}
use go_udt.Udt.Cong.State.{Moment, second, get_rtt}
use go_udt.Udt.Cong.Native.Object.{NativeCongestionControl}

-- `now.Sub(earlier)`, which saturates
unfoldable pub sub_time : ℕ → ℕ → ℤ
sub_time now earlier =
    if ltb now earlier
    then (if ltb (2 ^ 63) (earlier - now) then negsuc (2 ^ 63 - 1) else negsuc (earlier - now - 1))
    else (if ltb (now - earlier) (2 ^ 63) then pos (now - earlier) else pos (2 ^ 63 - 1))

-- `time.Duration(w)` and `int(w)` for a uint
abbrev pub duration : ℕ → ℤ
unfolding Int64.int64
duration w = Int64.int64 w

-- `SND * 1.125`
unfoldable pub slower : ℤ → Option ℤ
unfolding Int64.mul Int64.div
slower period = Int64.div (Int64.mul period (pos 1125)) (pos 1000)

-- The estimated capacity that is left: `B` of the code, from `time.Second / pktSendPeriod`
unfoldable pub spare_bandwidth : ℤ → ℕ → ℤ → ℤ → ℤ
unfolding Int64.sub Int64.lt Int64.int64
spare_bandwidth last_dec_period bandwidth period rate =
    let spare = Int64.sub (duration bandwidth) rate in
    let bandwidth9 = duration (bandwidth / 9) in
    if Int64.lt last_dec_period period && Int64.lt bandwidth9 spare then bandwidth9 else spare

module _ (fl : Float64) where
  abbrev pub min_inc : fl.Value
  min_inc = fl.lit 1 2

  -- `inc`, from `B` and the packet size
  unfoldable pub increase : ℤ → ℕ → fl.Value
  unfolding Int64.lt
  increase spare mss =
      if not (Int64.lt (pos 0) spare)
      then min_inc
      else let size = fl.of_int (pos mss) in
        let bits = fl.mul (fl.mul (fl.of_int spare) size) (fl.lit 80 1) in
        let power = fl.pow10 (fl.to_int (fl.ceil (fl.log10 bits))) in
        let inc = fl.div (fl.mul power (fl.lit 15 7)) size in
        if fl.lt inc min_inc then min_inc else inc

  -- `(SND * SYN) / (SND * inc + SYN)`
  unfoldable pub next_period : ℤ → ℤ → fl.Value → ℤ
  unfolding Int64.mul
  next_period rc_interval period inc = fl.to_int (
      fl.div (fl.of_int (Int64.mul period rc_interval))
        (fl.add (fl.mul (fl.of_int period) inc) (fl.of_int rc_interval)))

  -- `A * (RTT + SYN) + 16`
  unfoldable pub window_from_rate : NativeCongestionControl → Moment → ℕ
  unfolding Int64.add get_rtt
  window_from_rate ncc m = fl.to_uint (
      fl.add
        (fl.mul (fl.div (fl.of_int (pos m.delivery_rate)) (fl.of_int second))
          (fl.of_int (Int64.add (get_rtt m) ncc.rc_interval)))
        (fl.lit 16 0))
