-- ===== src/Udt/Estimates/Tests.antt =====
-- The estimates at concrete values.
use go_udt.Common.{◌-◌, ◌≤◌, ◌≡◌, refl, arith}
use go_udt.Udt.Estimates.{Estimates, apply_rtt}
use go_udt.Udt.Estimates.Bounds.{apply_rtt_bounds}

abbrev before : Estimates
before = record { rtt = 800; rtt_var = 40; delivery_rate = 16; bandwidth = 1 }

smoothed : apply_rtt 1600 before ≡ record before { rtt = 900; rtt_var = 230 }
unfolding apply_rtt
smoothed = refl

apply_rtt_bounds_example :
    (500 ≤ (apply_rtt 1600 before).rtt)
    × ((apply_rtt 1600 before).rtt ≤ 2000)
    × ((apply_rtt 1600 before).rtt_var ≤ 2000 - 500)
apply_rtt_bounds_example =
    apply_rtt_bounds 1600 500 2000 before (omega arith) (omega arith) (omega arith) (omega arith)
      (omega arith) (omega arith)
