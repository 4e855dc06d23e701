-- ===== src/Udt/Estimates/Bounds.antt =====
-- Between which values the estimates stay.
use go_udt.Common.{
  ℕ, ◌-◌, ◌^◌, ◌≤◌, ◌<◌, ◌≡◌, refl, ltb, Bool-cases, inl, inr, if◌then◌else◌, arith,
}
use go_udt.Udt.Estimates.{Estimates, absdiff, smooth, apply_rtt, apply_receive_rates}

absdiff-le : (a b lo hi : ℕ) → lo ≤ a → lo ≤ b → a ≤ hi → b ≤ hi → absdiff a b ≤ hi - lo
unfolding absdiff
absdiff-le a b lo hi la lb ha hb = ground arith

smooth_between :
    (old new lo hi : ℕ)
    → lo ≤ old
    → lo ≤ new
    → old ≤ hi
    → new ≤ hi
    → hi < 2 ^ 61
    → (lo ≤ smooth 7 8 old new) × (smooth 7 8 old new ≤ hi)
smooth_between old new lo hi lo_old lo_new old_hi new_hi fits = (omega arith, omega arith)

smooth_var : (old new hi : ℕ) → old ≤ hi → new ≤ hi → hi < 2 ^ 61 → smooth 3 4 old new ≤ hi
smooth_var old new hi ho hn fits = omega arith

rate_le :
    (old new hi : ℕ)
    → old ≤ hi
    → new ≤ hi
    → hi < 2 ^ 61
    → (if ltb 0 new then smooth 7 8 old new else old) ≤ hi
rate_le old new hi ho hn fits = elim (Bool-cases (ltb 0 new)) [
  | inl e ↦ rw e (smooth_between old new 0 hi (omega arith) (omega arith) ho hn fits).1
  | inr e ↦ rw e ho
]

-- A round trip time between lo and hi < 2 ^ 61, measured where the estimate lies between them and
-- the variance is at most hi - lo, keeps both there: nothing wraps around.
pub apply_rtt_bounds :
    (measured lo hi : ℕ) (s : Estimates)
    → lo ≤ s.rtt
    → s.rtt ≤ hi
    → lo ≤ measured
    → measured ≤ hi
    → s.rtt_var ≤ hi - lo
    → hi < 2 ^ 61
    → (lo ≤ (apply_rtt measured s).rtt)
      × ((apply_rtt measured s).rtt ≤ hi)
      × ((apply_rtt measured s).rtt_var ≤ hi - lo)
unfolding apply_rtt
apply_rtt_bounds measured lo hi s ls sh lm mh var fits =
    let (low, high) = smooth_between s.rtt measured lo hi ls lm sh mh fits in
    (
      low,
      high,
      smooth_var s.rtt_var (absdiff s.rtt measured) (hi - lo) var
          (absdiff-le s.rtt measured lo hi ls lm sh mh) (omega arith),
    )

-- Reported rates of at most hi < 2 ^ 61 keep estimates of at most hi there; a report of 0
-- for both rates leaves all as it is; the round trip time is kept in any case.
pub apply_receive_rates_bounds :
    (delivery_rate bandwidth hi : ℕ) (s : Estimates)
    → s.delivery_rate ≤ hi
    → s.bandwidth ≤ hi
    → delivery_rate ≤ hi
    → bandwidth ≤ hi
    → hi < 2 ^ 61
    → ((apply_receive_rates delivery_rate bandwidth s).delivery_rate ≤ hi)
      × ((apply_receive_rates delivery_rate bandwidth s).bandwidth ≤ hi)
      × (apply_receive_rates 0 0 s ≡ s)
      × ((apply_receive_rates delivery_rate bandwidth s).rtt ≡ s.rtt)
unfolding apply_receive_rates
apply_receive_rates_bounds delivery_rate bandwidth hi s ds bs dr br fits = (
  rate_le s.delivery_rate delivery_rate hi ds dr fits,
  rate_le s.bandwidth bandwidth hi bs br fits,
  refl,
  refl,
)
