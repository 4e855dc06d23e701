-- ===== src/Udt/Cong/Float64.antt =====
-- Go's float64 and the package math, which the program only calls: an argument of the code that
-- uses them. `lit m e` is the constant m · 10⁻ᵉ.
use go_udt.Common.{ℕ, Bool}
use go_udt.Common.Int.{ℤ}

pub record Float64 : Type 1 where
  pub Value : Type 0
  pub of_int : ℤ → Value
  pub to_int : Value → ℤ
  pub to_uint : Value → ℕ
  pub lit : ℕ → ℕ → Value
  pub add : Value → Value → Value
  pub mul : Value → Value → Value
  pub div : Value → Value → Value
  pub lt : Value → Value → Bool
  pub ceil : Value → Value
  pub log10 : Value → Value
  pub pow10 : ℤ → Value
