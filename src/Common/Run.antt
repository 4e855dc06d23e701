-- ===== src/Common/Run.antt =====
-- What a Go function that returns (value, error) comes to: a value, an error, or a panic.

-- The errors of the packet codec.
pub data Error : Type 0 where
  too_small : Error
  unknown_type : Error

pub data Run {ℓ} (Value : Type ℓ) : Type ℓ where
  ok : Value → Run Value
  err : Error → Run Value
  panic : Run Value
