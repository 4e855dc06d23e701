-- ===== src/Common/Int64.antt =====
-- The arithmetic of Go's int64, which wraps around, and of time.Duration with it.
use go_udt.Common.{
  ℕ, zero, suc, ◌+◌, ◌-◌, ◌*◌, ◌/◌, ◌%◌, ◌^◌, Bool, true, false, Option, none, some, ◌≡◌, ltb,
  if◌then◌else◌, arith,
}
use go_udt.Common.Int.{ℤ, pos, negsuc}

-- `uint64(x)`
unfoldable pub uint64 : ℤ → ℕ
uint64 (pos n) = n % 2 ^ 64
uint64 (negsuc n) = 2 ^ 64 - 1 - n % 2 ^ 64

-- `int64(w)`
unfoldable pub int64 : ℕ → ℤ
int64 w = if ltb w (2 ^ 63) then pos w else negsuc (2 ^ 64 - w - 1)

unfoldable pub add : ℤ → ℤ → ℤ
unfolding int64 uint64
add x y = int64 ((uint64 x + uint64 y) % 2 ^ 64)

unfoldable pub sub : ℤ → ℤ → ℤ
unfolding int64 uint64
sub x y = int64 ((uint64 x + 2 ^ 64 - uint64 y) % 2 ^ 64)

unfoldable pub mul : ℤ → ℤ → ℤ
unfolding int64 uint64
mul x y = int64 (uint64 x * uint64 y % 2 ^ 64)

abbrev minus : ℕ → ℤ
minus zero = pos 0
minus (suc n) = negsuc n

-- `x / y`, which rounds towards zero and panics where `y` is 0
unfoldable pub div : ℤ → ℤ → Option ℤ
unfolding int64
div x (pos zero) = none
div (pos a) (pos (suc b)) = some (pos (a / suc b))
div (negsuc a) (pos (suc b)) = some (minus (suc a / suc b))
div (pos a) (negsuc b) = some (minus (a / suc b))
div (negsuc a) (negsuc b) = some (int64 (suc a / suc b % 2 ^ 64))

-- `x % y`, which has the sign of `x`
unfoldable pub rem : ℤ → ℤ → Option ℤ
rem x (pos zero) = none
rem (pos a) (pos (suc b)) = some (pos (a % suc b))
rem (negsuc a) (pos (suc b)) = some (minus (suc a % suc b))
rem (pos a) (negsuc b) = some (pos (a % suc b))
rem (negsuc a) (negsuc b) = some (minus (suc a % suc b))

-- `x < y`
unfoldable pub lt : ℤ → ℤ → Bool
lt (pos a) (pos b) = ltb a b
lt (pos a) (negsuc b) = false
lt (negsuc a) (pos b) = true
lt (negsuc a) (negsuc b) = ltb b a

pub mul_zero : (x : ℤ) → mul x (pos 0) ≡ pos 0
unfolding mul
mul_zero x = ground arith
