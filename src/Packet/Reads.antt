-- ===== src/Packet/Reads.antt =====
-- What a sequence of reads finds in the data; a reader leaves the data as it is.
use go_udt.Common.{ℕ, ◌+◌, ◌^◌, ◌≤◌, ◌<◌, ◌≡◌, refl, List, ◌++◌, length, take, drop, le→ltb, le→leb}
use go_udt.Common.Run.{ok}
use go_udt.Packet.Slice.{
  Slice, ◌>>=◌, ◌>>◌, return, len, need, be32, be32_value, uint32_at, tail_at, bytes_at, from_be32,
}

-- Run on `bytes`, `m` returns `a` and leaves them unchanged.
pub record Reads {A : Type 0} (bytes : List ℕ) (m : Slice A) (a : A) : Type 0 where
  pub run : m bytes ≡ (ok a, bytes)

module _ {bytes : List ℕ} where
  pub return-Reads : {A : Type 0} (a : A) → Reads bytes (return a) a
  return-Reads a = record { run = refl }

  pub len-Reads :
      {B : Type 0} (f : ℕ → Slice B) {b : B}
      → Reads bytes (f (length bytes)) b
      → Reads bytes (len >>= f) b
  unfolding len
  len-Reads f rest = record { run = rest.run }

  -- A uint32 is read where its bytes stand.
  pub uint32_at-Reads :
      (off v : ℕ) (rest : List ℕ)
      → drop off bytes ≡ be32 v ++ rest
      → v < 2 ^ 32
      → Reads bytes (uint32_at off) v
  uint32_at-Reads off v rest here fits = record { run = rw (here, from_be32, be32_value v fits) }

  pub tail_at-Reads : (off : ℕ) → off ≤ length bytes → Reads bytes (tail_at off) (drop off bytes)
  tail_at-Reads off h = record { run = rw (le→leb off (length bytes) h) }

  pub bytes_at-Reads :
      (off n : ℕ) → off + n ≤ length bytes → Reads bytes (bytes_at off n) (take n (drop off bytes))
  bytes_at-Reads off n h = record { run = rw (le→leb (off + n) (length bytes) h) }

  pub bind-Reads :
      {A B : Type 0} {m : Slice A} {a : A} (f : A → Slice B) {b : B}
      → Reads bytes m a
      → Reads bytes (f a) b
      → Reads bytes (m >>= f) b
  bind-Reads f first rest = record { run = rw first.run rest.run }

  pub need-Reads :
      {B : Type 0} {k : Slice B} {b : B} (n : ℕ)
      → n ≤ length bytes
      → Reads bytes k b
      → Reads bytes (need n >> k) b
  unfolding need
  need-Reads n h rest = record { run = rw (le→ltb (length bytes) n h) rest.run }
