-- ===== src/Packet/Safe.antt =====
-- Readers that do not panic, and leave the data as it is.
use go_udt.Common.{
  ℕ, ◌+◌, ◌≤◌, ◌<◌, ◌≡◌, refl, ◌⊎◌, inl, inr, List, [], ◌∷◌, length, take, drop, arith, Bool, true,
  false, Bool-cases, ltb, le→leb, length-drop, if◌then◌else◌,
}
use go_udt.Common.Run.{ok, err, Error, too_small}
use go_udt.Packet.Slice.{
  Slice, ◌>>=◌, ◌>>◌, return, fail, len, need, uint32_at, tail_at, bytes_at, from_be32,
}

-- `m` returns a value or an error.
pub record Safe {A : Type 0} (bytes : List ℕ) (m : Slice A) : Type 0 where
  pub run : ((a : A) × (m bytes ≡ (ok a, bytes))) ⊎ ((e : Error) × (m bytes ≡ (err e, bytes)))

-- It does, and on fewer bytes than a header has it returns an error.
pub record Checked {A : Type 0} (bytes : List ℕ) (m : Slice A) : Type 0 where
  pub safe : Safe bytes m
  pub short : length bytes < 16 → (e : Error) × (m bytes ≡ (err e, bytes))

from_be32-ok : (l : List ℕ) → 4 ≤ length l → (v : ℕ) × (from_be32 l ≡ ok v)
from_be32-ok (a ∷ b ∷ c ∷ d ∷ rest) h = (_, refl)
from_be32-ok [] h = absurd (omega arith)
from_be32-ok (a ∷ []) h = absurd (omega arith)
from_be32-ok (a ∷ b ∷ []) h = absurd (omega arith)
from_be32-ok (a ∷ b ∷ c ∷ []) h = absurd (omega arith)

pub first_word : (l : List ℕ) → 4 ≤ length l → (v : ℕ) × (from_be32 l ≡ ok v)
first_word = from_be32-ok

module _ {bytes : List ℕ} where
  pub return-Safe : {A : Type 0} (a : A) → Safe bytes (return a)
  return-Safe a = record { run = inl (a, refl) }

  pub fail-Checked : {A : Type 0} (e : Error) → Checked bytes (fail {A = A} e)
  fail-Checked e = record { safe = record { run = inr (e, refl) }; short = λ h. (e, refl) }

  pub uint32_at-Safe : (off : ℕ) → off + 4 ≤ length bytes → Safe bytes (uint32_at off)
  uint32_at-Safe off h =
      let (v, e) = from_be32-ok (drop off bytes) (omega (arith, length-drop off bytes)) in
      record { run = inl (v, rw e) }

  pub tail_at-Safe : (off : ℕ) → off ≤ length bytes → Safe bytes (tail_at off)
  tail_at-Safe off h = record { run = inl (drop off bytes, rw (le→leb off (length bytes) h)) }

  pub bytes_at-Safe : (off n : ℕ) → off + n ≤ length bytes → Safe bytes (bytes_at off n)
  bytes_at-Safe off n h = record {
    run = inl (take n (drop off bytes), rw (le→leb (off + n) (length bytes) h));
  }

  pub bind-Safe :
      {A B : Type 0} {m : Slice A} (f : A → Slice B)
      → Safe bytes m
      → ((a : A) → Safe bytes (f a))
      → Safe bytes (m >>= f)
  bind-Safe f first rest = elim first.run [
    | inl (a, e) ↦ record { run = rw e ((rest a).run) }
    | inr (x, e) ↦ record { run = inr (x, rw e) }
  ]

  pub bind-Checked :
      {A B : Type 0} {m : Slice A} (f : A → Slice B)
      → Checked bytes m
      → (16 ≤ length bytes → (a : A) → Safe bytes (f a))
      → Checked bytes (m >>= f)
  bind-Checked {m} f first rest = elim (Bool-cases (ltb (length bytes) 16)) [
    | inl short ↦
        let (x, e) = first.short (ground arith) in
        record { safe = record { run = inr (x, rw e) }; short = λ h. (x, rw e) }
    | inr long ↦ record {
      safe = bind-Safe f first.safe (rest (ground arith));
      short = λ h. absurd (ground arith);
    }
  ]

  pub need-Checked :
      {A : Type 0} {k : Slice A} (n : ℕ)
      → 16 ≤ n
      → (n ≤ length bytes → Safe bytes k)
      → Checked bytes (need n >> k)
  unfolding need
  need-Checked n h rest = elim (Bool-cases (ltb (length bytes) n)) [
    | inl short ↦ record {
      safe = record { run = inr (too_small, rw short) };
      short = λ s. (too_small, rw short);
    }
    | inr long ↦ record {
      safe = record { run = rw long ((rest (ground arith)).run) };
      short = λ s. absurd (ground arith);
    }
  ]

  pub len-Checked :
      {B : Type 0} (f : ℕ → Slice B) → Checked bytes (f (length bytes)) → Checked bytes (len >>= f)
  unfolding len
  len-Checked f rest = record { safe = record { run = rest.safe.run }; short = rest.short }

  pub len-Safe :
      {B : Type 0} (f : ℕ → Slice B) → Safe bytes (f (length bytes)) → Safe bytes (len >>= f)
  unfolding len
  len-Safe f rest = record { run = rest.run }

  pub if-Checked :
      {A : Type 0} (b : Bool) {f g : Slice A}
      → Checked bytes f
      → Checked bytes g
      → Checked bytes (if b then f else g)
  if-Checked true f g = f
  if-Checked false f g = g

  pub if-Safe :
      {A : Type 0} (b : Bool) {f g : Slice A}
      → (b ≡ true → Safe bytes f)
      → (b ≡ false → Safe bytes g)
      → Safe bytes (if b then f else g)
  if-Safe true f g = f refl
  if-Safe false f g = g refl
