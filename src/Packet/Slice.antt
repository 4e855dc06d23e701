-- ===== src/Packet/Slice.antt =====
-- Byte slices: `encoding/binary`'s big-endian reads and writes, `copy`, and the length check that
-- each codec function starts with (udt/packet/packet.go).
--
-- A computation is given the bytes of a slice, and returns its result with the bytes that it
-- leaves there. An access past the length is a panic; Go would let a slice expression reach up to
-- the capacity, but every codec function checks the length first.
use go_udt.Common.{
  ℕ, ◌+◌, ◌-◌, ◌*◌, ◌/◌, ◌%◌, ◌^◌, ◌<◌, ◌≡◌, arith, List, [], ◌∷◌, ◌++◌, length, take, drop, ltb,
  leb, if◌then◌else◌,
}
use go_udt.Common.Run.{Run, ok, err, panic, Error, too_small}

abbrev pub Slice : Type 0 → Type 0
Slice A = List ℕ → Run A × List ℕ

abbrev pub then_run : {A B : Type 0} → Run A × List ℕ → (A → Slice B) → Run B × List ℕ
then_run (ok a, buf) f = f a buf
then_run (err e, buf) f = (err e, buf)
then_run (panic, buf) f = (panic, buf)

infixl 5 ◌>>=◌ ◌>>◌
abbrev pub ◌>>=◌ : {A B : Type 0} → Slice A → (A → Slice B) → Slice B
◌>>=◌ m f buf = then_run (m buf) f

abbrev pub ◌>>◌ : {A B : Type 0} → Slice A → Slice B → Slice B
◌>>◌ m k buf = then_run (m buf) (λ _. k)

abbrev pub return : {A : Type 0} → A → Slice A
return a buf = (ok a, buf)

abbrev pub fail : {A : Type 0} → Error → Slice A
fail e buf = (err e, buf)

-- `len(buf)`
unfoldable pub len : Slice ℕ
len buf = (ok (length buf), buf)

-- `if len(buf) < n { return errors.New("packet too small") }`
unfoldable pub need : ℕ → Slice (Unit {0})
need n buf = if ltb (length buf) n then (err too_small, buf) else (ok tt, buf)

-- The big-endian bytes of a uint16 and of a uint32.
abbrev pub be16 : ℕ → List ℕ
be16 v = (v / 2 ^ 8 % 256) ∷ (v % 256) ∷ []

abbrev pub be32 : ℕ → List ℕ
be32 v = (v / 2 ^ 24 % 256) ∷ (v / 2 ^ 16 % 256) ∷ (v / 2 ^ 8 % 256) ∷ (v % 256) ∷ []

-- Writes `bytes` over the slice, from index `off` on.
unfoldable pub store : ℕ → List ℕ → Slice (Unit {0})
store off bytes buf =
    if leb (off + length bytes) (length buf)
    then (ok tt, take off buf ++ (bytes ++ drop (off + length bytes) buf))
    else (panic, buf)

-- `endianness.PutUint16(buf[off:off+2], v)` and `endianness.PutUint32(buf[off:off+4], v)`
abbrev pub put_uint16 : ℕ → ℕ → Slice (Unit {0})
put_uint16 off v = store off (be16 v)

abbrev pub put_uint32 : ℕ → ℕ → Slice (Unit {0})
put_uint32 off v = store off (be32 v)

-- `copy(buf[off:], src)`, which copies as much as there is room for
unfoldable pub copy_to : ℕ → List ℕ → Slice (Unit {0})
unfolding store
copy_to off src buf =
    if leb off (length buf) then store off (take (length buf - off) src) buf else (panic, buf)

-- `endianness.Uint32` of the first four bytes
abbrev pub from_be32 : List ℕ → Run ℕ
from_be32 (a ∷ b ∷ c ∷ d ∷ rest) = ok (a * 2 ^ 24 + b * 2 ^ 16 + c * 2 ^ 8 + d)
from_be32 _ = panic

-- `endianness.Uint32(data[off:off+4])`
abbrev pub uint32_at : ℕ → Slice ℕ
uint32_at off buf = (from_be32 (drop off buf), buf)

-- A copy of `data[off:]`
abbrev pub tail_at : ℕ → Slice (List ℕ)
tail_at off buf = if leb off (length buf) then (ok (drop off buf), buf) else (panic, buf)

-- A copy of `data[off:off+n]`
abbrev pub bytes_at : ℕ → ℕ → Slice (List ℕ)
bytes_at off n buf =
    if leb (off + n) (length buf) then (ok (take n (drop off buf)), buf) else (panic, buf)

-- A uint32 is the value of its four bytes, and a uint16 of its two.
pub be32_value :
    (v : ℕ)
    → v < 2 ^ 32
    → v / 2 ^ 24 % 256 * 2 ^ 24 + v / 2 ^ 16 % 256 * 2 ^ 16 + v / 2 ^ 8 % 256 * 2 ^ 8 + v % 256 ≡ v
be32_value v h = omega arith
