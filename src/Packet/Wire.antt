-- ===== src/Packet/Wire.antt =====
-- What a sequence of writes leaves in a buffer.
use go_udt.Common.{
  ℕ, ◌+◌, ◌-◌, ◌≤◌, ◌≡◌, refl, ap, List, [], ◌++◌, length, append_assoc, append-nil, take, drop,
  ltb, ◌<◌, lt→ltb, Bool-cases, inl, inr, arith, length-append, length-drop, take-append,
  drop-append, drop-drop, take_all, le→ltb, le→leb,
}
use go_udt.Common.Run.{ok, err, too_small}
use go_udt.Packet.Slice.{Slice, ◌>>=◌, ◌>>◌, return, need, store, copy_to}

-- Run on a buffer whose first `off` bytes are done, `m` returns `a` and writes `bytes` next, if
-- there is room for them.
pub record Fills {A : Type 0} (off : ℕ) (m : Slice A) (a : A) (bytes : List ℕ) : Type 0 where
  pub run :
      (done room : List ℕ)
      → length done ≡ off
      → length bytes ≤ length room
      → m (done ++ room) ≡ (ok a, (done ++ bytes) ++ drop (length bytes) room)

pub return-Fills : {A : Type 0} (off : ℕ) (a : A) → Fills off (return a) a []
return-Fills off a = record { run = λ done room h k. rw append-nil }

pub store-Fills : (off : ℕ) (bytes : List ℕ) → Fills off (store off bytes) tt bytes
unfolding store
store-Fills off bytes = record {
  run = λ done room h k.
      rw
        (le→leb (off + length bytes) (length (done ++ room))
          (omega (arith, length-append done room)))
        (ap (λ l. (ok tt, l)) (written done room h));
}
  where
    written :
        (done room : List ℕ)
        → length done ≡ off
        → take off (done ++ room) ++ (bytes ++ drop (off + length bytes) (done ++ room))
          ≡ (done ++ bytes) ++ drop (length bytes) room
    written done room h = rw (
      take-append off done room h,
      ← drop-drop off (length bytes) (done ++ room),
      drop-append off done room h,
      append_assoc,
    )

pub copy_to-Fills : (off : ℕ) (bytes : List ℕ) → Fills off (copy_to off bytes) tt bytes
unfolding copy_to
copy_to-Fills off bytes = record {
  run = λ done room h k.
      rw
        (
          le→leb off (length (done ++ room)) (omega (arith, length-append done room)),
          take_all (length (done ++ room) - off) bytes (omega (arith, length-append done room)),
        )
        ((store-Fills off bytes).run done room h k);
}

drop-append_bytes :
    (xs ys room : List ℕ) → drop (length (xs ++ ys)) room ≡ drop (length ys) (drop (length xs) room)
drop-append_bytes xs ys room = rw (length-append xs ys, drop-drop)

module _ {A B : Type 0} {off : ℕ} {m : Slice A} {a : A} {xs : List ℕ}
    (first : Fills off m a xs) where
  pub bind-Fills :
      (f : A → Slice B) {b : B} {ys : List ℕ}
      → Fills (off + length xs) (f a) b ys
      → Fills off (m >>= f) b (xs ++ ys)
  bind-Fills f {ys} rest = record {
    run = λ done room h k.
        let fits = length-append xs ys in
        rw (
          first.run done room h (omega arith),
          rest.run (done ++ xs) (drop (length xs) room) (omega (arith, length-append done xs))
              (omega (arith, length-drop (length xs) room)),
          drop-append_bytes,
          append_assoc done xs ys,
        );
  }

  pub then-Fills :
      {k : Slice B} {b : B} {ys : List ℕ}
      → Fills (off + length xs) k b ys
      → Fills off (m >> k) b (xs ++ ys)
  then-Fills {k} rest = bind-Fills (λ _. k) rest

-- The length check passes where the writes have room.
pub need-Fills :
    {B : Type 0} {k : Slice B} {b : B} {off : ℕ} {ys : List ℕ} (n : ℕ)
    → n ≤ off + length ys
    → Fills off k b ys
    → Fills off (need n >> k) b ys
unfolding need
need-Fills n fits rest = record {
  run = λ done room h k.
      rw (le→ltb (length (done ++ room)) n (omega (arith, length-append done room)))
        (rest.run done room h k);
}

-- On a whole buffer: the bytes stand at its front, and the rest of it is as it was.
pub Fills-front :
    {A : Type 0} {m : Slice A} {a : A} {bytes : List ℕ}
    → Fills 0 m a bytes
    → (n : ℕ) → length bytes ≡ n
    → (buf : List ℕ) → n ≤ length buf
    → m buf ≡ (ok a, bytes ++ drop n buf)
Fills-front w n size buf h = rw (← size) (w.run [] buf refl (omega arith))

-- With at least `low` bytes of buffer and fewer than `high`, `m` reports that the packet is too
-- small for it.
pub record Fails {A : Type 0} (off : ℕ) (m : Slice A) (low high : ℕ) : Type 0 where
  pub run :
      (done room : List ℕ)
      → length done ≡ off
      → low ≤ off + length room
      → off + length room < high
      → (m (done ++ room)).0 ≡ err too_small

pub need-Fails :
    {A : Type 0} (off : ℕ) (k : Slice A) (low high : ℕ) → Fails off (need high >> k) low high
unfolding need
need-Fails off k low high = record {
  run = λ done room h lo hi.
      rw (lt→ltb (length (done ++ room)) high (omega (arith, length-append done room)));
}

-- A first length check, and a later one of the rest.
pub need_then-Fails :
    {A : Type 0} {k : Slice A} {off n high : ℕ}
    → Fails off k n high
    → Fails off (need n >> k) 0 high
unfolding need
need_then-Fails {n} rest = record {
  run = λ done room h lo hi.
      let size = length-append done room in
      elim (Bool-cases (ltb (length (done ++ room)) n)) [
        | inl short ↦ rw short
        | inr enough ↦ rw enough (rest.run done room h (ground (arith, size)) hi)
      ];
}

module _ {A B : Type 0} {off : ℕ} {m : Slice A} {a : A} {xs : List ℕ}
    (first : Fills off m a xs) where
  pub bind-Fails :
      (f : A → Slice B) {low high : ℕ}
      → off + length xs ≤ low
      → Fails (off + length xs) (f a) low high
      → Fails off (m >>= f) low high
  bind-Fails f fits rest = record {
    run = λ done room h lo hi. rw (first.run done room h (omega arith)) (
        rest.run (done ++ xs) (drop (length xs) room) (omega (arith, length-append done xs))
          (omega (arith, length-drop (length xs) room))
          (omega (arith, length-drop (length xs) room)));
  }

  pub then-Fails :
      {k : Slice B} {low high : ℕ}
      → off + length xs ≤ low
      → Fails (off + length xs) k low high
      → Fails off (m >> k) low high
  then-Fails {k} = bind-Fails (λ _. k)

pub Fails-whole :
    {A : Type 0} {m : Slice A} {high : ℕ}
    → Fails 0 m 0 high
    → (buf : List ℕ) → length buf < high
    → (m buf).0 ≡ err too_small
Fails-whole w buf h = w.run [] buf refl (omega arith) (omega arith)
