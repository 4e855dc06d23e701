-- ===== src/Udt/Socket/Read/Partial.antt =====
-- Messages that a stream's reader takes in parts.
use go_udt.Common.{
  ℕ, suc, ◌+◌, ◌-◌, ◌≤◌, ◌<◌, ◌≡◌, refl, ap, ◌∙◌, false, List, [], ◌∷◌, ◌++◌, Option, none, some,
  length, take, drop, leb, ◌==◌, if◌then◌else◌, arith, length-take, length-append, lt→ltb, le→ltb,
  le→leb, take_all,
}
use native.Mathlib.Nat.{sub-zero}
use go_udt.Udt.Socket.Read.{ReadError, ReadState, fetch_read_packet, done, read_loop, read_stream}

-- A loop that has filled the buffer ends.
filled :
    (fuel : ℕ) (conn_err : Option ReadError) (l : ℕ) (out : List ℕ) (r : ReadState)
    → l ≤ length out
    → read_loop (suc fuel) conn_err l out r ≡ done out none r
unfolding read_loop
filled fuel conn_err l out r h = rw (read_loop, le→ltb (length out) l h) refl

lt→leb : (a b : ℕ) → a < b → leb b a ≡ false
lt→leb a b h = ground arith

nonempty : (a : ℕ) → 0 < a → (a == 0) ≡ false
nonempty a h = ground arith

-- A round with a message at hand, that leaves `rest` of it.
copies :
    (fuel : ℕ) (conn_err : Option ReadError) (l : ℕ) (out m out' : List ℕ) (rest : Option (List ℕ))
    (r : ReadState)
    → length out < l
    → out ++ take (l - length out) m ≡ out'
    → (if leb (length m) (length out') then none else some (drop (length out') m)) ≡ rest
    → read_loop (suc fuel) conn_err l out (record r { curr_partial_read = some m })
      ≡ read_loop fuel conn_err l out' (record r { curr_partial_read = rest })
unfolding read_loop
copies fuel conn_err l out m out' rest r h e e' =
    rw (read_loop, lt→ltb (length out) l h, e, e') refl

used_up :
    (m : List ℕ) (n : ℕ)
    → length m ≤ n
    → ◌≡◌ {A = Option (List ℕ)} (if leb (length m) n then none else some (drop n m)) none
used_up m n h = rw (le→leb (length m) n h) refl

-- A round that takes the next message from the channel, behind bytes that it has copied.
fetches :
    (fuel : ℕ) (conn_err : Option ReadError) (l : ℕ) (out m out' : List ℕ)
    (ms : List (Option (List ℕ))) (r : ReadState)
    → 0 < length out
    → length out < l
    → out ++ take (l - length out) m ≡ out'
    → ◌≡◌ {A = Option (List ℕ)}
        (if leb (length m) (length out') then none else some (drop (length out') m))
        none
    → read_loop
        (suc fuel)
        conn_err
        l
        out
        (record r { curr_partial_read = none; message_in = some m ∷ ms })
      ≡ read_loop fuel conn_err l out' (record r { curr_partial_read = none; message_in = ms })
unfolding read_loop
fetches fuel conn_err l out m out' ms r some_out h e e' =
    rw
      (read_loop, lt→ltb (length out) l h, nonempty (length out) some_out, fetch_read_packet, e, e')
      refl

-- A read of fewer bytes than are left of a message gives its next bytes, and leaves the others for
-- the next read.
pub read_stream-partial :
    (conn_err : Option ReadError) (l : ℕ) (m : List ℕ) (r : ReadState)
    → 0 < l
    → l < length m
    → read_stream conn_err l (record r { curr_partial_read = some m })
      ≡ done (take l m) none (record r { curr_partial_read = some (drop l m) })
unfolding read_stream
read_stream-partial conn_err l m r pos short =
    let n : length (take l m) ≡ l = omega (arith, length-take l m) in
    copies (suc (suc (length r.message_in))) conn_err l [] m (take l m) (some (drop l m)) r pos
      (ap (λ k. take k m) (sub-zero l)) (rw (n, lt→leb l (length m) short) refl)
    ∙ filled (suc (length r.message_in)) conn_err l (take l m) _ (omega (arith, n))

-- A read that goes on from one message into the next, of which it has no room for all, though its
-- buffer is at least as long as that, fills the buffer, and loses what is left of the second one.
pub read_stream-loses :
    (conn_err : Option ReadError) (l : ℕ) (m m' : List ℕ) (ms : List (Option (List ℕ)))
    (r : ReadState)
    → 0 < length m
    → length m < l
    → l < length m + length m'
    → length m' ≤ l
    → read_stream conn_err l (record r { curr_partial_read = some m; message_in = some m' ∷ ms })
      ≡ done
          (m ++ take (l - length m) m')
          none
          (record r { curr_partial_read = none; message_in = ms })
unfolding read_stream
read_stream-loses conn_err l m m' ms r some_left over short fits =
    copies (suc (suc (suc (length ms)))) conn_err l [] m m none
      (record r { message_in = some m' ∷ ms }) (omega arith)
      (ap (λ k. take k m) (sub-zero l) ∙ take_all l m (omega arith))
      (used_up m (length m) (omega arith))
    ∙ fetches (suc (suc (length ms))) conn_err l m m' _ ms r some_left over refl
        (used_up m' (length (m ++ take (l - length m) m')) (omega (arith, n)))
    ∙ filled (suc (length ms)) conn_err l _ _ (omega (arith, n))
  where
    n : length (m ++ take (l - length m) m') ≡ l
    n = omega (arith, length-append m (take (l - length m) m'), length-take (l - length m) m')
