-- ===== src/Udt/Recv/Sound.antt =====
-- An invariant of the receiver, and how the calls of a handler keep it.
pub mod Acks
pub mod Slices
pub mod Packets
pub mod Events
use go_udt.Common.{
  ℕ, ◌≤◌, ◌<◌, ◌≡◌, refl, Bool, true, false, List, [], ◌∷◌, ◌++◌, Option, none, some, length,
}
use go_udt.Udt.Recv.State.{
  UdtSocketRecv, Effect, Handler, after, ◌>>=◌, return, get, put, emit, need_some,
}

-- A window that may be nil has at most 16 entries.
abbrev pub IsWindow : Option (List ℕ) → Type 0
IsWindow none = Unit
IsWindow (some h) = length h ≤ 16

-- A slice that is not nil is not empty.
abbrev pub IsFilled : {A : Type 0} → Option (List A) → Type 0
IsFilled none = Unit
IsFilled (some h) = 0 < length h

abbrev pub HasWindows : UdtSocketRecv → Type 0
HasWindows s = IsWindow s.recv_pkt_history × IsWindow s.recv_pkt_pair_history

abbrev pub Sound : UdtSocketRecv → Type 0
Sound s = HasWindows s × IsFilled s.recv_loss_list × IsFilled s.recv_pkt_pend

-- The state of a call that returns.
abbrev pub Holds :
    {A : Type 0} → (UdtSocketRecv → Type 0) → Option (A × UdtSocketRecv × List Effect) → Type 0
Holds Q none = Unit
Holds Q (some (a, t, es)) = Q t

Holds-after :
    {A : Type 0} (Q : UdtSocketRecv → Type 0) (es : List Effect)
    (o : Option (A × UdtSocketRecv × List Effect))
    → Holds Q o
    → Holds Q (after es o)
Holds-after Q es none h = h
Holds-after Q es (some x) h = h

-- Where a call is made with `P` and returns, it leaves `Q`.
pub record Takes {A : Type 0} (P Q : UdtSocketRecv → Type 0) (m : Handler A) : Type 0 where
  pub leaves : (s : UdtSocketRecv) → P s → Holds Q (m s)

Holds-bind :
    {A B : Type 0} (Q R : UdtSocketRecv → Type 0) (f : A → Handler B)
    (o : Option (A × UdtSocketRecv × List Effect))
    → ((a : A) → Takes Q R (f a))
    → Holds Q o
    → Holds R (elim o [ none ↦ none | some (a, t, es) ↦ after es (f a t) ])
Holds-bind Q R f none rest h = h
Holds-bind Q R f (some (a, t, es)) rest h = Holds-after R es (f a t) ((rest a).leaves t h)

module _ {P R : UdtSocketRecv → Type 0} where
  pub bind-Takes :
      {A B : Type 0} {Q : UdtSocketRecv → Type 0} {m : Handler A} {f : A → Handler B}
      → Takes P Q m
      → ((a : A) → Takes Q R (f a))
      → Takes P R (m >>= f)
  unfolding ◌>>=◌
  bind-Takes {Q = Q} {m = m} {f = f} first rest = record {
    leaves = λ s p. Holds-bind Q R f (m s) rest (first.leaves s p);
  }

  pub get-Takes :
      {B : Type 0} {f : UdtSocketRecv → Handler B}
      → ((s : UdtSocketRecv) → P s → Takes P R (f s))
      → Takes P R (get >>= f)
  unfolding ◌>>=◌
  get-Takes {f = f} rest = record {
    leaves = λ s p. Holds-after R [] (f s s) ((rest s p).leaves s p);
  }

  -- Where what follows is about the very state that is read.
  pub get_at-Takes :
      {B : Type 0} {f : UdtSocketRecv → Handler B}
      → ((s : UdtSocketRecv) → P s → Takes (λ t. t ≡ s) R (f s))
      → Takes P R (get >>= f)
  unfolding ◌>>=◌
  get_at-Takes {f = f} rest = record {
    leaves = λ s p. Holds-after R [] (f s s) ((rest s p).leaves s refl);
  }

  pub weaken-Takes :
      {A : Type 0} {Q : UdtSocketRecv → Type 0} {m : Handler A}
      → ((s : UdtSocketRecv) → P s → Q s)
      → Takes Q R m
      → Takes P R m
  weaken-Takes to h = record { leaves = λ s p. h.leaves s (to s p) }

  pub put-Takes : {t : UdtSocketRecv} → R t → Takes P R (put t)
  put-Takes r = record { leaves = λ s p. r }

  pub cases-Takes :
      {A : Type 0} {m k : Handler A} (b : Bool)
      → Takes P R m
      → Takes P R k
      → Takes P R (elim b [ true ↦ m | false ↦ k ])
  cases-Takes true h h' = h
  cases-Takes false h h' = h'

  pub decided-Takes :
      {A : Type 0} {m k : Handler A} (b : Bool)
      → (b ≡ true → Takes P R m)
      → (b ≡ false → Takes P R k)
      → Takes P R (elim b [ true ↦ m | false ↦ k ])
  decided-Takes true h h' = h refl
  decided-Takes false h h' = h' refl

  pub option-Takes :
      {A B : Type 0} {m : Handler B} {f : A → Handler B} (o : Option A)
      → Takes P R m
      → ((a : A) → Takes P R (f a))
      → Takes P R (elim o [ none ↦ m | some a ↦ f a ])
  option-Takes none h h' = h
  option-Takes (some a) h h' = h' a

-- What an operation gives, if anything, has a property.
abbrev pub Every : {A : Type 0} → (A → Type 0) → Option A → Type 0
Every Q none = Unit
Every Q (some a) = Q a

module _ {P R : UdtSocketRecv → Type 0} where
  none-Takes : {A B : Type 0} (f : A → Handler B) → Takes P R (need_some none >>= f)
  unfolding ◌>>=◌
  none-Takes f = record { leaves = λ s p. tt }

  some-Takes :
      {A B : Type 0} (f : A → Handler B) (a : A)
      → Takes P R (f a)
      → Takes P R (need_some (some a) >>= f)
  unfolding ◌>>=◌
  some-Takes f a h = record { leaves = λ s p. Holds-after R [] (f a s) (h.leaves s p) }

  pub given-Takes :
      {A B : Type 0} {f : A → Handler B} (Q : A → Type 0) (o : Option A)
      → Every Q o
      → ((a : A) → Q a → Takes P R (f a))
      → Takes P R (need_some o >>= f)
  given-Takes {f = f} Q none e h = none-Takes f
  given-Takes {f = f} Q (some a) e h = some-Takes f a (h a e)

  pub list-Takes :
      {A B : Type 0} {m : Handler B} {f : A → List A → Handler B} (xs : List A)
      → Takes P R m
      → ((x : A) (rest : List A) → Takes P R (f x rest))
      → Takes P R (elim xs [ [] ↦ m | x ∷ rest ↦ f x rest ])
  list-Takes [] h h' = h
  list-Takes (x ∷ rest) h h' = h' x rest

module _ {P : UdtSocketRecv → Type 0} where
  pub return-Takes : {A : Type 0} {a : A} → Takes P P (return a)
  return-Takes = record { leaves = λ s p. p }

  pub emit-Takes : {e : Effect} → Takes P P (emit e)
  emit-Takes = record { leaves = λ s p. p }

  pub need_some-Takes : {A : Type 0} (o : Option A) → Takes P P (need_some o)
  need_some-Takes none = record { leaves = λ s p. tt }
  need_some-Takes (some a) = record { leaves = λ s p. p }
