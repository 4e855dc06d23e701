-- ===== src/Udt/Monad.antt =====
-- The handlers of the goroutines: a state, and what they put on channels or call in other parts.
--
-- A handler is given the state, and returns its result, the new state and its effects in order.
-- `none` stands for a handler that does not return: a lookup in a heap that never ends, or a panic.
use go_udt.Common.{
  append_assoc, append-nil, arith, ap, inl, inr, Option-cases, List, [], ◌∷◌, ◌++◌, Option, none,
  some, ◌≡◌, refl, sym, ◌∙◌, subst,
}
use mathlib.Core.Option.{some-injective}

abbrev pub Action : Type 0 → Type 0 → Type 0 → Type 0
Action S E A = S → Option (A × S × List E)

module _ {S E : Type 0} where
  -- The effects of what follows come after those so far.
  abbrev pub after : {A : Type 0} → List E → Option (A × S × List E) → Option (A × S × List E)
  after es none = none
  after es (some (a, s, fs)) = some (a, s, es ++ fs)

  infixl 5 ◌>>=◌ ◌>>◌
  abbrev pub ◌>>=◌ : {A B : Type 0} → Action S E A → (A → Action S E B) → Action S E B
  ◌>>=◌ m f s = elim (m s) [ none ↦ none | some (a, s', es) ↦ after es (f a s') ]

  abbrev pub ◌>>◌ : {A B : Type 0} → Action S E A → Action S E B → Action S E B
  ◌>>◌ m k = m >>= λ _. k

  abbrev pub return : {A : Type 0} → A → Action S E A
  return a s = some (a, s, [])

  abbrev pub get : Action S E S
  get s = some (s, s, [])

  abbrev pub put : S → Action S E (Unit {0})
  put s' s = some (tt, s', [])

  abbrev pub emit : E → Action S E (Unit {0})
  emit e s = some (tt, s, e ∷ [])

  -- A call that does not return.
  abbrev pub stop : {A : Type 0} → Action S E A
  stop s = none

  -- A call that does not return where there is no value.
  abbrev pub need_some : {A : Type 0} → Option A → Action S E A
  need_some none = stop
  need_some (some a) = return a

  pub after-nil : {A : Type 0} (o : Option (A × S × List E)) → after [] o ≡ o
  after-nil none = refl
  after-nil (some x) = refl

  -- What follows a call that returns.
  pub bind-some :
      {A B : Type 0} (m : Action S E A) (f : A → Action S E B) (s : S) {a : A} {t : S} {es : List E}
      → m s ≡ some (a, t, es)
      → (m >>= f) s ≡ after es (f a t)
  bind-some m f s e = rw (◌>>=◌, e) refl

  after-append :
      {A : Type 0} (es fs : List E) (o : Option (A × S × List E))
      → after (es ++ fs) o ≡ after es (after fs o)
  after-append es fs none = refl
  after-append es fs (some (a, s, gs)) = ap (λ l. some (a, s, l)) (append_assoc es fs gs)

  bind-after :
      {A B : Type 0} (es : List E) (o : Option (A × S × List E)) (g : A → Action S E B)
      → (elim (after es o) [ none ↦ none | some (a, s, fs) ↦ after fs (g a s) ])
        ≡ after es (elim o [ none ↦ none | some (a, s, fs) ↦ after fs (g a s) ])
  bind-after es none g = refl
  bind-after es (some (a, s, fs)) g = after-append es fs (g a s)

  pub bind_assoc :
      {A B D : Type 0} (m : Action S E A) (f : A → Action S E B) (g : B → Action S E D) (s : S)
      → ((m >>= f) >>= g) s ≡ (m >>= λ a. f a >>= g) s
  bind_assoc m f g s = elim (Option-cases (m s)) [
    | inl e ↦ rw (◌>>=◌, e) refl
    | inr ((a, t, es), e) ↦ rw (◌>>=◌, e) (bind-after es (f a t) g)
  ]

  pub >>-return : (m : Action S E (Unit {0})) (s : S) → (m >> return tt) s ≡ m s
  >>-return m s = elim (Option-cases (m s)) [
    | inl e ↦ rw (◌>>=◌, e) refl
    | inr ((u, t, es), e) ↦ rw (◌>>=◌, e) (ap (λ l. some (tt, t, l)) (append-nil es))
  ]

  after-eq-some :
      {A : Type 0} (es : List E) (o : Option (A × S × List E)) {a : A} {t : S} {fs : List E}
      → after es o ≡ some (a, t, fs)
      → (gs : List E) × (o ≡ some (a, t, gs)) × (fs ≡ es ++ gs)
  after-eq-some es none e = absurd (cc)
  after-eq-some es (some (a, t, gs)) e = (gs, ground arith, ground arith)

  -- The parts of a call that returns.
  pub bind-eq-some :
      {A B : Type 0} (m : Action S E A) (f : A → Action S E B) (s : S) {b : B} {t : S} {es : List E}
      → (m >>= f) s ≡ some (b, t, es)
      → (a : A) × (u : S) × (fs : List E) × (gs : List E) × (m s ≡ some (a, u, fs))
        × (f a u ≡ some (b, t, gs))
        × (es ≡ fs ++ gs)
  bind-eq-some m f s e = elim (Option-cases (m s)) [
    | inl stopped ↦ absurd (ground (arith, stopped))
    | inr ((a, u, fs), first) ↦
        let (gs, rest, both) = after-eq-some fs (f a u) (sym (bind-some m f s first) ∙ e) in
        (a, u, fs, gs, first, rest, both)
  ]

  -- A call that returns, with a result and a state for which `P` holds.
  abbrev pub Leads : {A : Type 0} → (A → S → Type 0) → Option (A × S × List E) → Type 0
  Leads {A} P o = (a : A) × (s : S) × (es : List E) × (o ≡ some (a, s, es)) × P a s

  pub bind-Leads :
      {A B : Type 0} (P : A → S → Type 0) (Q : B → S → Type 0) (m : Action S E A)
      (f : A → Action S E B) (s : S)
      → Leads P (m s)
      → ((a : A) (t : S) → P a t → Leads Q (f a t))
      → Leads Q ((m >>= f) s)
  bind-Leads P Q m f s (a, t, es, e, p) rest =
      let (b, u, fs, e', q) = rest a t p in (b, u, es ++ fs, rw (◌>>=◌, e, e') refl, q)

  -- What holds of the outcome of a call holds wherever the call is known to end.
  pub Leads-at :
      {A : Type 0} (P : A → S → Type 0) {o : Option (A × S × List E)} {b : A} {t : S} {fs : List E}
      → Leads P o
      → o ≡ some (b, t, fs)
      → P b t
  Leads-at P (a, s, es, e, p) e' = subst (λ r. P r.0 r.1) (some-injective _ _ (sym e ∙ e')) p
