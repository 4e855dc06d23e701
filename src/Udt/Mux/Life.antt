-- ===== src/Udt/Mux/Life.antt =====
-- The end of a multiplexer: closeSocket, unlistenUDT and checkLive (udt/multiplexer.go).
use go_udt.Common.{
  ℕ, Bool, true, false, not, ◌&&◌, ◌||◌, List, [], ◌∷◌, append-nil, Option, none, some,
  Option-cases, Bool-cases, inl, inr, ◌≡◌, refl, sym, ◌∙◌, subst, arith,
}
use mathlib.Core.Option.{some-injective}
use go_udt.Packet.PktSeq.{PacketId}
use go_udt.Udt.Address.{UdpAddr}
use go_udt.Udt.Listener.State.{AcceptState, new_mux_socket}
use go_udt.Udt.Listener.State as Listen
use go_udt.Udt.Mux.State.{
  Multiplexer, MuxEffect, close_conn, close_pkt_out, is_live, load, load_addr, delete, check_live,
  is_empty, is_some, listen_udt, unlisten_udt, is_listener, close_socket, start_rendezvous,
  end_rendezvous,
}

-- A multiplexer without the socket `id`, and one that is torn down.
abbrev pub without : ℕ → Multiplexer → Multiplexer
without id s = record s { accept = record s.accept { sockets = delete id s.accept.sockets } }

abbrev pub torn : Multiplexer → Multiplexer
torn s = record s { registered = false; torn_down = true }

abbrev pub torn_effects : List MuxEffect
torn_effects = close_conn ∷ close_pkt_out ∷ []

-- What checkLive does.
check_live-live : (s : Multiplexer) → is_live s ≡ true → check_live s ≡ some (true, s, [])
unfolding check_live
check_live-live s live = ground (arith, live)

check_live-last :
    (s : Multiplexer)
    → is_live s ≡ false
    → s.torn_down ≡ false
    → check_live s ≡ some (false, torn s, torn_effects)
unfolding check_live
check_live-last s dead up = ground (arith, dead)

check_live-again : (s : Multiplexer) → is_live s ≡ false → s.torn_down ≡ true → check_live s ≡ none
unfolding check_live
check_live-again s dead down = ground (arith, dead)

-- closeSocket of a number that is not in the table returns false and changes nothing. Otherwise the
-- number is taken out and the call returns true: with nothing else when a listener, a socket in
-- rendezvous or another socket is left; and closing the connection and the channel when none is, which
-- panics where they have been closed before.
pub close_socket_outcome :
    (id : ℕ) (s : Multiplexer)
    → (load id s.accept.sockets ≡ none → close_socket id s ≡ some (false, s, []))
      × ((at : ℕ)
          → load id s.accept.sockets ≡ some at
          → (is_live (without id s) ≡ true → close_socket id s ≡ some (true, without id s, []))
            × (is_live (without id s) ≡ false
                → s.torn_down ≡ false
                → close_socket id s ≡ some (true, torn (without id s), torn_effects))
            × (is_live (without id s) ≡ false → s.torn_down ≡ true → close_socket id s ≡ none))
unfolding close_socket
close_socket_outcome id s = (
  λ missing. ground (arith, missing),
  λ at here. (
    λ live. ground (arith, here, check_live-live (without id s) live),
    λ dead up. ground (arith, here, check_live-last (without id s) dead up),
    λ dead down. ground (arith, here, check_live-again (without id s) dead down),
  ),
)

-- Not torn down while something is live, and then in the map of all multiplexers.
pub record IsSane (s : Multiplexer) : Type 0 where
  pub over : s.torn_down ≡ true → is_live s ≡ false
  pub known : s.torn_down ≡ false → s.registered ≡ true

-- What a program does with a multiplexer: sockets are made, and put into rendezvous, while it is not
-- torn down, and a call is a step where it returns.
pub data Step : Multiplexer → Multiplexer → Type 0 where
  opens :
      (s : Multiplexer) (seq : PacketId) (peer : UdpAddr) (is_server is_datagram : Bool) (at : ℕ)
      (accept : AcceptState) (es : List Listen.AcceptEffect)
      → s.torn_down ≡ false
      → new_mux_socket seq peer is_server is_datagram s.accept ≡ some (at, accept, es)
      → Step s (record s { accept = accept })
  listens :
      (s t : Multiplexer) (l : ℕ) (b : Bool) (es : List MuxEffect)
      → s.torn_down ≡ false
      → listen_udt l s ≡ some (b, t, es)
      → Step s t
  unlistens :
      (s t : Multiplexer) (l : ℕ) (b : Bool) (es : List MuxEffect)
      → unlisten_udt l s ≡ some (b, t, es)
      → Step s t
  closes :
      (s t : Multiplexer) (id : ℕ) (b : Bool) (es : List MuxEffect)
      → close_socket id s ≡ some (b, t, es)
      → Step s t
  meets :
      (s t : Multiplexer) (peer : UdpAddr) (at : ℕ) (es : List MuxEffect)
      → s.torn_down ≡ false
      → start_rendezvous peer at s ≡ some (tt, t, es)
      → Step s t
  parts :
      (s t : Multiplexer) (peer : UdpAddr) (at : ℕ) (es : List MuxEffect)
      → end_rendezvous peer at s ≡ some (tt, t, es)
      → Step s t

pub data Reach (s : Multiplexer) : Multiplexer → Type 0 where
  here : Reach s s
  next : {t u : Multiplexer} → Reach s t → Step t u → Reach s u

live-load :
    (id : ℕ) {at : ℕ} (s : Multiplexer) → load id s.accept.sockets ≡ some at → is_live s ≡ true
unfolding load is_live
live-load id {at} s found = nonempty s.accept.sockets found
  where
    nonempty :
        (xs : List (ℕ × ℕ))
        → load id xs ≡ some at
        → (is_some s.listen_sock || not (is_empty s.rv_sockets && is_empty xs)) ≡ true
    nonempty [] e = cc
    nonempty (x ∷ xs) e = ground arith

up-live : (s : Multiplexer) → IsSane s → is_live s ≡ true → s.torn_down ≡ false
up-live s sane live = elim (Bool-cases s.torn_down) [
  | inl down ↦ absurd (cc (sane.over down))
  | inr up ↦ up
]

-- A call that returns, and leaves a sane multiplexer.
abbrev pub Settles : {A : Type 0} → Option (A × Multiplexer × List MuxEffect) → Type 0
Settles {A} o =
    (a : A) × (t : Multiplexer) × (es : List MuxEffect) × (o ≡ some (a, t, es)) × IsSane t

check_live-Settles :
    (s : Multiplexer) → s.torn_down ≡ false → s.registered ≡ true → Settles (check_live s)
check_live-Settles s up known = elim (Bool-cases (is_live s)) [
  | inl live ↦
      (true, s, [], check_live-live s live, record { over = λ down. cc; known = λ _. known })
  | inr dead ↦ (
    false,
    torn s,
    torn_effects,
    check_live-last s dead up,
    record { over = λ _. unfold is_live in dead; known = λ up'. cc },
  )
]

close_socket-Settles : (s : Multiplexer) (id : ℕ) → IsSane s → Settles (close_socket id s)
unfolding close_socket
close_socket-Settles s id sane = elim (Option-cases (load id s.accept.sockets)) [
  | inl missing ↦ (false, s, [], ground (arith, missing), sane)
  | inr (at, found) ↦
      let up = up-live s sane (live-load id s found) in
      let (b, t, es, e, ok) = check_live-Settles (without id s) up (sane.known up) in
      (true, t, es, ground (arith, found, e, append-nil es), ok)
]

live-listener : (s : Multiplexer) (l : ℕ) → is_listener s.listen_sock l ≡ true → is_live s ≡ true
unfolding is_live
live-listener s l ours = ground arith

pub unlisten_udt-Settles : (s : Multiplexer) (l : ℕ) → IsSane s → Settles (unlisten_udt l s)
unfolding unlisten_udt
unlisten_udt-Settles s l sane = elim (Bool-cases (is_listener s.listen_sock l)) [
  | inr other ↦ (false, s, [], ground (arith, other), sane)
  | inl ours ↦
      let up = up-live s sane (live-listener s l ours) in
      let (b, t, es, e, ok) =
        check_live-Settles (record s { listen_sock = none }) up (sane.known up) in
      (true, t, es, ground (arith, ours, e, append-nil es), ok)
]

-- What keeps the fields `torn_down` and `registered` of a multiplexer that is not torn down.
same-IsSane :
    (s t : Multiplexer)
    → IsSane s
    → s.torn_down ≡ false
    → t.torn_down ≡ s.torn_down
    → t.registered ≡ s.registered
    → IsSane t
same-IsSane s t sane up same_torn same_registered = record {
  over = λ down. cc;
  known = λ _. same_registered ∙ sane.known up;
}

Settles-at :
    {A : Type 0} {o : Option (A × Multiplexer × List MuxEffect)} {a : A} {t : Multiplexer}
    {es : List MuxEffect}
    → Settles o
    → o ≡ some (a, t, es)
    → IsSane t
Settles-at (a, t, es, e, sane) e' = subst (λ r. IsSane r.1) (some-injective _ _ (sym e ∙ e')) sane

live-meeting :
    (s : Multiplexer) (peer : UdpAddr) (at : ℕ)
    → is_listener (load_addr peer s.rv_sockets) at ≡ true
    → is_live s ≡ true
unfolding load_addr is_live
live-meeting s peer at ours = nonempty s.rv_sockets ours
  where
    nonempty :
        (xs : List (UdpAddr × ℕ))
        → is_listener (load_addr peer xs) at ≡ true
        → (is_some s.listen_sock || not (is_empty xs && is_empty s.accept.sockets)) ≡ true
    nonempty [] e = cc
    nonempty (x ∷ xs) e = ground arith

end_rendezvous-IsSane :
    (s t : Multiplexer) (peer : UdpAddr) (at : ℕ) (es : List MuxEffect)
    → end_rendezvous peer at s ≡ some (tt, t, es)
    → IsSane s
    → IsSane t
unfolding end_rendezvous
end_rendezvous-IsSane s t peer at es e sane =
    elim (Bool-cases (is_listener (load_addr peer s.rv_sockets) at)) [
      | inl ours ↦
          let up = up-live s sane (live-meeting s peer at ours) in
          same-IsSane s t sane up (ground (arith, ours)) (ground (arith, ours))
      | inr other ↦ let same : s ≡ t = ground (arith, other) in subst IsSane same sane
    ]

Step-IsSane : {s t : Multiplexer} → Step s t → IsSane s → IsSane t
unfolding listen_udt start_rendezvous
Step-IsSane (opens s seq peer server datagram at accept es up e) sane =
    same-IsSane s _ sane up refl refl
Step-IsSane (listens s t l b es up e) sane = same-IsSane s t sane up (ground arith) (ground arith)
Step-IsSane (unlistens s t l b es e) sane = Settles-at (unlisten_udt-Settles s l sane) e
Step-IsSane (closes s t id b es e) sane = Settles-at (close_socket-Settles s id sane) e
Step-IsSane (meets s t peer at es up e) sane = same-IsSane s t sane up (ground arith) (ground arith)
Step-IsSane (parts s t peer at es e) sane = end_rendezvous-IsSane s t peer at es e sane

Reach-IsSane : {s t : Multiplexer} → Reach s t → IsSane s → IsSane t
Reach-IsSane here sane = sane
Reach-IsSane (next run step) sane = Step-IsSane step (Reach-IsSane run sane)

-- As long as no socket is made, and no listener or rendezvous started, on a multiplexer that has been
-- torn down, it is torn down only when nothing is live and taken out of the map only then; and every
-- closeSocket and unlistenUDT, also of what is closed already, returns: the channel is never closed
-- twice.
pub Reach-Settles :
    {s t : Multiplexer} (id l : ℕ)
    → Reach s t
    → IsSane s
    → IsSane t × Settles (close_socket id t) × Settles (unlisten_udt l t)
Reach-Settles {s} {t} id l run sane =
    let ok = Reach-IsSane run sane in
    (ok, close_socket-Settles t id ok, unlisten_udt-Settles t l ok)
