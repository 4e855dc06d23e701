-- ===== src/Udt/Mux/Listen.antt =====
-- listenUDT, Accept and Close of a listener (udt/listener.go).
--
-- The multiplexer for the address and the two random numbers are arguments. Accept reads the field
-- `accept` when it is called: a channel that a waiting call holds is a `Waiting`.
use go_udt.Common.{
  ℕ, Bool, true, false, List, [], ◌∷◌, append-nil, Option, none, some, ◌≡◌, ◌≢◌, refl, inl, inr,
  Bool-cases, if◌then◌else◌, arith,
}
use go_udt.Udt.Listener.State.{ListenConfig}
use go_udt.Udt.Mux.State.{
  Multiplexer, MuxEffect, Handler, listen_udt, unlisten_udt, is_listener, check_live, tear_down,
  return, get, put, ◌>>=◌, ◌>>◌,
}
use go_udt.Udt.Mux.Life.{IsSane, unlisten_udt-Settles}

-- A channel of sockets, with those on it
pub record AcceptChan : Type 0 where
  pub queued : List ℕ
  pub is_closed : Bool

-- The fields `accept` and `closed` of a listener, which are nil or a channel
pub record Handle : Type 0 where
  pub id : ℕ
  pub accept : Option AcceptChan
  pub closed : Option Bool

pub data Accepted : Type 0 where
  socket : ℕ → Accepted
  listener_closed : Accepted
  blocked : Accepted

-- `socket, ok := <-l.accept`: a receive from a nil channel never returns.
unfoldable pub receive : Option AcceptChan → Accepted
receive none = blocked
receive (some c) = elim c.queued [
  | at ∷ rest ↦ socket at
  | [] ↦ if c.is_closed then listener_closed else blocked
]

unfoldable pub accept : Handle → Accepted
unfolding receive
accept l = receive l.accept

unfoldable pub close_chan : AcceptChan → AcceptChan
close_chan c = record c { is_closed = true }

-- Close: the error, if there is one, the listener, and the channel that was closed
unfoldable pub close : Handle → Handler (Bool × Handle × Option AcceptChan)
unfolding close_chan unlisten_udt
close l =
    let gone = record l { accept = none; closed = none } in
    elim l.accept [
      | none ↦ return (false, gone, none)
      | some a ↦ elim l.closed [
        | none ↦ return (false, gone, none)
        | some c ↦ do unlisten_udt l.id; return (true, gone, some (close_chan a))
      ]
    ]

abbrev pub new_handle : ℕ → Handle
new_handle id = record {
  id = id;
  accept = some (record { queued = []; is_closed = false });
  closed = some false;
}

-- listenUDT, from `multiplexerFor` on; `none` stands for "Port in use"
unfoldable pub listen : ℕ → ℕ → ℕ → ListenConfig → Handler (Option Handle)
unfolding listen_udt
listen id syn_cookie syn_epoch config = do
  free ← listen_udt id
  elim free [
    | false ↦ return none
    | true ↦ do
      s ← get
      put (record s {
        accept = record s.accept {
          cookies = record { syn_epoch = syn_epoch; syn_cookie = syn_cookie };
          config = config;
          accept_hist = none;
        };
      })
      return (some (new_handle id))
  ]

receive-closed : (a : AcceptChan) → receive (some (record a { is_closed = true })) ≢ blocked
unfolding receive
receive-closed a e = ground arith

unlisten_udt-unlisted :
    (l : ℕ) (s t : Multiplexer) (b : Bool) (es : List MuxEffect)
    → unlisten_udt l s ≡ some (b, t, es)
    → is_listener t.listen_sock l ≡ false
unfolding unlisten_udt check_live tear_down
unlisten_udt-unlisted l s t b es e = elim (Bool-cases (is_listener s.listen_sock l)) [
  | inl listed ↦ ground (arith, listed)
  | inr other ↦ ground (arith, other)
]

-- Closing an open listener on a sane multiplexer returns without an error, leaves the multiplexer sane
-- and without this listener, and lets no call of Accept wait that has the channel already. But a call of Accept that comes later
-- blocks for ever, and a second Close is an error and changes nothing.
pub close_outcome :
    (l : Handle) (a : AcceptChan) (c : Bool) (s : Multiplexer)
    → IsSane s
    → l.accept ≡ some a
    → l.closed ≡ some c
    → (l' : Handle) × (t : Multiplexer) × (es : List MuxEffect) × (close l s
        ≡ some ((true, l', some (record a { is_closed = true })), t, es))
      × IsSane t
      × (is_listener t.listen_sock l.id ≡ false)
      × (receive (some (record a { is_closed = true })) ≢ blocked)
      × (accept l' ≡ blocked)
      × (close l' t ≡ some ((false, l', none), t, []))
unfolding close accept
close_outcome l a c s sane opened going =
    let (b, t, es, e, ok) = unlisten_udt-Settles s l.id sane in
    (
      record l { accept = none; closed = none },
      t,
      es,
      ground (arith, opened, going, e, append-nil es),
      ok,
      unlisten_udt-unlisted l.id s t b es e,
      receive-closed a,
      refl,
      refl,
    )
