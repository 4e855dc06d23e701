-- ===== src/Udt/Mux/Route/Isolation.antt =====
-- What a datagram changes (udt/multiplexer.go).
use go_udt.Common.{
  ℕ, zero, suc, false, All, List, [], ◌∷◌, none, some, Option-cases, Bool-cases, inl, inr,
  get_elem?, set, ◌≡◌, ◌≢◌, refl, sym, ap, ◌∙◌, arith,
}
use go_udt.Common.Run.{Error, ok, err}
use go_udt.Packet.Any.{Packet, handshake, socket_id, read_packet_from}
use go_udt.Udt.Address.{UdpAddr, same_addr}
use go_udt.Udt.Socket.State as Sock
use go_udt.Udt.Socket.Manage.{is_closed}
use go_udt.Udt.Socket.Manage
use go_udt.Udt.Listener.State as Listen
use go_udt.Udt.Listener.State.{AcceptState, AcceptEffect, is_handshake, pkt_out, of_socket}
use go_udt.Udt.Listener.Accept
use go_udt.Udt.Monad.{after-nil, >>-return}
use go_udt.Udt.Mux.State.{Multiplexer, MuxEffect, load, return, ◌>>◌}
use go_udt.Udt.Mux.Route.{
  Arrival, deliver, within, sock_read_packet, to_socket, route_zero, route, read_packet,
}
use go_udt.Udt.Mux.Route.Store.{deliver-store}
use go_udt.Udt.Mux.Route.Effects.{IsFor, deliver-IsFor}

set-get_elem? {ℓ} :
    {A : Type ℓ} (xs : List A) (i : ℕ) {x : A} → get_elem? xs i ≡ some x → set xs i x ≡ xs
set-get_elem? [] i e = refl
set-get_elem? (y ∷ xs) zero e = ground arith
set-get_elem? (y ∷ xs) (suc i) e = ap (◌∷◌ y) (set-get_elem? xs i e)

get_elem?-set_other {ℓ} :
    {A : Type ℓ} (xs : List A) (i j : ℕ) (v : A) → j ≢ i → get_elem? (set xs i v) j ≡ get_elem? xs j
get_elem?-set_other [] i j v h = refl
get_elem?-set_other (y ∷ xs) zero zero v h = absurd (h refl)
get_elem?-set_other (y ∷ xs) zero (suc j) v h = refl
get_elem?-set_other (y ∷ xs) (suc i) zero v h = refl
get_elem?-set_other (y ∷ xs) (suc i) (suc j) v h = get_elem?-set_other xs i j v (λ e. h (ap suc e))

-- A packet that is not from the peer.
read_packet-stranger :
    (ts now : ℕ) (p : Packet) (from : UdpAddr) (sock : Sock.UdtSocket)
    → same_addr from sock.raddr ≡ false
    → Manage.read_packet ts now p from sock ≡ some (tt, sock, [])
unfolding Manage.read_packet
read_packet-stranger ts now p from sock stranger = elim (Bool-cases (is_closed sock.sock_state)) [
  | inl over ↦ ground (arith, over)
  | inr going ↦ ground (arith, going)
]

sock_read_packet-stranger :
    (a : Arrival) (p : Packet) (at : ℕ) (s : AcceptState) {sock : Sock.UdtSocket}
    → get_elem? s.store at ≡ some sock
    → same_addr a.from sock.raddr ≡ false
    → sock_read_packet a p at s ≡ some (tt, s, [])
unfolding sock_read_packet
sock_read_packet-stranger a p at s {sock} found stranger = ground (
  arith,
  found,
  read_packet-stranger (a.ts at) a.now p a.from sock stranger,
  set-get_elem? s.store at found,
)

within-unchanged :
    (h : Listen.Handler (Unit {0})) (s : Multiplexer)
    → h s.accept ≡ some (tt, s.accept, [])
    → within h s ≡ some (tt, s, [])
unfolding within deliver
within-unchanged h s e = ground (arith, e)

read_packet-err :
    (a : Arrival) (bytes : List ℕ) (s : Multiplexer) {e : Error}
    → (read_packet_from a.spare bytes).0 ≡ err e
    → read_packet a bytes s ≡ some (tt, s, [])
unfolding read_packet
read_packet-err a bytes s bad = ground (arith, bad)

read_packet-ok :
    (a : Arrival) (bytes : List ℕ) (s : Multiplexer) {p : Packet}
    → (read_packet_from a.spare bytes).0 ≡ ok p
    → read_packet a bytes s ≡ route a p s
unfolding read_packet
read_packet-ok a bytes s good = ground (arith, good)

route_zero-other :
    (a : Arrival) (p : Packet) (s : Multiplexer)
    → is_handshake p ≡ false
    → route_zero a p s ≡ some (tt, s, [])
unfolding route_zero
route_zero-other a (handshake p) s other = absurd (cc)
route_zero-other a _ s other = refl

route-zero :
    (a : Arrival) (p : Packet) (s : Multiplexer)
    → socket_id p ≡ 0
    → is_handshake p ≡ false
    → route a p s ≡ some (tt, s, [])
unfolding route
route-zero a p s zero_id other = ground (arith, route_zero-other a p s other)

-- A packet for a socket goes to it.
route-to_socket :
    (a : Arrival) (p : Packet) (s : Multiplexer)
    → socket_id p ≢ 0
    → route a p s ≡ to_socket a p (socket_id p) s
unfolding route
route-to_socket a p s id = ground arith

to_socket-missing :
    (a : Arrival) (p : Packet) (id : ℕ) (s : Multiplexer)
    → load id s.accept.sockets ≡ none
    → to_socket a p id s ≡ some (tt, s, [])
unfolding to_socket
to_socket-missing a p id s missing = ground (arith, missing)

to_socket-found :
    (a : Arrival) (p : Packet) (id : ℕ) (s : Multiplexer) {at : ℕ}
    → load id s.accept.sockets ≡ some at
    → to_socket a p id s ≡ within (sock_read_packet a p at) s
unfolding to_socket
to_socket-found a p id s {at} known =
    ground (arith, known, after-nil (within (sock_read_packet a p at) s))

-- A datagram that is for nobody.
pub data IsStray (a : Arrival) (bytes : List ℕ) (s : Multiplexer) : Type 0 where
  unreadable : (e : Error) → (read_packet_from a.spare bytes).0 ≡ err e → IsStray a bytes s
  no_handshake :
      (p : Packet)
      → (read_packet_from a.spare bytes).0 ≡ ok p
      → socket_id p ≡ 0
      → is_handshake p ≡ false
      → IsStray a bytes s
  no_socket :
      (p : Packet)
      → (read_packet_from a.spare bytes).0 ≡ ok p
      → socket_id p ≢ 0
      → load (socket_id p) s.accept.sockets ≡ none
      → IsStray a bytes s
  no_peer :
      (p : Packet) (at : ℕ) (sock : Sock.UdtSocket)
      → (read_packet_from a.spare bytes).0 ≡ ok p
      → socket_id p ≢ 0
      → load (socket_id p) s.accept.sockets ≡ some at
      → get_elem? s.accept.store at ≡ some sock
      → same_addr a.from sock.raddr ≡ false
      → IsStray a bytes s

-- A datagram changes nothing, sends nothing and wakes nobody where it cannot be read; where it is for
-- socket 0 and no handshake; where it is for a socket that is not in the table; and where it is for one
-- whose peer has another address.
pub read_packet-stray :
    (a : Arrival) (bytes : List ℕ) (s : Multiplexer)
    → IsStray a bytes s
    → read_packet a bytes s ≡ some (tt, s, [])
read_packet-stray a bytes s (unreadable e bad) = read_packet-err a bytes s bad
read_packet-stray a bytes s (no_handshake p good zero_id other) =
    read_packet-ok a bytes s good ∙ route-zero a p s zero_id other
read_packet-stray a bytes s (no_socket p good id missing) =
    read_packet-ok a bytes s good
    ∙ route-to_socket a p s id
    ∙ to_socket-missing a p (socket_id p) s missing
read_packet-stray a bytes s (no_peer p at sock good id known found stranger) =
    read_packet-ok a bytes s good
    ∙ route-to_socket a p s id
    ∙ to_socket-found a p (socket_id p) s known
    ∙ within-unchanged (sock_read_packet a p at) s
        (sock_read_packet-stranger a p at s.accept found stranger)

within-parts :
    (h : Listen.Handler (Unit {0})) (s t : Multiplexer) {es : List MuxEffect}
    → within h s ≡ some (tt, t, es)
    → (accept : AcceptState) × (effs : List AcceptEffect) × (h s.accept ≡ some (tt, accept, effs))
      × (deliver effs (record s { accept = accept }) ≡ some (tt, t, es))
unfolding within
within-parts h s t {es} e = elim (Option-cases (h s.accept)) [
  | inl stopped ↦ absurd (ground (arith, stopped))
  | inr ((_, accept, effs), handled) ↦
      let out : (deliver effs >> return tt) (record s { accept = accept }) ≡ some (tt, t, es) =
        ground (arith, handled) in
      (accept, effs, handled, sym (>>-return (deliver effs) (record s { accept = accept })) ∙ out)
]

-- The socket at an address changes no other one, and its effects are its own.
sock_read_packet-own :
    (a : Arrival) (p : Packet) (at j : ℕ) (s t : AcceptState) (effs : List AcceptEffect)
    → j ≢ at
    → sock_read_packet a p at s ≡ some (tt, t, effs)
    → (get_elem? t.store j ≡ get_elem? s.store j)
      × (own : List Sock.Effect) × (effs ≡ Accept.sock_effects at own)
unfolding sock_read_packet
sock_read_packet-own a p at j s t effs other e = elim (Option-cases (get_elem? s.store at)) [
  | inl missing ↦ absurd (ground (arith, missing))
  | inr (sock, found) ↦ elim (Option-cases (Manage.read_packet (a.ts at) a.now p a.from sock)) [
    | inl stopped ↦ absurd (ground (arith, found, stopped))
    | inr ((_, sock', fs), handled) ↦
        let made : set s.store at sock' ≡ t.store = ground (arith, found, handled) in
        let out : effs ≡ Accept.sock_effects at fs = ground (arith, found, handled) in
        (ap (λ l. get_elem? l j) (sym made) ∙ get_elem?-set_other s.store at j sock' other, fs, out)
  ]
]

-- Where a datagram is for one socket of the table, and its handler returns, every other socket is as it
-- was, and nothing is put on the channels of another socket or handed to the listener: whatever the
-- socket does with the datagram, and whatever it calls of the multiplexer.
pub read_packet-isolated :
    (a : Arrival) (bytes : List ℕ) (s t : Multiplexer) (p : Packet) (at j : ℕ) (es : List MuxEffect)
    → (read_packet_from a.spare bytes).0 ≡ ok p
    → socket_id p ≢ 0
    → load (socket_id p) s.accept.sockets ≡ some at
    → read_packet a bytes s ≡ some (tt, t, es)
    → j ≢ at
    → (get_elem? t.accept.store j ≡ get_elem? s.accept.store j) × All (IsFor at) es
read_packet-isolated a bytes s t p at j es good id known run other =
    let handled =
      sym (to_socket-found a p (socket_id p) s known)
      ∙ sym (route-to_socket a p s id)
      ∙ sym (read_packet-ok a bytes s good)
      ∙ run in
    let (accept, effs, e, delivered) = within-parts (sock_read_packet a p at) s t handled in
    let (kept, own, out) = sock_read_packet-own a p at j s.accept accept effs other e in
    (
      ap (λ l. get_elem? l j) (deliver-store effs (record s { accept = accept }) t es delivered)
          ∙ kept,
      deliver-IsFor at own (record s { accept = accept }) t es
          (ap (λ l. deliver l (record s { accept = accept })) (sym out) ∙ delivered),
    )
