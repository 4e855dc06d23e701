-- ===== src/Udt/Socket/Life.antt =====
-- What can become of a socket: the steps that its goroutine and the multiplexer make with it.
pub mod Rendezvous
use go_udt.Common.{
  ℕ, ◌≡◌, ◌≢◌, ◌⊎◌, inl, inr, refl, sym, ap, ◌∙◌, Bool, true, false, List, [], ◌∷◌, Option, none,
  some, Bool-cases, ◌==◌, arith,
}
use mathlib.Core.Option.{some-injective}
use go_udt.Packet.Handshake.{HandshakePacket}
use go_udt.Packet.Any.{
  Packet, handshake, shutdown, ack, light_ack, nak, user_def, keep_alive, congestion, ack2,
  msg_drop_req, special_err, data_pkt,
}
use go_udt.Udt.Address.{UdpAddr, same_addr, same_addr_refl}
use go_udt.Udt.Socket.State.{
  SockState, init, rendezvous, connecting, connected, closed, refused, corrupted, timeout,
  UdtSocket, Effect, is_open_state, is_open, hs_refused, recv_event, ◌>>=◌, ◌>>◌, return, get, put,
  emit,
}
use go_udt.Udt.Socket.Handshake.{read_connecting, read_in_state, read_handshake}
use go_udt.Udt.Socket.Manage.{
  ManageEvent, linger_expired, sock_shutdown, sock_closed, send_packet, shut_down, conn_timed_out,
  conn_retried, shutdown_socket, retry_in, retry, on_manage, forward, is_closed, read_packet,
}

-- The shutdown messages of the program name one of the states in which the socket is not open.
abbrev pub Ends : ManageEvent → Type 0
Ends (shut_down state permit_linger) = is_open_state state ≡ false
Ends _ = Unit

-- A step of a started socket: a handshake or another packet that the multiplexer hands over, or an
-- event of goManageConnection.
pub data Step (s t : UdtSocket) : Type 0 where
  handshaken :
      (ts : ℕ) (p : HandshakePacket) (from : UdpAddr) (b : Bool) (es : List Effect)
      → read_handshake ts p from s ≡ some (b, t, es)
      → Step s t
  received :
      (ts now : ℕ) (p : Packet) (from : UdpAddr) (es : List Effect)
      → read_packet ts now p from s ≡ some (tt, t, es)
      → Step s t
  managed :
      (ts : ℕ) (e : ManageEvent) (b : Bool) (es : List Effect)
      → Ends e
      → on_manage ts e s ≡ some (b, t, es)
      → Step s t

pub data Reach (s : UdtSocket) : UdtSocket → Type 0 where
  start : Reach s s
  next : {t u : UdtSocket} → Reach s t → Step t u → Reach s u

-- The state in which a call that returns leaves the socket.
pub left_in :
    {A : Type 0} {a b : A} {s t : UdtSocket} {es fs : List Effect}
    {o : Option (A × UdtSocket × List Effect)}
    → o ≡ some (a, s, es)
    → o ≡ some (b, t, fs)
    → t ≡ s
left_in e e' = ap (λ r. r.1) (some-injective _ _ (sym e' ∙ e))

-- A socket that is not open: its state and the caller that waits for it stay as they are.
abbrev pub Frozen : UdtSocket → UdtSocket → Type 0
Frozen s t = (t.sock_state ≡ s.sock_state) × (t.connect_wait ≡ s.connect_wait)

read_in_state-closed :
    (x : SockState) (ts : ℕ) (p : HandshakePacket) (from : UdpAddr) (s : UdtSocket)
    → is_open_state x ≡ false
    → read_in_state x ts p from s ≡ some (false, s, [])
unfolding read_in_state
read_in_state-closed init ts p from s h = cc
read_in_state-closed rendezvous ts p from s h = cc
read_in_state-closed connecting ts p from s h = cc
read_in_state-closed connected ts p from s h = cc
read_in_state-closed closed ts p from s h = refl
read_in_state-closed refused ts p from s h = refl
read_in_state-closed corrupted ts p from s h = refl
read_in_state-closed timeout ts p from s h = refl

read_handshake-closed :
    (ts : ℕ) (p : HandshakePacket) (from : UdpAddr) (s : UdtSocket)
    → is_open s ≡ false
    → read_handshake ts p from s ≡ some (false, s, [])
unfolding read_handshake
read_handshake-closed ts p from s h = elim (Bool-cases (same_addr from s.raddr)) [
  | inl e ↦ rw (read_handshake, e, read_in_state-closed s.sock_state ts p from s h) refl
  | inr e ↦ rw (read_handshake, e) refl
]

shutdown_socket-closed :
    (state : SockState) (permit_linger : Bool) (s : UdtSocket)
    → is_open s ≡ false
    → shutdown_socket state permit_linger s ≡ some (tt, s, [])
unfolding shutdown_socket
shutdown_socket-closed state permit_linger s h = rw (shutdown_socket, h) refl

-- The resending of a handshake changes at most the timer for the next one.
retry_in-keeps :
    (x : SockState) (ts : ℕ) (s : UdtSocket)
    → (r : Option ℕ) × (es : List Effect) × (retry_in x ts s
        ≡ some (tt, record s { conn_retry = r }, es))
unfolding retry_in
retry_in-keeps init ts s = (_, _, refl)
retry_in-keeps rendezvous ts s = (_, _, refl)
retry_in-keeps connecting ts s = (_, _, refl)
retry_in-keeps connected ts s = (_, _, refl)
retry_in-keeps closed ts s = (_, _, refl)
retry_in-keeps refused ts s = (_, _, refl)
retry_in-keeps corrupted ts s = (_, _, refl)
retry_in-keeps timeout ts s = (_, _, refl)

pub retry-keeps :
    (ts : ℕ) (s : UdtSocket)
    → (r : Option ℕ) × (es : List Effect) × (retry ts s
        ≡ some (tt, record s { conn_retry = r }, es))
unfolding retry
retry-keeps ts s =
    let (r, es, e) = retry_in-keeps s.sock_state ts (record s { conn_retry = none }) in
    (r, es, rw (retry, ◌>>=◌, e) refl)

frozen : {s t : UdtSocket} → t ≡ s → Frozen s t
frozen e = (ap (λ u. u.sock_state) e, ap (λ u. u.connect_wait) e)

on_manage-Frozen :
    (ts : ℕ) (e : ManageEvent) (s t : UdtSocket) (b : Bool) (es : List Effect)
    → is_open s ≡ false
    → on_manage ts e s ≡ some (b, t, es)
    → Frozen s t
unfolding on_manage
on_manage-Frozen ts linger_expired s t b es h e = frozen (left_in refl e)
on_manage-Frozen ts sock_shutdown s t b es h e = frozen (left_in refl e)
on_manage-Frozen ts sock_closed s t b es h e = frozen (left_in refl e)
on_manage-Frozen ts (send_packet p) s t b es h e = frozen (left_in refl e)
on_manage-Frozen ts (shut_down state permit_linger) s t b es h e = frozen (
    left_in refl (rw (on_manage, ◌>>◌, ◌>>=◌, shutdown_socket-closed state permit_linger s h) at e))
on_manage-Frozen ts conn_timed_out s t b es h e =
    frozen
      (left_in refl (rw (on_manage, ◌>>◌, ◌>>=◌, shutdown_socket-closed timeout true s h) at e))
on_manage-Frozen ts conn_retried s t b es h e =
    let (r, fs, e') = retry-keeps ts s in
    let same = left_in refl (rw (on_manage, ◌>>◌, ◌>>=◌, e') at e) in
    (ap (λ u. u.sock_state) same, ap (λ u. u.connect_wait) same)

forward-Frozen :
    (ts now : ℕ) (p : Packet) (from : UdpAddr) (s : UdtSocket)
    → is_open s ≡ false
    → (es : List Effect) × (forward ts now p from s ≡ some (tt, s, es))
unfolding forward
forward-Frozen ts now (handshake p) from s h =
    ([], rw (forward, ◌>>◌, ◌>>=◌, read_handshake-closed ts p from s h) refl)
forward-Frozen ts now (shutdown p) from s h = (_, refl)
forward-Frozen ts now (ack p) from s h = (_, refl)
forward-Frozen ts now (light_ack p) from s h = (_, refl)
forward-Frozen ts now (nak p) from s h = (_, refl)
forward-Frozen ts now (user_def p) from s h = (_, refl)
forward-Frozen ts now (keep_alive p) from s h = (_, refl)
forward-Frozen ts now (congestion p) from s h = (_, refl)
forward-Frozen ts now (ack2 p) from s h = (_, refl)
forward-Frozen ts now (msg_drop_req p) from s h = (_, refl)
forward-Frozen ts now (special_err p) from s h = (_, refl)
forward-Frozen ts now (data_pkt p) from s h = (_, refl)

read_packet-Frozen :
    (ts now : ℕ) (p : Packet) (from : UdpAddr) (s : UdtSocket)
    → is_open s ≡ false
    → (es : List Effect) × (read_packet ts now p from s ≡ some (tt, s, es))
unfolding read_packet
read_packet-Frozen ts now p from s h = elim (Bool-cases (is_closed s.sock_state)) [
  | inl c ↦ ([], rw (read_packet, c) refl)
  | inr c ↦ elim (Bool-cases (same_addr from s.raddr)) [
    | inr e ↦ ([], rw (read_packet, c, e) refl)
    | inl e ↦
        let (es, runs) = forward-Frozen ts now p from s h in
        (recv_event p now ∷ es, rw (read_packet, c, e, ◌>>◌, ◌>>=◌, runs) refl)
  ]
]

Step-Frozen : {s t : UdtSocket} → Step s t → is_open s ≡ false → Frozen s t
Step-Frozen {s} (handshaken ts p from b es e) h =
    frozen (left_in (read_handshake-closed ts p from s h) e)
Step-Frozen {s} (received ts now p from es e) h =
    frozen (left_in (read_packet-Frozen ts now p from s h).1 e)
Step-Frozen {s} {t} (managed ts m b es ends e) h = on_manage-Frozen ts m s t b es h e

-- Once a socket is not open, no step opens it again, gives it another state, or releases a caller
-- that still waits for its connection.
pub Reach-Frozen : {s t : UdtSocket} → Reach s t → is_open s ≡ false → Frozen s t
Reach-Frozen start h = (refl, refl)
Reach-Frozen (next r st) h =
    let (state, wait) = Reach-Frozen r h in
    let (state', wait') = Step-Frozen st (ap is_open_state state ∙ h) in
    (state' ∙ state, wait' ∙ wait)

-- A connecting socket that its peer refuses never releases the caller of Dial: in whatever state
-- the steps behind the refusal leave the socket, it is refused, and the caller waits.
pub refused_waits_forever :
    (ts : ℕ) (p : HandshakePacket) (s t : UdtSocket)
    → s.sock_state ≡ connecting
    → s.connect_wait ≡ true
    → p.req_type ≡ hs_refused
    → Reach (record s { sock_state = refused }) t
    → (read_handshake ts p s.raddr s ≡ some (true, record s { sock_state = refused }, []))
      × (t.sock_state ≡ refused)
      × (t.connect_wait ≡ true)
unfolding read_handshake read_in_state read_connecting
refused_waits_forever ts p s t connecting_now waits refusal r =
    let (state, wait) = Reach-Frozen r refl in
    (rw (read_handshake, same_addr_refl s.raddr, connecting_now, refusal) refl, state, wait ∙ waits)
