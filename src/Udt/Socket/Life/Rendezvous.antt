-- ===== src/Udt/Socket/Life/Rendezvous.antt =====
-- A rendezvous: what its steps can make of a socket that knows no peer yet.
use go_udt.Common.{
  ℕ, ◌≡◌, ◌≢◌, ◌⊎◌, inl, inr, refl, ap, ◌∙◌, subst, Bool, true, false, not, ◌||◌, List, [], ◌∷◌,
  some, Bool-cases, ◌==◌, arith,
}
use go_udt.Udt.Monad.{Leads, bind-Leads, Leads-at}
use go_udt.Packet.Handshake.{HandshakePacket}
use go_udt.Packet.Any.{
  Packet, handshake, shutdown, ack, light_ack, nak, user_def, keep_alive, congestion, ack2,
  msg_drop_req, special_err, data_pkt,
}
use go_udt.Udt.Address.{UdpAddr, same_addr}
use go_udt.Udt.Socket.State.{
  SockState, rendezvous, connected, refused, timeout, UdtSocket, Effect, is_open_state, is_open,
  hs_refused, hs_rendezvous, recv_event, end_rendezvous, connect_done, cong_close,
  close_sock_shutdown, close_socket, close_sock_closed, message_in_nil, ◌>>=◌, ◌>>◌, return,
}
use go_udt.Udt.Socket.Handshake.{
  read_rendezvous, read_in_state, read_handshake, release_wait, send_handshake,
}
use go_udt.Udt.Socket.Manage.{
  ManageEvent, linger_expired, sock_shutdown, sock_closed, send_packet, shut_down, conn_timed_out,
  conn_retried, linger, start_rendezvous_connect, shutdown_socket, retry, on_manage, forward,
  read_packet,
}
use go_udt.Udt.Socket.Life.{
  Ends, Step, handshaken, received, managed, Reach, start, next, Reach-Frozen, retry-keeps,
}

-- In rendezvous with no peer, or not open.
abbrev pub Stuck : UdtSocket → Type 0
Stuck s = ((s.sock_state ≡ rendezvous) × (s.far_sock_id ≡ 0)) ⊎ (is_open s ≡ false)

abbrev StuckAfter : {A : Type 0} → A → UdtSocket → Type 0
StuckAfter a = Stuck

module _ (base : UdtSocket) where
  -- Any such socket.
  abbrev lone : UdtSocket
  lone = record base { sock_state = rendezvous; far_sock_id = 0 }

  no_peer : (req_type : ℕ) → (not (req_type == hs_rendezvous) || true) ≡ true
  no_peer req_type = ground arith

  read_handshake-Stuck :
      (ts : ℕ) (p : HandshakePacket) (from : UdpAddr)
      → Leads StuckAfter (read_handshake ts p from lone)
  unfolding read_handshake read_in_state read_rendezvous
  read_handshake-Stuck ts p from = elim (Bool-cases (same_addr from lone.raddr)) [
    | inr e ↦ (false, lone, [], rw (read_handshake, e) refl, inl (refl, refl))
    | inl e ↦ elim (Bool-cases (p.req_type == hs_refused)) [
      | inl f ↦
          (true, record lone { sock_state = refused }, [], rw (read_handshake, e, f) refl, inr refl)
      | inr f ↦
          (true, lone, [], rw (read_handshake, e, f, no_peer p.req_type) refl, inl (refl, refl))
    ]
  ]

  -- A shutdown ends it.
  shutdown_socket-Stuck :
      (state : SockState) (permit_linger : Bool)
      → is_open_state state ≡ false
      → Leads StuckAfter (shutdown_socket state permit_linger lone)
  unfolding shutdown_socket release_wait
  shutdown_socket-Stuck state true ends = elim (Bool-cases lone.connect_wait) [
    | inl w ↦ (
      tt,
      linger true (record lone { connect_wait = false; sock_state = state }),
      end_rendezvous ∷ connect_done ∷ cong_close ∷ close_sock_shutdown ∷ message_in_nil ∷ [],
      rw (shutdown_socket, w) refl,
      inr ends,
    )
    | inr w ↦ (
      tt,
      linger true (record lone { sock_state = state }),
      end_rendezvous ∷ cong_close ∷ close_sock_shutdown ∷ message_in_nil ∷ [],
      rw (shutdown_socket, w) refl,
      inr ends,
    )
  ]
  shutdown_socket-Stuck state false ends = elim (Bool-cases lone.connect_wait) [
    | inl w ↦ (
      tt,
      linger false (record lone { connect_wait = false; sock_state = state }),
      end_rendezvous
          ∷ connect_done
          ∷ cong_close
          ∷ close_socket lone.sock_id
          ∷ close_sock_closed
          ∷ message_in_nil
          ∷ [],
      rw (shutdown_socket, w) refl,
      inr ends,
    )
    | inr w ↦ (
      tt,
      linger false (record lone { sock_state = state }),
      end_rendezvous
          ∷ cong_close
          ∷ close_socket lone.sock_id
          ∷ close_sock_closed
          ∷ message_in_nil
          ∷ [],
      rw (shutdown_socket, w) refl,
      inr ends,
    )
  ]

  on_manage-Stuck : (ts : ℕ) (e : ManageEvent) → Ends e → Leads StuckAfter (on_manage ts e lone)
  unfolding on_manage
  on_manage-Stuck ts linger_expired ends = (false, lone, _, refl, inl (refl, refl))
  on_manage-Stuck ts sock_shutdown ends = (true, lone, _, refl, inl (refl, refl))
  on_manage-Stuck ts sock_closed ends = (false, lone, _, refl, inl (refl, refl))
  on_manage-Stuck ts (send_packet p) ends = (true, lone, _, refl, inl (refl, refl))
  on_manage-Stuck ts (shut_down state permit_linger) ends =
      bind-Leads StuckAfter StuckAfter (shutdown_socket state permit_linger) (λ _. return true) lone
        (shutdown_socket-Stuck state permit_linger ends) (λ a t p. (true, t, [], refl, p))
  on_manage-Stuck ts conn_timed_out ends =
      bind-Leads StuckAfter StuckAfter (shutdown_socket timeout true) (λ _. return true) lone
        (shutdown_socket-Stuck timeout true refl) (λ a t p. (true, t, [], refl, p))
  on_manage-Stuck ts conn_retried ends =
      let (r, es, e) = retry-keeps ts lone in
      bind-Leads StuckAfter StuckAfter (retry ts) (λ _. return true) lone
        (tt, record lone { conn_retry = r }, es, e, inl (refl, refl))
        (λ a t p. (true, t, [], refl, p))

  forward-Stuck :
      (ts now : ℕ) (p : Packet) (from : UdpAddr) → Leads StuckAfter (forward ts now p from lone)
  unfolding forward
  forward-Stuck ts now (handshake p) from =
      bind-Leads StuckAfter StuckAfter (read_handshake ts p from) (λ _. return tt) lone
        (read_handshake-Stuck ts p from) (λ a t q. (tt, t, [], refl, q))
  forward-Stuck ts now (shutdown p) from = (tt, lone, _, refl, inl (refl, refl))
  forward-Stuck ts now (ack p) from = (tt, lone, _, refl, inl (refl, refl))
  forward-Stuck ts now (light_ack p) from = (tt, lone, _, refl, inl (refl, refl))
  forward-Stuck ts now (nak p) from = (tt, lone, _, refl, inl (refl, refl))
  forward-Stuck ts now (user_def p) from = (tt, lone, _, refl, inl (refl, refl))
  forward-Stuck ts now (keep_alive p) from = (tt, lone, _, refl, inl (refl, refl))
  forward-Stuck ts now (congestion p) from = (tt, lone, _, refl, inl (refl, refl))
  forward-Stuck ts now (ack2 p) from = (tt, lone, _, refl, inl (refl, refl))
  forward-Stuck ts now (msg_drop_req p) from = (tt, lone, _, refl, inl (refl, refl))
  forward-Stuck ts now (special_err p) from = (tt, lone, _, refl, inl (refl, refl))
  forward-Stuck ts now (data_pkt p) from = (tt, lone, _, refl, inl (refl, refl))

  read_packet-Stuck :
      (ts now : ℕ) (p : Packet) (from : UdpAddr) → Leads StuckAfter (read_packet ts now p from lone)
  unfolding read_packet
  read_packet-Stuck ts now p from = elim (Bool-cases (same_addr from lone.raddr)) [
    | inr e ↦ (tt, lone, [], rw (read_packet, e) refl, inl (refl, refl))
    | inl e ↦
        let (a, t, es, runs, q) = forward-Stuck ts now p from in
        (tt, t, recv_event p now ∷ es, rw (read_packet, e, ◌>>◌, ◌>>=◌, runs) refl, q)
  ]

lone-eq : (s : UdtSocket) → s.sock_state ≡ rendezvous → s.far_sock_id ≡ 0 → lone s ≡ s
lone-eq s here alone = rw (here, alone) refl

Step-Stuck : {s t : UdtSocket} → Step s t → Stuck s → Stuck t
Step-Stuck {s} (handshaken ts p from b es e) (inl (here, alone)) =
    Leads-at StuckAfter
      (subst (λ u. Leads StuckAfter (read_handshake ts p from u)) (lone-eq s here alone)
        (read_handshake-Stuck s ts p from))
      e
Step-Stuck {s} (received ts now p from es e) (inl (here, alone)) =
    Leads-at StuckAfter
      (subst (λ u. Leads StuckAfter (read_packet ts now p from u)) (lone-eq s here alone)
        (read_packet-Stuck s ts now p from))
      e
Step-Stuck {s} (managed ts m b es ends e) (inl (here, alone)) =
    Leads-at StuckAfter
      (subst (λ u. Leads StuckAfter (on_manage ts m u)) (lone-eq s here alone)
        (on_manage-Stuck s ts m ends))
      e
Step-Stuck {s} st (inr h) = inr (ap is_open_state (Reach-Frozen (next start st) h).0 ∙ h)

Reach-Stuck : {s t : UdtSocket} → Reach s t → Stuck s → Stuck t
Reach-Stuck start h = h
Reach-Stuck (next r st) h = Step-Stuck st (Reach-Stuck r h)

-- A socket that startRendezvous has started is never connected, whatever packets and events come:
-- until it is closed it is in rendezvous, and knows no peer.
pub rendezvous_never_connects :
    (ts : ℕ) (s s' t : UdtSocket) (es : List Effect)
    → s.far_sock_id ≡ 0
    → start_rendezvous_connect ts s ≡ some (tt, s', es)
    → Reach s' t
    → Stuck t × (t.sock_state ≢ connected)
unfolding start_rendezvous_connect send_handshake
rendezvous_never_connects ts s s' t es alone starts r =
    let from_start : Stuck s' = Leads-at StuckAfter (tt, _, _, refl, inl (refl, alone)) starts in
    let stuck = Reach-Stuck r from_start in (stuck, λ e. not_connected stuck e)
  where
    not_connected : Stuck t → t.sock_state ≢ connected
    not_connected (inl (here, _)) e = cc
    not_connected (inr h) e = let open_state = ap is_open_state e in cc
