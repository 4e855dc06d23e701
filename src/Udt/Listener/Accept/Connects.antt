-- ===== src/Udt/Listener/Accept/Connects.antt =====
-- What the listener does for a peer whose cookie it accepts.
use go_udt.Common.{
  ℕ, ◌+◌, ◌-◌, ◌%◌, ◌^◌, ◌≡◌, refl, sym, ap, ◌∙◌, subst, true, false, List, [], ◌∷◌, ◌++◌, Option,
  none, some, length, get_elem?, ◌==◌,
}
use go_udt.Common.Run.{ok}
use go_udt.Packet.PktSeq.{PacketId}
use go_udt.Packet.Handshake.{HandshakePacket}
use go_udt.Udt.Address.{UdpAddr}
use go_udt.Udt.Heaps.AcceptSocks.{AcceptSockInfo}
use go_udt.Udt.Monad.{after-nil, after, bind-some, ◌>>=◌}
use go_udt.Udt.Socket.State
use go_udt.Udt.Socket.State.{connected, UdtSocket, Config, hs_request, type_dgram}
use go_udt.Udt.Listener.SynCookie.{check_syn_cookie}
use go_udt.Udt.Listener.Accept.{
  sock_effects, sock_read_handshake, replayed, may_accept, add_accepted, valid_for, finish, agree,
  set_up, accept_new, accept_first, accept_if, resume, accept_handshake, check_cookie,
  read_handshake,
}
use go_udt.Udt.Listener.State.{AcceptState, AcceptEffect, accepted, new_mux_socket}
use go_udt.Udt.Listener.Accept.Fresh.{
  get_elem?-append_one, set-append_one, fresh, agreed, fresh-valid, fresh-agrees,
}

module _ (seq : PacketId) (p : HandshakePacket) (from : UdpAddr) (s : AcceptState) where
  abbrev next_number : ℕ
  next_number = (s.next_sid + 2 ^ 32 - 1) % 2 ^ 32

  -- The listener and its multiplexer, with the new socket as `sock` and the history `h`.
  abbrev with_new : Option (List AcceptSockInfo) → UdtSocket → AcceptState
  with_new h sock = record s {
    accept_hist = h;
    next_sid = next_number;
    sockets = (next_number, length s.store) ∷ s.sockets;
    store = s.store ++ sock ∷ [];
  }

  abbrev its_fresh : UdtSocket
  its_fresh = fresh s.mtu seq s.config.sock next_number p from

  abbrev its_agreed : UdtSocket
  its_agreed = agreed s.mtu seq s.config.sock next_number p from

  new_mux_socket-runs :
      new_mux_socket seq from true (p.sock_type == type_dgram) s
      ≡ some (length s.store, with_new s.accept_hist its_fresh, [])
  unfolding new_mux_socket
  new_mux_socket-runs = refl

  add_accepted-runs :
      (now at : ℕ)
      → (h : Option (List AcceptSockInfo)) × (add_accepted now p at
            (with_new s.accept_hist its_fresh)
          ≡ some (tt, with_new h its_fresh, []))
  unfolding add_accepted
  add_accepted-runs now at = (_, refl)

  valid_for-runs :
      (h : Option (List AcceptSockInfo))
      → valid_for (length s.store) p (with_new h its_fresh) ≡ some (true, with_new h its_fresh, [])
  unfolding valid_for
  valid_for-runs h =
      rw
        (
          valid_for,
          get_elem?-append_one s.store its_fresh,
          fresh-valid s.mtu seq s.config.sock next_number p from,
        )
        refl

  sock_read_handshake-runs :
      (ts : ℕ) (h : Option (List AcceptSockInfo))
      → (es : List State.Effect) × (sock_read_handshake
            (length s.store)
            ts
            p
            from
            (with_new h its_fresh)
          ≡ some (true, with_new h its_agreed, sock_effects (length s.store) es))
  unfolding sock_read_handshake
  sock_read_handshake-runs ts h =
      let (es, runs) = fresh-agrees s.mtu seq s.config.sock next_number p from ts in
      (
        es,
        rw
            (
              sock_read_handshake,
              get_elem?-append_one s.store its_fresh,
              runs,
              set-append_one s.store its_fresh its_agreed,
            )
            refl,
      )

  finish-runs :
      (h : Option (List AcceptSockInfo))
      → finish p from (length s.store) true (with_new h its_agreed)
        ≡ some (true, with_new h its_agreed, accepted (length s.store) ∷ [])
  unfolding finish
  finish-runs h = refl

  agree-runs :
      (ts : ℕ → ℕ) (h : Option (List AcceptSockInfo))
      → (es : List State.Effect) × (agree ts p from (length s.store) true (with_new h its_fresh)
          ≡ some (
            true,
            with_new h its_agreed,
            sock_effects (length s.store) es ++ accepted (length s.store) ∷ [],
          ))
  unfolding agree
  agree-runs ts h =
      let (es, runs) = sock_read_handshake-runs (ts (length s.store)) h in
      (
        es,
        bind-some (sock_read_handshake (length s.store) (ts (length s.store)) p from)
              (finish p from (length s.store)) (with_new h its_fresh) runs
            ∙ ap (after (sock_effects (length s.store) es)) (finish-runs h),
      )

  set_up-runs :
      (ts : ℕ → ℕ) (now : ℕ)
      → (h : Option (List AcceptSockInfo)) × (es : List State.Effect) × (set_up ts now p from
            (length s.store)
            (with_new s.accept_hist its_fresh)
          ≡ some (
            true,
            with_new h its_agreed,
            sock_effects (length s.store) es ++ accepted (length s.store) ∷ [],
          ))
  unfolding set_up
  set_up-runs ts now =
      let at = length s.store in
      let (h, added) = add_accepted-runs now at in
      let (es, runs) = agree-runs ts h in
      (
        h,
        es,
        bind-some (add_accepted now p at) (λ _. valid_for at p >>= agree ts p from at)
              (with_new s.accept_hist its_fresh) added
            ∙ ap (after []) (
                bind-some (valid_for at p) (agree ts p from at) (with_new h its_fresh)
                  (valid_for-runs h)
                ∙ ap (after []) runs),
      )

  accept_new-runs :
      (ts : ℕ → ℕ) (now : ℕ)
      → (h : Option (List AcceptSockInfo)) × (es : List State.Effect) × (accept_new seq ts now p
            from s
          ≡ some (
            true,
            with_new h its_agreed,
            sock_effects (length s.store) es ++ accepted (length s.store) ∷ [],
          ))
  unfolding accept_new
  accept_new-runs ts now =
      let (h, es, runs) = set_up-runs ts now in
      (
        h,
        es,
        bind-some (new_mux_socket seq from true (p.sock_type == type_dgram)) (set_up ts now p from)
              s new_mux_socket-runs
            ∙ ap (after []) runs,
      )

  accept_first-runs :
      (ts : ℕ → ℕ) (now : ℕ)
      → may_accept s.config p from ≡ true
      → accept_first seq ts now p from s ≡ accept_new seq ts now p from s
  unfolding accept_first accept_if
  accept_first-runs ts now may =
      subst (λ b. after [] (accept_if seq ts now p from b s) ≡ accept_new seq ts now p from s)
        (sym may) (after-nil _)

  replayed-none : (now : ℕ) → s.accept_hist ≡ none → replayed now p s ≡ some (none, s, [])
  unfolding replayed
  replayed-none now none_yet = rw (replayed, none_yet) refl

  accept_handshake-runs :
      (ts : ℕ → ℕ) (now : ℕ)
      → s.accept_hist ≡ none
      → accept_handshake seq ts now p from s ≡ accept_first seq ts now p from s
  unfolding accept_handshake resume
  accept_handshake-runs ts now none_yet =
      bind-some (replayed now p) (resume seq ts now p from) s (replayed-none now none_yet)
      ∙ after-nil _

-- A listener that has accepted no connection so far answers a handshake that is no request, whose
-- cookie it accepts, and that its configuration admits, with a new socket: the handler returns, and
-- hands the socket over, last; the multiplexer lists it under its number, it is connected, to the
-- address that the handshake came from and to the peer's number, and has the peer's first sequence
-- number.
pub read_handshake-connects :
    (sum : List ℕ → List ℕ) (seq : PacketId) (ts : ℕ → ℕ) (now cookie : ℕ) (p : HandshakePacket)
    (from : UdpAddr) (s : AcceptState)
    → (p.req_type == hs_request) ≡ false
    → check_syn_cookie sum p.syn_cookie s.cookies from ≡ ok (true, cookie)
    → s.accept_hist ≡ none
    → may_accept s.config p from ≡ true
    → (t : AcceptState) × (sock : UdtSocket) × (es : List AcceptEffect) × (read_handshake sum seq ts
          now p from s
        ≡ some (true, t, es ++ accepted (length s.store) ∷ []))
      × (get_elem? t.store (length s.store) ≡ some sock)
      × (t.sockets ≡ (sock.sock_id, length s.store) ∷ s.sockets)
      × (sock.sock_state ≡ connected)
      × (sock.raddr ≡ from)
      × (sock.far_sock_id ≡ p.sock_id)
      × (sock.init_pkt_seq ≡ p.init_pkt_seq)
unfolding read_handshake check_cookie State.new_socket
read_handshake-connects sum seq ts now cookie p from s no_request checked none_yet may =
    let (h, es, runs) = accept_new-runs seq p from s ts now in
    (
      with_new seq p from s h (its_agreed seq p from s),
      its_agreed seq p from s,
      sock_effects (length s.store) es,
      rw (read_handshake, no_request, checked)
          (ap (λ o. after [] (after [] o))
            (accept_handshake-runs seq p from s ts now none_yet
              ∙ accept_first-runs seq p from s ts now may
              ∙ runs)),
      get_elem?-append_one s.store (its_agreed seq p from s),
      refl,
      refl,
      refl,
      refl,
      refl,
    )
