-- ===== src/Udt/Mux/Dial/Outcome.antt =====
-- What a Dial leaves on the multiplexer (udt/udt.go).
use go_udt.Common.{
  ℕ, ◌+◌, ◌*◌, ◌-◌, ◌%◌, ◌^◌, Bool, true, false, not, List, [], ◌∷◌, ◌++◌, none, some, length,
  get_elem?, set, ◌≡◌, refl, ap, ◌∙◌, ==-refl, arith,
}
use go_udt.Packet.PktSeq.{PacketId}
use go_udt.Packet.Any.{handshake}
use go_udt.Udt.Address.{UdpAddr}
use go_udt.Udt.Socket.State as Sock
use go_udt.Udt.Socket.State.{UdtSocket, connecting, hs_request}
use go_udt.Udt.Socket.Manage
use go_udt.Udt.Socket.Handshake.{handshake_packet}
use go_udt.Udt.Listener.State.{pkt_out, of_socket}
use go_udt.Udt.Listener.Accept
use go_udt.Udt.Monad.{after, bind-some}
use go_udt.Udt.Mux.State.{Multiplexer, MuxEffect, of_accept, load, return, ◌>>◌}
use go_udt.Udt.Mux.Route.{within, deliver}
use go_udt.Udt.Mux.Dial.{new_socket, start, dial}

get_elem?-length :
    {A : Type 0} (xs : List A) (x : A) → get_elem? (xs ++ x ∷ []) (length xs) ≡ some x
get_elem?-length [] x = refl
get_elem?-length (y ∷ xs) x = get_elem?-length xs x

set-length : {A : Type 0} (xs : List A) (x y : A) → set (xs ++ x ∷ []) (length xs) y ≡ xs ++ y ∷ []
set-length [] x y = refl
set-length (z ∷ xs) x y = ap (◌∷◌ z) (set-length xs x y)

module _ (ts : ℕ) (seq : PacketId) (config : Sock.Config) (raddr : UdpAddr) (is_stream : Bool)
    (s : Multiplexer) where
  abbrev pub sid : ℕ
  sid = (s.accept.next_sid + 2 ^ 32 - 1) % 2 ^ 32

  abbrev pub made : UdtSocket
  made = Sock.new_socket s.accept.mtu seq config sid false (not is_stream) raddr

  abbrev pub dialling : UdtSocket
  dialling = record made {
    connect_wait = true;
    sock_state = connecting;
    conn_timeout = some (3 * Manage.second);
    conn_retry = some Manage.retry_period;
  }

  abbrev pub with_socket : UdtSocket → Multiplexer
  with_socket k = record s {
    accept = record s.accept {
      next_sid = sid;
      sockets = (sid, length s.accept.store) ∷ s.accept.sockets;
      store = s.accept.store ++ k ∷ [];
    };
  }

  new_socket-runs :
      new_socket seq config raddr is_stream s ≡ some (length s.accept.store, with_socket made, [])
  unfolding new_socket
  new_socket-runs = refl

  abbrev calls : List Sock.Effect
  calls =
      Sock.go_manage
      ∷ Sock.cong_pkt_sent (handshake (handshake_packet dialling 0 hs_request))
      ∷ Sock.mux_send raddr 0 ts (handshake (handshake_packet dialling 0 hs_request))
      ∷ []

  start_connect-runs : Manage.start_connect ts made ≡ some (tt, dialling, calls)
  unfolding Manage.start_connect Sock.new_socket
  start_connect-runs = refl

  start-runs :
      start (Manage.start_connect ts) (length s.accept.store) (with_socket made).accept
      ≡ some (tt, (with_socket dialling).accept, Accept.sock_effects (length s.accept.store) calls)
  unfolding start
  start-runs = ground (
    arith,
    get_elem?-length s.accept.store made,
    start_connect-runs,
    set-length s.accept.store made dialling,
  )

  abbrev pub sent : List MuxEffect
  sent =
      of_accept (of_socket (length s.accept.store) Sock.go_manage)
      ∷ of_accept (
          of_socket (length s.accept.store)
            (Sock.cong_pkt_sent (handshake (handshake_packet dialling 0 hs_request))))
      ∷ of_accept (
          pkt_out raddr (
            handshake (record (handshake_packet dialling 0 hs_request) {
              hdr = record { ts = ts; dst_sock_id = 0 };
            })))
      ∷ []

  deliver-runs :
      s.torn_down ≡ false
      → deliver (Accept.sock_effects (length s.accept.store) calls) (with_socket dialling)
        ≡ some (tt, with_socket dialling, sent)
  unfolding deliver Sock.new_socket
  deliver-runs up = ground (arith, get_elem?-length s.accept.store dialling)

  within-runs :
      s.torn_down ≡ false
      → within (start (Manage.start_connect ts) (length s.accept.store)) (with_socket made)
        ≡ some (tt, with_socket dialling, sent)
  unfolding within
  within-runs up =
      ap
        (λ o. elim o [
          | none ↦ none
          | some (u, accept, es) ↦ (deliver es >> return u) (record s { accept = accept })
        ])
        start-runs
      ∙ bind-some (deliver (Accept.sock_effects (length s.accept.store) calls)) (λ _. return tt)
          (with_socket dialling) (deliver-runs up)

  -- Dial on a multiplexer that is not torn down returns, up to the wait for the connection: the socket
  -- is in the table under a number one below the last one, and connecting; the request for a handshake
  -- is sent to its peer, once, with the time that the clock shows; and the other sockets, the listener and the rendezvous are as before.
  pub dial_outcome :
      s.torn_down ≡ false
      → (dial ts seq config raddr is_stream s
          ≡ some (length s.accept.store, with_socket dialling, sent))
        × (load sid (with_socket dialling).accept.sockets ≡ some (length s.accept.store))
        × (get_elem? (with_socket dialling).accept.store (length s.accept.store) ≡ some dialling)
  unfolding dial load
  dial_outcome up = (
    ap (after []) (
        bind-some (within (start (Manage.start_connect ts) (length s.accept.store)))
          (λ _. return (length s.accept.store)) (with_socket made) (within-runs up)),
    rw (==-refl sid) refl,
    get_elem?-length s.accept.store dialling,
  )
