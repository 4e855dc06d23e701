-- ===== src/Udt/Mux/Route.antt =====
-- readPacket of the multiplexer, and what the listener and the sockets call of it in turn
-- (udt/multiplexer.go).
--
-- What comes with a packet is an `Arrival`: the address, the clock, the random number for a new
-- socket, and the time since a socket was created. The rendezvous sockets are tried in the order of
-- the list, where the code leaves the order open.
pub mod Store
pub mod Effects
pub mod Isolation
use go_udt.Common.{
  ℕ, Bool, true, false, List, [], ◌∷◌, Option, none, some, get_elem?, set, ◌==◌, if◌then◌else◌,
}
use go_udt.Common.Run.{ok, err, panic}
use go_udt.Packet.PktSeq.{PacketId}
use go_udt.Packet.Handshake.{HandshakePacket}
use go_udt.Packet.Any.{Packet, handshake, socket_id, read_packet_from}
use go_udt.Udt.Address.{UdpAddr}
use go_udt.Udt.Socket.State as Sock
use go_udt.Udt.Socket.Manage
use go_udt.Udt.Listener.State as Listen
use go_udt.Udt.Listener.State.{AcceptState, AcceptEffect, pkt_out, of_socket}
use go_udt.Udt.Listener.Accept
use go_udt.Udt.Mux.State.{
  Multiplexer, MuxEffect, of_accept, Handler, load, start_rendezvous, end_rendezvous, close_socket,
  send_out, send_packet, return, get, put, emit, stop, ◌>>=◌, ◌>>◌,
}

pub record Arrival : Type 0 where
  pub spare : List ℕ
  pub from : UdpAddr
  pub now : ℕ
  pub seq : PacketId
  pub ts : ℕ → ℕ
  pub sum : List ℕ → List ℕ

-- A call of the multiplexer by the socket at `at`, whose peer is `peer`
unfoldable pub call : UdpAddr → ℕ → Sock.Effect → Handler (Unit {0})
unfolding send_packet start_rendezvous end_rendezvous close_socket
call peer at (Sock.mux_send dest id ts p) = send_packet dest id ts p
call peer at Sock.start_rendezvous = start_rendezvous peer at
call peer at Sock.end_rendezvous = end_rendezvous peer at
call peer at (Sock.close_socket id) = do close_socket id; return tt
call peer at e = emit (of_accept (of_socket at e))

-- `s.raddr` of the socket at `at`
unfoldable pub peer_of : ℕ → Handler UdpAddr
peer_of at = do
  s ← get
  elim (get_elem? s.accept.store at) [ none ↦ stop | some sock ↦ return sock.raddr ]

unfoldable pub deliver_one : AcceptEffect → Handler (Unit {0})
unfolding call peer_of send_out
deliver_one (pkt_out dest p) = send_out dest p
deliver_one (of_socket at e) = do peer ← peer_of at; call peer at e
deliver_one e = emit (of_accept e)

unfoldable pub deliver : List AcceptEffect → Handler (Unit {0})
unfolding deliver_one
deliver [] = return tt
deliver (e ∷ es) = deliver_one e >> deliver es

-- A handler of the listener or of a socket, with its calls of the multiplexer
unfoldable pub within : {A : Type 0} → Listen.Handler A → Handler A
unfolding deliver
within h s = elim (h s.accept) [
  | none ↦ none
  | some (a, accept, es) ↦ (deliver es >> return a) (record s { accept = accept })
]

-- readPacket of the socket at `at`
unfoldable pub sock_read_packet : Arrival → Packet → ℕ → Listen.Handler (Unit {0})
unfolding Manage.read_packet
sock_read_packet a p at s = elim (get_elem? s.store at) [
  | none ↦ none
  | some sock ↦ elim (Manage.read_packet (a.ts at) a.now p a.from sock) [
    | none ↦ none
    | some (u, sock', es) ↦
        some (tt, record s { store = set s.store at sock' }, Accept.sock_effects at es)
  ]
]

unfoldable pub to_socket : Arrival → Packet → ℕ → Handler (Unit {0})
unfolding within sock_read_packet load
to_socket a p id = do
  s ← get
  elim (load id s.accept.sockets) [ none ↦ return tt | some at ↦ within (sock_read_packet a p at) ]

-- `m.rvSockets.Range(…)`
unfoldable pub to_rendezvous : Arrival → HandshakePacket → List (UdpAddr × ℕ) → Handler Bool
unfolding within Accept.sock_read_handshake
to_rendezvous a p [] = return false
to_rendezvous a p ((peer, at) ∷ rest) = do
  matched ← within (Accept.sock_read_handshake at (a.ts at) p a.from)
  elim matched [ true ↦ return true | false ↦ to_rendezvous a p rest ]

-- `if m.listenSock != nil { … }`
unfoldable pub to_listener : Arrival → HandshakePacket → Handler (Unit {0})
unfolding within Accept.read_handshake
to_listener a p = do
  s ← get
  elim s.listen_sock [
    | none ↦ return tt
    | some l ↦ do within (Accept.read_handshake a.sum a.seq a.ts a.now p a.from); return tt
  ]

-- `if sockID == 0 { … }`
unfoldable pub route_zero : Arrival → Packet → Handler (Unit {0})
unfolding to_rendezvous to_listener to_socket
route_zero a (handshake p) = do
  s ← get
  matched ← to_rendezvous a p s.rv_sockets
  elim matched [ true ↦ return tt | false ↦ do to_listener a p; to_socket a (handshake p) 0 ]
route_zero a _ = return tt

unfoldable pub route : Arrival → Packet → Handler (Unit {0})
unfolding route_zero to_socket
route a p = elim (socket_id p == 0) [ true ↦ route_zero a p | false ↦ to_socket a p (socket_id p) ]

unfoldable pub read_packet : Arrival → List ℕ → Handler (Unit {0})
unfolding route
read_packet a bytes = elim (read_packet_from a.spare bytes).0 [
  | ok p ↦ route a p
  | err e ↦ return tt
  | panic ↦ stop
]
