-- ===== src/Udt/Listener/State.antt =====
-- The state of the listener and of its multiplexer, with newSocket and sendPacket of the latter
-- (udt/multiplexer.go).
--
-- A socket has an address in `store`, where it stays as long as someone refers to it; the
-- multiplexer's table has the addresses by number. The random first sequence number is an argument,
-- and so is CanAccept, of which only counts whether it returns an error.
use go_udt.Common.{
  ℕ, ◌+◌, ◌-◌, ◌%◌, ◌^◌, Bool, true, false, not, ◌&&◌, List, [], ◌∷◌, ◌++◌, Option, length, ◌==◌,
}
use go_udt.Packet.PktSeq.{PacketId}
use go_udt.Packet.Handshake.{HandshakePacket}
use go_udt.Packet.Any
use go_udt.Packet.Any.{Packet, handshake}
use go_udt.Udt.Address.{UdpAddr}
use go_udt.Udt.Heaps.AcceptSocks.{AcceptSockInfo}
use go_udt.Udt.Monad.{Action, ◌>>=◌, ◌>>◌, return, get, put, emit, stop}
use go_udt.Udt.Socket.State
use go_udt.Udt.Socket.State.{Config, UdtSocket, hs_request, hs_refused, type_stream, type_dgram}
use go_udt.Udt.Listener.SynCookie.{Listener}

pub record ListenConfig : Type 0 where
  pub sock : Config
  pub can_accept_dgram : Bool
  pub can_accept_stream : Bool
  pub listen_replay_window : ℕ
  pub can_accept : Option (HandshakePacket → UdpAddr → Bool)

pub record AcceptState : Type 0 where
  pub cookies : Listener
  pub config : ListenConfig
  pub accept_hist : Option (List AcceptSockInfo)
  pub mtu : ℕ
  pub next_sid : ℕ
  pub sockets : List (ℕ × ℕ)
  pub store : List UdtSocket

pub data AcceptEffect : Type 0 where
  pkt_out : UdpAddr → Packet → AcceptEffect
  of_socket : ℕ → State.Effect → AcceptEffect
  accepted : ℕ → AcceptEffect

abbrev pub Handler : Type 0 → Type 0
Handler = Action AcceptState AcceptEffect

abbrev pub is_handshake : Packet → Bool
is_handshake (handshake p) = true
is_handshake _ = false

-- sendPacket; `log.Fatalf` ends the program
unfoldable pub send_packet : UdpAddr → ℕ → ℕ → Packet → Handler (Unit {0})
unfolding Any.set_header
send_packet dest_addr dest_sock_id ts p = elim ((dest_sock_id == 0) && not (is_handshake p)) [
  | true ↦ stop
  | false ↦ emit (pkt_out dest_addr (Any.set_header p dest_sock_id ts))
]

-- newSocket of the multiplexer; `^uint32(0)` is -1
unfoldable pub new_mux_socket : PacketId → UdpAddr → Bool → Bool → Handler ℕ
unfolding State.new_socket
new_mux_socket seq peer is_server is_datagram = do
  s ← get
  let sid = (s.next_sid + 2 ^ 32 - 1) % 2 ^ 32
  put (record s {
    next_sid = sid;
    sockets = (sid, length s.store) ∷ s.sockets;
    store = s.store ++ State.new_socket s.mtu seq s.config.sock sid is_server is_datagram peer ∷ [];
  })
  return (length s.store)
