-- ===== src/Udt/Mux/Dial.antt =====
-- dialUDT and rendezvousUDT (udt/udt.go), from `multiplexerFor` on and until the caller waits for the
-- connection; what it returns then follows from the socket's state.
pub mod Outcome
mod Tests
use go_udt.Common.{ℕ, Bool, false, not, [], Option, none, some, get_elem?, set}
use go_udt.Packet.PktSeq.{PacketId}
use go_udt.Udt.Address.{UdpAddr}
use go_udt.Udt.Socket.State as Sock
use go_udt.Udt.Socket.Manage
use go_udt.Udt.Socket.Read.{ReadError, connection_error}
use go_udt.Udt.Listener.State as Listen
use go_udt.Udt.Listener.State.{new_mux_socket}
use go_udt.Udt.Listener.Accept
use go_udt.Udt.Mux.State.{Handler, return, ◌>>=◌, ◌>>◌}
use go_udt.Udt.Mux.Route.{within}

-- `m.newSocket(config, raddr, false, !isStream)`, with `config` in place of the listener's
unfoldable pub new_socket : PacketId → Sock.Config → UdpAddr → Bool → Handler ℕ
unfolding new_mux_socket
new_socket seq config raddr is_stream s =
    let listening = s.accept.config in
    elim (new_mux_socket seq raddr false (not is_stream)
      (record s.accept { config = record listening { sock = config } })) [
        | none ↦ none
        | some (at, accept, es) ↦
            some (at, record s { accept = record accept { config = listening } }, [])
      ]

-- A method of the socket at `at`
unfoldable pub start : Sock.Handler (Unit {0}) → ℕ → Listen.Handler (Unit {0})
start method at s = elim (get_elem? s.store at) [
  | none ↦ none
  | some sock ↦ elim (method sock) [
    | none ↦ none
    | some (u, sock', es) ↦
        some (tt, record s { store = set s.store at sock' }, Accept.sock_effects at es)
  ]
]

-- `ts` is the clock that sendHandshake reads, in microseconds since the socket was created.
unfoldable pub dial : ℕ → PacketId → Sock.Config → UdpAddr → Bool → Handler ℕ
unfolding new_socket start within Manage.start_connect
dial ts seq config raddr is_stream = do
  at ← new_socket seq config raddr is_stream
  within (start (Manage.start_connect ts) at)
  return at

unfoldable pub rendezvous : ℕ → PacketId → Sock.Config → UdpAddr → Bool → Handler ℕ
unfolding new_socket start within Manage.start_rendezvous_connect
rendezvous ts seq config raddr is_stream = do
  at ← new_socket seq config raddr is_stream
  within (start (Manage.start_rendezvous_connect ts) at)
  return at

-- What the caller gets once the wait for the connection is over: the socket, or the error
unfoldable pub result : Sock.UdtSocket → Option ReadError
unfolding connection_error
result sock = connection_error sock.sock_state
