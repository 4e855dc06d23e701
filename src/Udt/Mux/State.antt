-- ===== src/Udt/Mux/State.antt =====
-- The state of a multiplexer, with listenUDT, unlistenUDT, newSocket, closeSocket, checkLive, isLive,
-- startRendezvous, endRendezvous and sendPacket (udt/multiplexer.go).
--
-- The table of the sockets and the sockets themselves are in `accept`, with what its listener keeps;
-- a listener is a number. `registered` tells whether the multiplexer is in the map of all of them, and
-- `torn_down` that its connection and the channel of outgoing packets are closed; `m.conn` is never
-- set to nil. A panic is a call that does not return, as is log.Fatalf.
pub use go_udt.Udt.Monad.{◌>>=◌, ◌>>◌, return, get, put, emit, stop}
use go_udt.Udt.Monad.{Action}
use go_udt.Common.{
  ℕ, Bool, true, false, not, ◌&&◌, ◌||◌, List, [], ◌∷◌, Option, none, some, ◌==◌, if◌then◌else◌,
}
use go_udt.Packet.Any
use go_udt.Packet.Any.{Packet}
use go_udt.Udt.Address.{UdpAddr, same_addr}
use go_udt.Udt.Listener.State.{AcceptState, AcceptEffect, pkt_out, is_handshake}

pub record Multiplexer : Type 0 where
  pub accept : AcceptState
  pub listen_sock : Option ℕ
  pub rv_sockets : List (UdpAddr × ℕ)
  pub registered : Bool
  pub torn_down : Bool

pub data MuxEffect : Type 0 where
  of_accept : AcceptEffect → MuxEffect
  close_conn close_pkt_out : MuxEffect

abbrev pub Handler : Type 0 → Type 0
Handler = Action Multiplexer MuxEffect

abbrev pub is_empty : {A : Type 0} → List A → Bool
is_empty [] = true
is_empty (x ∷ xs) = false

abbrev pub is_some : {A : Type 0} → Option A → Bool
is_some none = false
is_some (some a) = true

unfoldable pub is_live : Multiplexer → Bool
is_live s = is_some s.listen_sock || not (is_empty s.rv_sockets && is_empty s.accept.sockets)

-- `m.sockets.Load(id)` and `m.sockets.Delete(id)`
unfoldable pub load : {A : Type 0} → ℕ → List (ℕ × A) → Option A
load id [] = none
load id ((j, at) ∷ rest) = if j == id then some at else load id rest

unfoldable pub delete : {A : Type 0} → ℕ → List (ℕ × A) → List (ℕ × A)
delete id [] = []
delete id ((j, at) ∷ rest) = if j == id then delete id rest else (j, at) ∷ delete id rest

-- The same for `m.rvSockets`, by the text of an address
unfoldable pub load_addr : {A : Type 0} → UdpAddr → List (UdpAddr × A) → Option A
unfolding same_addr
load_addr peer [] = none
load_addr peer ((a, at) ∷ rest) = if same_addr a peer then some at else load_addr peer rest

unfoldable pub delete_addr : {A : Type 0} → UdpAddr → List (UdpAddr × A) → List (UdpAddr × A)
unfolding same_addr
delete_addr peer [] = []
delete_addr peer ((a, at) ∷ rest) =
    if same_addr a peer then delete_addr peer rest else (a, at) ∷ delete_addr peer rest

-- `m.conn.Close()` and `close(m.pktOut)`, which panics where that is closed
unfoldable pub tear_down : Handler Bool
tear_down = do
  s ← get
  put (record s { registered = false })
  emit close_conn
  elim s.torn_down [
    | true ↦ stop
    | false ↦ do
      emit close_pkt_out
      put (record s { registered = false; torn_down = true })
      return false
  ]

unfoldable pub check_live : Handler Bool
unfolding is_live tear_down
check_live = do s ← get; elim (is_live s) [ true ↦ return true | false ↦ tear_down ]

unfoldable pub listen_udt : ℕ → Handler Bool
listen_udt l = do
  s ← get
  elim (is_some s.listen_sock) [
    | true ↦ return false
    | false ↦ do put (record s { listen_sock = some l }); return true
  ]

-- `m.listenSock == l`
abbrev pub is_listener : Option ℕ → ℕ → Bool
is_listener none l = false
is_listener (some l') l = l' == l

unfoldable pub unlisten_udt : ℕ → Handler Bool
unfolding check_live
unlisten_udt l = do
  s ← get
  elim (is_listener s.listen_sock l) [
    | false ↦ return false
    | true ↦ do put (record s { listen_sock = none }); check_live; return true
  ]

unfoldable pub close_socket : ℕ → Handler Bool
unfolding check_live load delete
close_socket sock_id = do
  s ← get
  elim (load sock_id s.accept.sockets) [
    | none ↦ return false
    | some at ↦ do
      put (record s { accept = record s.accept { sockets = delete sock_id s.accept.sockets } })
      check_live
      return true
  ]

-- For the socket at `at` with the peer `peer`
unfoldable pub start_rendezvous : UdpAddr → ℕ → Handler (Unit {0})
unfolding delete_addr
start_rendezvous peer at = do
  s ← get
  put (record s { rv_sockets = (peer, at) ∷ delete_addr peer s.rv_sockets })

unfoldable pub end_rendezvous : UdpAddr → ℕ → Handler (Unit {0})
unfolding load_addr delete_addr
end_rendezvous peer at = do
  s ← get
  elim (is_listener (load_addr peer s.rv_sockets) at) [
    | false ↦ return tt
    | true ↦ put (record s { rv_sockets = delete_addr peer s.rv_sockets })
  ]

-- `m.pktOut <- packetWrapper{…}`, which panics where the channel is closed
unfoldable pub send_out : UdpAddr → Packet → Handler (Unit {0})
send_out dest p = do
  s ← get
  elim s.torn_down [ true ↦ stop | false ↦ emit (of_accept (pkt_out dest p)) ]

unfoldable pub send_packet : UdpAddr → ℕ → ℕ → Packet → Handler (Unit {0})
unfolding send_out Any.set_header
send_packet dest_addr dest_sock_id ts p = elim ((dest_sock_id == 0) && not (is_handshake p)) [
  | true ↦ stop
  | false ↦ send_out dest_addr (Any.set_header p dest_sock_id ts)
]
