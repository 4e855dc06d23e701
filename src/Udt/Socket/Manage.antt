-- ===== src/Udt/Socket/Manage.antt =====
-- startConnect, startRendezvous, shutdown, readPacket and the rounds of goManageConnection.
use go_udt.Common.{ℕ, ◌*◌, Bool, true, false, none, some, ◌==◌, if◌then◌else◌}
use go_udt.Packet.Any.{Packet, handshake, shutdown, ack, light_ack, nak, user_def}
use go_udt.Udt.Address.{UdpAddr, same_addr}
use go_udt.Udt.Socket.State.{
  SockState, rendezvous, connecting, closed, timeout, UdtSocket, Handler, default_config, is_open,
  mux_send, cong_pkt_sent, cong_close, cong_custom_msg, go_manage, start_rendezvous, end_rendezvous,
  close_socket, close_sock_closed, close_sock_shutdown, message_in_nil, recv_event, send_event,
  shutdown_event, hs_request, hs_rendezvous, ◌>>=◌, ◌>>◌, return, get, put, emit,
}
use go_udt.Udt.Socket.Handshake.{send_handshake, release_wait, read_handshake}

abbrev pub second : ℕ
second = 1_000_000_000

abbrev pub retry_period : ℕ
retry_period = 250_000_000

-- Up to connectWait.Wait()
unfoldable pub start_connect : ℕ → Handler (Unit {0})
unfolding send_handshake
start_connect ts = do
  s ← get
  put (record s {
    connect_wait = true;
    sock_state = connecting;
    conn_timeout = some (3 * second);
    conn_retry = some retry_period;
  })
  emit go_manage
  send_handshake ts 0 hs_request

unfoldable pub start_rendezvous_connect : ℕ → Handler (Unit {0})
unfolding send_handshake
start_rendezvous_connect ts = do
  s ← get
  put (record s {
    connect_wait = true;
    sock_state = rendezvous;
    conn_timeout = some (30 * second);
    conn_retry = some retry_period;
  })
  emit go_manage
  emit start_rendezvous
  send_handshake ts 0 hs_rendezvous

-- `if permitLinger { … }`, and the timers off
abbrev pub linger : Bool → UdtSocket → UdtSocket
linger permit_linger s = record s {
  linger_timer =
      if permit_linger
      then some
          (if s.config.linger_time == 0 then default_config.linger_time else s.config.linger_time)
      else s.linger_timer;
  conn_timeout = none;
  conn_retry = none;
}

-- `if s.sockState == sockStateRendezvous { s.m.endRendezvous(s) }`
abbrev pub leave_rendezvous : SockState → Handler (Unit {0})
leave_rendezvous rendezvous = emit end_rendezvous
leave_rendezvous _ = return tt

-- `if permitLinger { close(s.sockShutdown) } else { … }`
abbrev pub close_channels : Bool → Handler (Unit {0})
close_channels true = emit close_sock_shutdown
close_channels false = do s ← get; emit (close_socket s.sock_id); emit close_sock_closed

unfoldable pub shutdown_socket : SockState → Bool → Handler (Unit {0})
unfolding release_wait
shutdown_socket sock_state permit_linger = do
  s ← get
  elim (is_open s) [
    | false ↦ return tt
    | true ↦ do
      leave_rendezvous s.sock_state
      release_wait
      s ← get
      put (linger permit_linger (record s { sock_state = sock_state }))
      emit cong_close
      close_channels permit_linger
      emit message_in_nil
  ]

-- What goManageConnection's `select` receives.
pub data ManageEvent : Type 0 where
  linger_expired : ManageEvent
  sock_shutdown : ManageEvent
  sock_closed : ManageEvent
  send_packet : Packet → ManageEvent
  shut_down : SockState → Bool → ManageEvent
  conn_timed_out : ManageEvent
  conn_retried : ManageEvent

-- `switch s.sockState { … }`
unfoldable pub retry_in : SockState → ℕ → Handler (Unit {0})
unfolding send_handshake
retry_in connecting ts = do
  send_handshake ts 0 hs_request
  s ← get
  put (record s { conn_retry = some retry_period })
retry_in rendezvous ts = do
  send_handshake ts 0 hs_rendezvous
  s ← get
  put (record s { conn_retry = some retry_period })
retry_in _ ts = return tt

unfoldable pub retry : ℕ → Handler (Unit {0})
unfolding retry_in
retry ts = do s ← get; put (record s { conn_retry = none }); retry_in s.sock_state ts

-- `false` where the goroutine returns
unfoldable pub on_manage : ℕ → ManageEvent → Handler Bool
unfolding shutdown_socket retry
on_manage ts linger_expired = do
  s ← get
  emit (close_socket s.sock_id)
  emit close_sock_closed
  return false
on_manage ts sock_shutdown = return true
on_manage ts sock_closed = return false
on_manage ts (send_packet p) = do
  s ← get
  emit (cong_pkt_sent p)
  emit (mux_send s.raddr s.far_sock_id ts p)
  return true
on_manage ts (shut_down state permit_linger) = do shutdown_socket state permit_linger; return true
on_manage ts conn_timed_out = do shutdown_socket timeout true; return true
on_manage ts conn_retried = do retry ts; return true

-- `switch sp := p.(type) { … }`
unfoldable pub forward : ℕ → ℕ → Packet → UdpAddr → Handler (Unit {0})
unfolding read_handshake
forward ts now (handshake p) from = do read_handshake ts p from; return tt
forward ts now (shutdown p) from = emit (shutdown_event closed true)
forward ts now (ack p) from = emit (send_event (ack p) now)
forward ts now (light_ack p) from = emit (send_event (light_ack p) now)
forward ts now (nak p) from = emit (send_event (nak p) now)
forward ts now (user_def p) from = emit (cong_custom_msg (user_def p))
forward ts now _ from = return tt

-- `s.sockState == sockStateClosed`
abbrev pub is_closed : SockState → Bool
is_closed closed = true
is_closed _ = false

unfoldable pub read_packet : ℕ → ℕ → Packet → UdpAddr → Handler (Unit {0})
unfolding same_addr forward
read_packet ts now p from = do
  s ← get
  elim (is_closed s.sock_state) [
    | true ↦ return tt
    | false ↦ elim (same_addr from s.raddr) [
      | false ↦ return tt
      | true ↦ do emit (recv_event p now); forward ts now p from
    ]
  ]
