-- ===== src/Udt/Socket/Handshake.antt =====
-- sendHandshake, checkValidHandshake and readHandshake. `ts` is the time since the socket was
-- created, in microseconds, as a uint32.
use go_udt.Common.{ℕ, ◌%◌, ◌^◌, Bool, true, false, not, ◌&&◌, ◌||◌, none, ltb, ◌==◌, if◌then◌else◌}
use go_udt.Packet.Handshake.{HandshakePacket}
use go_udt.Packet.Any
use go_udt.Udt.Address.{UdpAddr, same_addr}
use go_udt.Udt.Socket.State.{
  SockState, init, rendezvous, connecting, connected, refused, UdtSocket, Handler, mux_send,
  cong_pkt_sent, launch_processors, recv_configure, send_configure, go_manage, end_rendezvous,
  connect_done, hs_request, hs_rendezvous, hs_response, hs_response2, hs_refused, type_stream,
  type_dgram, ◌>>=◌, ◌>>◌, return, get, put, emit,
}

abbrev pub handshake_packet : UdtSocket → ℕ → ℕ → HandshakePacket
handshake_packet s syn_cookie req_type = record {
  hdr = record { ts = 0; dst_sock_id = 0 };
  udt_ver = s.udt_ver % 2 ^ 32;
  sock_type = if s.is_datagram then type_dgram else type_stream;
  init_pkt_seq = s.init_pkt_seq;
  max_pkt_size = s.mtu;
  max_flow_win_size = s.max_flow_win_size % 2 ^ 32;
  req_type = req_type;
  sock_id = s.sock_id;
  syn_cookie = syn_cookie;
  sock_addr = s.raddr.ip;
}

unfoldable pub send_handshake : ℕ → ℕ → ℕ → Handler (Unit {0})
send_handshake ts syn_cookie req_type = do
  s ← get
  let p = Any.handshake (handshake_packet s syn_cookie req_type)
  emit (cong_pkt_sent p)
  emit (mux_send s.raddr s.far_sock_id ts p)

unfoldable pub check_valid_handshake : UdtSocket → Bool
check_valid_handshake s = s.udt_ver == 4

-- `s.isDatagram != (p.SockType == packet.TypeDGRAM)`
abbrev pub other_type : UdtSocket → HandshakePacket → Bool
other_type s p =
    if s.is_datagram then not (p.sock_type == type_dgram) else p.sock_type == type_dgram

-- The handshakes that a connecting socket ignores.
unfoldable pub is_mismatch : UdtSocket → HandshakePacket → UdpAddr → Bool
unfolding check_valid_handshake same_addr
is_mismatch s p from =
    not (check_valid_handshake s)
    || (not (p.init_pkt_seq == s.init_pkt_seq) || (not (same_addr from s.raddr) || other_type s p))

-- `if s.mtu.get() > p.MaxPktSize { s.mtu.set(p.MaxPktSize) }`
abbrev pub limit_mtu : HandshakePacket → UdtSocket → UdtSocket
limit_mtu p s = record s { mtu = if ltb p.max_pkt_size s.mtu then p.max_pkt_size else s.mtu }

-- launchProcessors, and the two configureHandshake
unfoldable pub launch : HandshakePacket → Bool → Handler (Unit {0})
launch p reset_seq = do
  s ← get
  put (limit_mtu p s)
  emit (launch_processors s.init_pkt_seq)
  emit (recv_configure p)
  emit (send_configure p reset_seq)

-- `s.sockState = sockStateConnected`, with the timers off
abbrev pub set_connected : UdtSocket → UdtSocket
set_connected s = record s { sock_state = connected; conn_timeout = none; conn_retry = none }

-- `if s.connectWait != nil { … }`
unfoldable pub release_wait : Handler (Unit {0})
release_wait = do
  s ← get
  elim s.connect_wait [
    | false ↦ return tt
    | true ↦ do emit connect_done; put (record s { connect_wait = false })
  ]

unfoldable pub accept_client : ℕ → HandshakePacket → Handler Bool
unfolding launch send_handshake
accept_client ts p = do
  s ← get
  put (record s {
    init_pkt_seq = p.init_pkt_seq;
    udt_ver = p.udt_ver;
    far_sock_id = p.sock_id;
    is_datagram = p.sock_type == type_dgram;
  })
  launch p true
  s ← get
  put (set_connected s)
  emit go_manage
  send_handshake ts p.syn_cookie hs_response
  return true

unfoldable pub read_connecting : ℕ → HandshakePacket → UdpAddr → Handler Bool
unfolding launch send_handshake is_mismatch release_wait
read_connecting ts p from = do
  s ← get
  elim (p.req_type == hs_refused) [
    | true ↦ do put (record s { sock_state = refused }); return true
    | false ↦ elim (p.req_type == hs_request) [
      | true ↦ elim (is_mismatch s p from) [
        | true ↦ return true
        | false ↦ do send_handshake ts p.syn_cookie hs_response; return true
      ]
      | false ↦ elim (not (p.req_type == hs_response) || is_mismatch s p from) [
        | true ↦ return true
        | false ↦ do
          put (record s { far_sock_id = p.sock_id })
          launch p true
          s ← get
          put (set_connected s)
          release_wait
          return true
      ]
    ]
  ]

unfoldable pub read_rendezvous : ℕ → HandshakePacket → UdpAddr → Handler Bool
unfolding launch send_handshake check_valid_handshake same_addr release_wait
read_rendezvous ts p from = do
  s ← get
  elim (p.req_type == hs_refused) [
    | true ↦ do put (record s { sock_state = refused }); return true
    | false ↦ elim (not (p.req_type == hs_rendezvous) || (s.far_sock_id == 0)) [
      | true ↦ return true
      | false ↦
          elim (not (check_valid_handshake s) || (not (same_addr from s.raddr) || other_type s p)) [
            | true ↦ return true
            | false ↦ do
              put (record s { far_sock_id = p.sock_id })
              emit end_rendezvous
              launch p false
              s ← get
              put (set_connected s)
              release_wait
              send_handshake ts p.syn_cookie hs_response
              return true
          ]
    ]
  ]

unfoldable pub read_connected : ℕ → HandshakePacket → Handler Bool
unfolding send_handshake
read_connected ts p = do
  s ← get
  elim (s.is_server && (p.req_type == hs_request)) [
    | true ↦ do send_handshake ts p.syn_cookie hs_response; return true
    | false ↦ elim (not s.is_server && (p.req_type == hs_response)) [
      | true ↦ do send_handshake ts p.syn_cookie hs_response2; return true
      | false ↦ return true
    ]
  ]

-- The `switch` of readHandshake
unfoldable pub read_in_state : SockState → ℕ → HandshakePacket → UdpAddr → Handler Bool
unfolding accept_client read_connecting read_rendezvous read_connected
read_in_state init ts p from = accept_client ts p
read_in_state connecting ts p from = read_connecting ts p from
read_in_state rendezvous ts p from = read_rendezvous ts p from
read_in_state connected ts p from = read_connected ts p
read_in_state _ ts p from = return false

unfoldable pub read_handshake : ℕ → HandshakePacket → UdpAddr → Handler Bool
unfolding same_addr read_in_state
read_handshake ts p from = do
  s ← get
  elim (same_addr from s.raddr) [
    | false ↦ return false
    | true ↦ read_in_state s.sock_state ts p from
  ]
