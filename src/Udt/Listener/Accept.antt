-- ===== src/Udt/Listener/Accept.antt =====
-- readHandshake and rejectHandshake of the listener. The hash, the random first sequence number and
-- the clock are arguments; `ts at` is the time since the socket at `at` was created.
pub mod Stateless
pub mod Fresh
pub mod Connects
mod Tests
use go_udt.Common.{
  ℕ, zero, suc, ◌+◌, ◌-◌, ◌%◌, ◌^◌, Bool, true, false, not, ◌&&◌, List, [], ◌∷◌, ◌++◌, Option, none,
  some, length, get_elem?, set, ltb, ◌==◌, if◌then◌else◌,
}
use mathlib.Core.Option
use go_udt.Common.Run.{Run, ok, err, panic}
use go_udt.Packet.PktSeq.{PacketId}
use go_udt.Packet.Header.{CtrlHeader}
use go_udt.Packet.Handshake.{HandshakePacket}
use go_udt.Packet.Any
use go_udt.Packet.Any.{Packet, handshake}
use go_udt.Udt.Address.{UdpAddr}
use go_udt.Udt.Heap
use go_udt.Udt.Heaps.AcceptSocks
use go_udt.Udt.Heaps.AcceptSocks.{AcceptSockInfo}
use go_udt.Udt.Search.{found, missing}
use go_udt.Udt.Monad.{Action, ◌>>=◌, ◌>>◌, return, get, put, emit, stop, need_some}
use go_udt.Udt.Socket.State
use go_udt.Udt.Socket.State.{Config, UdtSocket, hs_request, hs_refused, type_stream, type_dgram}
use go_udt.Udt.Socket.Handshake
use go_udt.Udt.Listener.SynCookie.{Listener, gen_syn_cookie, check_syn_cookie}
use go_udt.Udt.Listener.State.{
  ListenConfig, AcceptState, AcceptEffect, pkt_out, of_socket, accepted, Handler, send_packet,
  new_mux_socket,
}

abbrev pub no_hdr : CtrlHeader
no_hdr = record { ts = 0; dst_sock_id = 0 }

unfoldable pub reject_handshake : HandshakePacket → UdpAddr → Handler (Unit {0})
unfolding send_packet
reject_handshake p from = send_packet from p.sock_id 0 (
    handshake (record {
      hdr = no_hdr;
      udt_ver = p.udt_ver;
      sock_type = p.sock_type;
      init_pkt_seq = 0;
      max_pkt_size = 0;
      max_flow_win_size = 0;
      req_type = hs_refused;
      sock_id = 0;
      syn_cookie = 0;
      sock_addr = from.ip;
    }))

-- The answer to a request
abbrev pub cookie_packet : HandshakePacket → UdpAddr → ℕ → HandshakePacket
cookie_packet p from new_cookie = record {
  hdr = no_hdr;
  udt_ver = p.udt_ver;
  sock_type = p.sock_type;
  init_pkt_seq = p.init_pkt_seq;
  max_pkt_size = 0;
  max_flow_win_size = 0;
  req_type = hs_request;
  sock_id = 0;
  syn_cookie = new_cookie;
  sock_addr = from.ip;
}

abbrev pub of_run : {A : Type 0} → Run A → Handler A
of_run (ok a) = return a
of_run _ = stop

abbrev pub sock_effects : ℕ → List State.Effect → List AcceptEffect
sock_effects at [] = []
sock_effects at (e ∷ es) = of_socket at e ∷ sock_effects at es

-- readHandshake of the socket at an address
unfoldable pub sock_read_handshake : ℕ → ℕ → HandshakePacket → UdpAddr → Handler Bool
unfolding Handshake.read_handshake
sock_read_handshake at ts p from s = elim (get_elem? s.store at) [
  | none ↦ none
  | some sock ↦ elim (Handshake.read_handshake ts p from sock) [
    | none ↦ none
    | some (b, sock', es) ↦ some (b, record s { store = set s.store at sock' }, sock_effects at es)
  ]
]

-- 5 * time.Minute, in nanoseconds
abbrev pub default_replay_window : ℕ
default_replay_window = 300_000_000_000

-- `if l.acceptHist != nil { … }`: the socket that was made for this handshake before
unfoldable pub replayed : ℕ → HandshakePacket → Handler (Option ℕ)
unfolding AcceptSocks.prune AcceptSocks.find
replayed now p = do
  s ← get
  elim s.accept_hist [
    | none ↦ return none
    | some h ↦ do
      let window = s.config.listen_replay_window
      h' ←
          need_some
            (AcceptSocks.prune h (now - (if ltb 0 window then window else default_replay_window)))
      elim (AcceptSocks.find h' p.sock_id p.init_pkt_seq) [
        | missing ↦ do put (record s { accept_hist = some h' }); return none
        | found i ↦ elim (get_elem? h' i) [
          | none ↦ stop
          | some e ↦ do
            put (record s { accept_hist = some (set h' i (record e { last_touch = now })) })
            return (some e.sock)
        ]
        | _ ↦ stop
      ]
  ]

-- The three tests of the configuration
unfoldable pub may_accept : ListenConfig → HandshakePacket → UdpAddr → Bool
may_accept c p from =
    not (not c.can_accept_dgram && (p.sock_type == type_dgram))
    && (not (not c.can_accept_stream && (p.sock_type == type_stream))
        && elim c.can_accept [ none ↦ true | some f ↦ f p from ])

unfoldable pub add_accepted : ℕ → HandshakePacket → ℕ → Handler (Unit {0})
unfolding Heap.init Heap.push AcceptSocks.less
add_accepted now p at = do
  s ← get
  let e : AcceptSockInfo = record {
    sock_id = p.sock_id;
    init_seq_no = p.init_pkt_seq;
    last_touch = now;
    sock = at;
  }
  put (record s {
    accept_hist = some (elim s.accept_hist [
      | none ↦ Heap.init AcceptSocks.less (e ∷ [])
      | some h ↦ Heap.push AcceptSocks.less h e
    ]);
  })

-- `s.checkValidHandshake(m, hsPacket, from)` and `s.readHandshake(m, hsPacket, from)`
unfoldable pub valid_for : ℕ → HandshakePacket → Handler Bool
unfolding Handshake.check_valid_handshake
valid_for at p = do
  s ← get
  sock ← need_some (get_elem? s.store at)
  return (Handshake.check_valid_handshake sock)

-- What follows `s.readHandshake(m, hsPacket, from)`
unfoldable pub finish : HandshakePacket → UdpAddr → ℕ → Bool → Handler Bool
unfolding reject_handshake
finish p from at false = do reject_handshake p from; return false
finish p from at true = do emit (accepted at); return true

-- What follows `s.checkValidHandshake(m, hsPacket, from)`
unfoldable pub agree : (ℕ → ℕ) → HandshakePacket → UdpAddr → ℕ → Bool → Handler Bool
unfolding sock_read_handshake reject_handshake finish
agree ts p from at false = do reject_handshake p from; return false
agree ts p from at true = sock_read_handshake at (ts at) p from >>= finish p from at

-- From `s := l.m.newSocket(…)` on
unfoldable pub set_up : (ℕ → ℕ) → ℕ → HandshakePacket → UdpAddr → ℕ → Handler Bool
unfolding add_accepted valid_for agree
set_up ts now p from at = add_accepted now p at >> (valid_for at p >>= agree ts p from at)

unfoldable pub accept_new : PacketId → (ℕ → ℕ) → ℕ → HandshakePacket → UdpAddr → Handler Bool
unfolding new_mux_socket set_up
accept_new seq ts now p from =
    new_mux_socket seq from true (p.sock_type == type_dgram) >>= set_up ts now p from

-- What follows the tests of the configuration
unfoldable pub accept_if : PacketId → (ℕ → ℕ) → ℕ → HandshakePacket → UdpAddr → Bool → Handler Bool
unfolding accept_new reject_handshake
accept_if seq ts now p from false = do reject_handshake p from; return false
accept_if seq ts now p from true = accept_new seq ts now p from

-- Where no socket has been made for the handshake before
unfoldable pub accept_first : PacketId → (ℕ → ℕ) → ℕ → HandshakePacket → UdpAddr → Handler Bool
unfolding may_accept accept_if
accept_first seq ts now p from = do
  s ← get
  accept_if seq ts now p from (may_accept s.config p from)

-- What follows the search in the history
unfoldable pub resume : PacketId → (ℕ → ℕ) → ℕ → HandshakePacket → UdpAddr → Option ℕ → Handler Bool
unfolding sock_read_handshake accept_first
resume seq ts now p from (some at) = sock_read_handshake at (ts at) p from
resume seq ts now p from none = accept_first seq ts now p from

-- Behind the test of the cookie
unfoldable pub accept_handshake : PacketId → (ℕ → ℕ) → ℕ → HandshakePacket → UdpAddr → Handler Bool
unfolding replayed resume
accept_handshake seq ts now p from = replayed now p >>= resume seq ts now p from

unfoldable pub check_cookie :
    PacketId → (ℕ → ℕ) → ℕ → HandshakePacket → UdpAddr → Bool × ℕ → Handler Bool
unfolding accept_handshake
check_cookie seq ts now p from (false, new_cookie) = return false
check_cookie seq ts now p from (true, new_cookie) = accept_handshake seq ts now p from

unfoldable pub read_handshake :
    (List ℕ → List ℕ) → PacketId → (ℕ → ℕ) → ℕ → HandshakePacket → UdpAddr → Handler Bool
unfolding gen_syn_cookie check_syn_cookie send_packet check_cookie
read_handshake sum seq ts now p from = do
  s ← get
  elim (p.req_type == hs_request) [
    | true ↦ do
      new_cookie ← of_run (gen_syn_cookie sum s.cookies from)
      send_packet from p.sock_id 0 (handshake (cookie_packet p from new_cookie))
      return true
    | false ↦
        of_run (check_syn_cookie sum p.syn_cookie s.cookies from) >>= check_cookie seq ts now p from
  ]
