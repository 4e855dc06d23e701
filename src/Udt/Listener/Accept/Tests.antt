-- ===== src/Udt/Listener/Accept/Tests.antt =====
-- The listener's answers at concrete handshakes, with a hash that appends a fixed digest.
use go_udt.Common.{
  ℕ, ◌≡◌, ◌⊎◌, inl, refl, Bool, true, List, [], ◌∷◌, ◌++◌, none, some, get_elem?, arith,
}
use go_udt.Common.Run.{ok}
use go_udt.Packet.Handshake.{HandshakePacket}
use go_udt.Udt.Address.{UdpAddr}
use go_udt.Udt.Socket.State.{UdtSocket, connected, default_config, hs_request, hs_response}
use go_udt.Udt.Listener.SynCookie.{cookie_of, check_syn_cookie}
use go_udt.Udt.Listener.Accept.{may_accept, read_handshake}
use go_udt.Udt.Listener.State.{AcceptState, AcceptEffect, accepted}
use go_udt.Udt.Listener.Accept.Stateless.{reply, read_handshake-stateless}
use go_udt.Udt.Listener.Accept.Connects.{read_handshake-connects}

abbrev hash : List ℕ → List ℕ
hash b = b ++ 5 ∷ 6 ∷ []

abbrev hash-appends : (b : List ℕ) → (digest : List ℕ) × (hash b ≡ b ++ digest)
hash-appends b = (5 ∷ 6 ∷ [], refl)

abbrev listening : AcceptState
listening = record {
  cookies = record { syn_epoch = 7; syn_cookie = 0xabcd_1234 };
  config = record {
    sock = default_config;
    can_accept_dgram = true;
    can_accept_stream = true;
    listen_replay_window = 0;
    can_accept = none;
  };
  accept_hist = none;
  mtu = 1472;
  next_sid = 0;
  sockets = [];
  store = [];
}

abbrev client : UdpAddr
client = record { ip = 10 ∷ 0 ∷ 0 ∷ 1 ∷ []; port = 9000 }

-- A first handshake, and the answer with the cookie.
abbrev first : HandshakePacket
first = record {
  hdr = record { ts = 0; dst_sock_id = 0 };
  udt_ver = 4;
  sock_type = 1;
  init_pkt_seq = 77;
  max_pkt_size = 1400;
  max_flow_win_size = 64;
  req_type = hs_request;
  sock_id = 5;
  syn_cookie = 0;
  sock_addr = 10 ∷ 0 ∷ 0 ∷ 2 ∷ [];
}

abbrev second : HandshakePacket
second = record first { req_type = hs_response; syn_cookie = 0x3a34 }

read_handshake-stateless_example :
    (answered : Bool) × (es : List AcceptEffect) × (read_handshake hash 42
        (λ at. 3)
        9
        first
        client
        listening
      ≡ some (answered, listening, es))
    × ((es ≡ []) ⊎ (es ≡ reply first client (cookie_of 7 0xabcd_1234) ∷ []))
read_handshake-stateless_example =
    read_handshake-stateless hash hash-appends 42 (λ at. 3) 9 first client listening (omega arith)
      (inl refl)

good_cookie : check_syn_cookie hash 0x3a34 listening.cookies client ≡ ok (true, 0x3a34)
unfolding check_syn_cookie
good_cookie = refl

admitted : may_accept listening.config second client ≡ true
unfolding may_accept
admitted = refl

read_handshake-connects_example :
    (t : AcceptState) × (sock : UdtSocket) × (es : List AcceptEffect) × (read_handshake hash 42
        (λ at. 3)
        9
        second
        client
        listening
      ≡ some (true, t, es ++ accepted 0 ∷ []))
    × (get_elem? t.store 0 ≡ some sock)
    × (t.sockets ≡ (sock.sock_id, 0) ∷ [])
    × (sock.sock_state ≡ connected)
    × (sock.raddr ≡ client)
    × (sock.far_sock_id ≡ 5)
    × (sock.init_pkt_seq ≡ 77)
read_handshake-connects_example =
    read_handshake-connects hash 42 (λ at. 3) 9 0x3a34 second client listening refl good_cookie refl
      admitted
