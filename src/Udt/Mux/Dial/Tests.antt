-- ===== src/Udt/Mux/Dial/Tests.antt =====
-- A call of Dial and one of Rendezvous on a multiplexer without a socket.
use go_udt.Common.{true, false, [], ◌∷◌, replicate, none, some, ◌≡◌, refl}
use go_udt.Packet.Any.{handshake}
use go_udt.Udt.Address.{UdpAddr}
use go_udt.Udt.Socket.State as Sock
use go_udt.Udt.Socket.State.{UdtSocket, connecting, connected, hs_request}
use go_udt.Udt.Socket.Handshake.{handshake_packet}
use go_udt.Udt.Socket.Read.{connection}
use go_udt.Udt.Listener.State.{pkt_out, of_socket}
use go_udt.Udt.Mux.State.{Multiplexer, of_accept}
use go_udt.Udt.Mux.Dial.{dial, result}
use go_udt.Udt.Mux.Dial.Outcome
use go_udt.Udt.Mux.Dial.Outcome.{dial_outcome}
use go_udt.Udt.Mux.State.{load}
use go_udt.Common.{get_elem?}

abbrev peer : UdpAddr
peer = record { ip = replicate 16 0; port = 9000 }

abbrev mux : Multiplexer
mux = record {
  accept = record {
    cookies = record { syn_epoch = 0; syn_cookie = 0 };
    config = record {
      sock = Sock.default_config;
      can_accept_dgram = false;
      can_accept_stream = false;
      listen_replay_window = 0;
      can_accept = none;
    };
    accept_hist = none;
    mtu = 1500;
    next_sid = 8;
    sockets = [];
    store = [];
  };
  listen_sock = none;
  rv_sockets = [];
  registered = true;
  torn_down = false;
}

abbrev dialling : UdtSocket
dialling = record (Sock.new_socket 1500 77 Sock.default_config 7 false true peer) {
  connect_wait = true;
  sock_state = connecting;
  conn_timeout = some 3_000_000_000;
  conn_retry = some 250_000_000;
}

dialled :
    dial 3 77 Sock.default_config peer false mux
    ≡ some (
      0,
      record mux {
        accept = record mux.accept { next_sid = 7; sockets = (7, 0) ∷ []; store = dialling ∷ [] };
      },
      of_accept (of_socket 0 Sock.go_manage)
          ∷ of_accept (
              of_socket 0 (Sock.cong_pkt_sent (handshake (handshake_packet dialling 0 hs_request))))
          ∷ of_accept (
              pkt_out peer (
                handshake (record (handshake_packet dialling 0 hs_request) {
                  hdr = record { ts = 3; dst_sock_id = 0 };
                })))
          ∷ [],
    )
unfolding dial Sock.new_socket
dialled = refl

outcomes :
    (result (record dialling { sock_state = connected }) ≡ none)
    × (result (record dialling { sock_state = Sock.refused }) ≡ some (connection Sock.refused))
unfolding result Sock.new_socket
outcomes = (refl, refl)

abbrev listed : Multiplexer
listed = record mux {
  accept = record mux.accept { next_sid = 7; sockets = (7, 0) ∷ []; store = dialling ∷ [] };
}

dial_outcome_example :
    (dial 3 77 Sock.default_config peer false mux
      ≡ some (0, listed, Outcome.sent 3 77 Sock.default_config peer false mux))
    × (load 7 listed.accept.sockets ≡ some 0)
    × (get_elem? listed.accept.store 0 ≡ some dialling)
dial_outcome_example = dial_outcome 3 77 Sock.default_config peer false mux refl
