-- ===== src/Udt/Socket/Tests.antt =====
-- Runs of a socket, and its theorems at concrete states.
use go_udt.Common.{◌≡◌, ◌≢◌, refl, true, false, [], ◌∷◌, none, some, arith}
use go_udt.Packet.Header.{CtrlHeader}
use go_udt.Packet.Handshake.{HandshakePacket}
use go_udt.Packet.Any.{handshake}
use go_udt.Udt.Address.{UdpAddr}
use go_udt.Udt.Socket.State.{
  init, rendezvous, connecting, connected, refused, UdtSocket, mux_send, cong_pkt_sent, go_manage,
  start_rendezvous, Config, default_config, hs_rendezvous, hs_refused, new_socket,
}
use go_udt.Udt.Socket.Handshake.{handshake_packet, send_handshake, read_handshake}
use go_udt.Udt.Socket.Manage.{
  retry_period, conn_timed_out, shutdown_socket, on_manage, start_rendezvous_connect,
}
use go_udt.Udt.Socket.Life.{Step, managed, start, next, Frozen, Reach-Frozen, refused_waits_forever}
use go_udt.Udt.Socket.Life.Rendezvous.{Stuck, rendezvous_never_connects}
use go_udt.Udt.Socket.Read.{ReadState, done, read_stream}
use go_udt.Udt.Socket.Read.Partial.{read_stream-partial, read_stream-loses}

abbrev here : UdpAddr
here = record { ip = 10 ∷ 0 ∷ 0 ∷ 1 ∷ []; port = 9000 }

abbrev there : UdpAddr
there = record { ip = 10 ∷ 0 ∷ 0 ∷ 2 ∷ []; port = 9001 }

abbrev small_packets : Config
small_packets = record default_config { max_packet_size = 1000 }

-- The sockets of a client, whose packets are up to 1472 bytes long, and of a server.
abbrev client : UdtSocket
client = record {
  raddr = there;
  config = default_config;
  udt_ver = 4;
  is_datagram = true;
  is_server = false;
  sock_id = 5;
  far_sock_id = 0;
  init_pkt_seq = 77;
  connect_wait = false;
  sock_state = init;
  mtu = 1472;
  max_flow_win_size = 64;
  conn_timeout = none;
  conn_retry = none;
  linger_timer = none;
}

abbrev server : UdtSocket
server = record client {
  raddr = here;
  config = small_packets;
  is_datagram = false;
  is_server = true;
  sock_id = 8;
  init_pkt_seq = 99;
  mtu = 1000;
}

made :
    (new_socket 1472 77 default_config 5 false true there ≡ client)
    × (new_socket 1472 99 small_packets 8 true false here ≡ server)
unfolding new_socket
made = (refl, refl)

abbrev hdr : CtrlHeader
hdr = record { ts = 4; dst_sock_id = 5 }

abbrev caller : UdtSocket
caller = record client { sock_state = connecting; connect_wait = true }

abbrev refusal : HandshakePacket
refusal = record (handshake_packet server 0 hs_refused) { hdr = hdr }

abbrev refused_caller : UdtSocket
refused_caller = record caller { sock_state = refused }

-- The timer for the connection runs out, which changes nothing.
late : Step refused_caller refused_caller
unfolding on_manage shutdown_socket
late = managed 3 conn_timed_out true [] tt refl

refused_waits_forever_example :
    (read_handshake 3 refusal there caller
      ≡ some (true, record caller { sock_state = refused }, []))
    × (refused ≡ refused)
    × (true ≡ true)
refused_waits_forever_example =
    refused_waits_forever 3 refusal caller refused_caller refl refl refl (next start late)

Reach-Frozen_example : Frozen refused_caller refused_caller
Reach-Frozen_example = Reach-Frozen {s = refused_caller} {t = refused_caller} (next start late) refl

abbrev meeting : UdtSocket
meeting = record client {
  connect_wait = true;
  sock_state = rendezvous;
  conn_timeout = some (30_000_000_000);
  conn_retry = some retry_period;
}

meets :
    start_rendezvous_connect 3 client
    ≡ some (
      tt,
      meeting,
      go_manage
          ∷ start_rendezvous
          ∷ cong_pkt_sent (handshake (handshake_packet client 0 hs_rendezvous))
          ∷ mux_send there 0 3 (handshake (handshake_packet client 0 hs_rendezvous))
          ∷ [],
    )
unfolding start_rendezvous_connect send_handshake
meets = refl

rendezvous_never_connects_example : Stuck meeting × (rendezvous ≢ connected)
rendezvous_never_connects_example =
    rendezvous_never_connects 3 client meeting meeting _ refl meets start

abbrev reading : ReadState
reading = record {
  message_in = some (6 ∷ 7 ∷ 8 ∷ []) ∷ [];
  curr_partial_read = none;
  deadline = false;
  deadline_passed = false;
}

read_stream-partial_example :
    read_stream none 2 (record reading { curr_partial_read = some (1 ∷ 2 ∷ 3 ∷ []) })
    ≡ done (1 ∷ 2 ∷ []) none (record reading { curr_partial_read = some (3 ∷ []) })
read_stream-partial_example =
    read_stream-partial none 2 (1 ∷ 2 ∷ 3 ∷ []) reading (omega arith) (omega arith)

-- The bytes 7 and 8 are lost.
read_stream-loses_example :
    read_stream none 3 (record reading {
      curr_partial_read = some (1 ∷ 2 ∷ []);
      message_in = some (6 ∷ 7 ∷ 8 ∷ []) ∷ [];
    })
    ≡ done (1 ∷ 2 ∷ 6 ∷ []) none (record reading { curr_partial_read = none; message_in = [] })
read_stream-loses_example =
    read_stream-loses none 3 (1 ∷ 2 ∷ []) (6 ∷ 7 ∷ 8 ∷ []) [] reading (omega arith) (omega arith)
      (omega arith) (omega arith)
