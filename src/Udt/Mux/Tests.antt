-- ===== src/Udt/Mux/Tests.antt =====
-- A multiplexer with two sockets.
use go_udt.Common.{
  All, ℕ, true, false, List, [], ◌∷◌, ◌++◌, replicate, none, some, get_elem?, ◌≡◌, ◌≢◌, refl, arith,
}
use go_udt.Common.Run.{ok}
use go_udt.Packet.Data
use go_udt.Packet.Any.{Packet, data_pkt, socket_id, read_packet_from}
use go_udt.Packet.Slice.{need}
use go_udt.Udt.Address.{UdpAddr, same_addr}
use go_udt.Udt.Socket.State as Sock
use go_udt.Udt.Socket.State.{UdtSocket, new_socket, connected}
use go_udt.Udt.Listener.State.{of_socket}
use go_udt.Udt.Mux.State.{
  Multiplexer, MuxEffect, of_accept, is_live, is_listener, load, delete, close_socket, unlisten_udt,
}
use go_udt.Udt.Mux.Life.{
  IsSane, Settles, Reach, here, next, closes, without, torn, torn_effects, Reach-Settles,
}
use go_udt.Udt.Mux.Listen.{
  AcceptChan, Handle, blocked, receive, accept, close, listen, new_handle, close_outcome,
}
use go_udt.Udt.Mux.Route.{Arrival, read_packet}
use go_udt.Udt.Mux.Route.Effects.{IsFor}
use go_udt.Udt.Mux.Route.Isolation.{no_peer, read_packet-stray, read_packet-isolated}

abbrev peer : UdpAddr
peer = record { ip = replicate 15 0 ++ 1 ∷ []; port = 9000 }

abbrev stranger : UdpAddr
stranger = record { ip = replicate 15 0 ++ 2 ∷ []; port = 9000 }

abbrev sock_at : ℕ → UdtSocket
sock_at id = record (new_socket 1500 7 Sock.default_config id false true peer) {
  sock_state = connected;
}

abbrev mux : Multiplexer
mux = record {
  accept = record {
    cookies = record { syn_epoch = 3; syn_cookie = 99 };
    config = record {
      sock = Sock.default_config;
      can_accept_dgram = true;
      can_accept_stream = true;
      listen_replay_window = 0;
      can_accept = none;
    };
    accept_hist = none;
    mtu = 1500;
    next_sid = 6;
    sockets = (6, 1) ∷ (7, 0) ∷ [];
    store = sock_at 7 ∷ sock_at 6 ∷ [];
  };
  listen_sock = none;
  rv_sockets = [];
  registered = true;
  torn_down = false;
}

abbrev arrival : UdpAddr → Arrival
arrival from = record {
  spare = [];
  from = from;
  now = 1000;
  seq = 5;
  ts = λ at. 20;
  sum = λ bytes. bytes;
}

-- A data packet for socket 7
abbrev datagram : List ℕ
datagram = 0 ∷ 0 ∷ 0 ∷ 5 ∷ 0 ∷ 0 ∷ 0 ∷ 1 ∷ 0 ∷ 0 ∷ 0 ∷ 0 ∷ 0 ∷ 0 ∷ 0 ∷ 7 ∷ 42 ∷ []

abbrev content : Packet
content = data_pkt (record { seq = 5; msg = 1; ts = 0; dst_sock_id = 7; content = 42 ∷ [] })

datagram_lem : (read_packet_from [] datagram).0 ≡ ok content
unfolding read_packet_from Data.read_from need
datagram_lem = refl

read_packet_lem :
    read_packet (arrival peer) datagram mux
    ≡ some (tt, mux, of_accept (of_socket 0 (Sock.recv_event content 1000)) ∷ [])
unfolding read_packet read_packet_from Data.read_from need new_socket socket_id
read_packet_lem = refl

read_packet-stray_example : read_packet (arrival stranger) datagram mux ≡ some (tt, mux, [])
unfolding load socket_id same_addr
read_packet-stray_example =
    read_packet-stray (arrival stranger) datagram mux (
      no_peer content 0 (sock_at 7) datagram_lem (omega arith) refl refl
        (unfold new_socket in refl))

read_packet-isolated_example :
    (get_elem? mux.accept.store 1 ≡ get_elem? mux.accept.store 1)
    × All (IsFor 0) (of_accept (of_socket 0 (Sock.recv_event content 1000)) ∷ [])
unfolding load socket_id
read_packet-isolated_example =
    read_packet-isolated (arrival peer) datagram mux mux content 0 1
      (of_accept (of_socket 0 (Sock.recv_event content 1000)) ∷ []) datagram_lem (omega arith) refl
      read_packet_lem (omega arith)

-- The last of two sockets ends the multiplexer, and closing it again is harmless; a socket that was
-- made in between is not.
abbrev over : Multiplexer
over = torn (without 7 (without 6 mux))

closed_twice :
    (close_socket 6 mux ≡ some (true, without 6 mux, []))
    × (close_socket 7 (without 6 mux) ≡ some (true, over, torn_effects))
    × (close_socket 7 over ≡ some (false, over, []))
    × (close_socket 8 (record over { accept = record over.accept { sockets = (8, 0) ∷ [] } })
        ≡ none)
unfolding close_socket delete
closed_twice = (refl, refl, refl, refl)

mux-IsSane : IsSane mux
unfolding is_live
mux-IsSane = record { over = λ down. cc; known = λ up. refl }

both_closed : Reach mux over
unfolding close_socket delete
both_closed =
    next (next here (closes mux (without 6 mux) 6 true [] refl))
      (closes (without 6 mux) over 7 true torn_effects refl)

Reach-Settles_example : IsSane over × Settles (close_socket 7 over) × Settles (unlisten_udt 3 over)
Reach-Settles_example = Reach-Settles 7 3 both_closed mux-IsSane

listened :
    listen 3 99 3 mux.accept.config mux
    ≡ some (some (new_handle 3), record mux { listen_sock = some 3 }, [])
unfolding listen
listened = refl

in_use :
    listen 4 98 2 mux.accept.config (record mux { listen_sock = some 3 })
    ≡ some (none, record mux { listen_sock = some 3 }, [])
unfolding listen
in_use = refl

abbrev no_more : AcceptChan
no_more = record { queued = []; is_closed = true }

close_outcome_example :
    (l' : Handle) × (t : Multiplexer) × (es : List MuxEffect) × (close (new_handle 3) mux
      ≡ some ((true, l', some no_more), t, es))
    × IsSane t
    × (is_listener t.listen_sock 3 ≡ false)
    × (receive (some no_more) ≢ blocked)
    × (accept l' ≡ blocked)
    × (close l' t ≡ some ((false, l', none), t, []))
close_outcome_example =
    close_outcome (new_handle 3) (record { queued = []; is_closed = false }) false mux mux-IsSane
      refl refl
