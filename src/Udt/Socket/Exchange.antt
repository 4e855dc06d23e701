-- ===== src/Udt/Socket/Exchange.antt =====
-- The end of a handshake: a connecting client and a server that accepts it come to agree.
use go_udt.Common.{ℕ, true, false, ◌==◌}
use go_udt.Packet.Header.{CtrlHeader}
use go_udt.Packet.Handshake.{HandshakePacket}
use go_udt.Udt.Socket.State.{init, connecting, UdtSocket, hs_response, type_dgram}
use go_udt.Udt.Socket.Handshake.{handshake_packet, limit_mtu, set_connected}

-- A client that connects, and a server's socket for it, with any other fields.
module _ (client server : UdtSocket) (cookie : ℕ) (hdr : CtrlHeader) where
  abbrev pub client_at : UdtSocket
  client_at = record client { sock_state = connecting; udt_ver = 4; connect_wait = true }

  abbrev pub server_at : UdtSocket
  server_at = record server { sock_state = init }

  -- The client's answer to the cookie, as it arrives.
  abbrev pub answer : HandshakePacket
  answer = record (handshake_packet client_at cookie hs_response) { hdr = hdr }

  -- The server's socket behind it.
  abbrev pub accepted : UdtSocket
  accepted = set_connected (
      limit_mtu answer (record server_at {
        init_pkt_seq = answer.init_pkt_seq;
        udt_ver = answer.udt_ver;
        far_sock_id = answer.sock_id;
        is_datagram = answer.sock_type == type_dgram;
      }))

  abbrev pub confirmation : HandshakePacket
  confirmation = handshake_packet accepted cookie hs_response

  abbrev pub confirmed : CtrlHeader → HandshakePacket
  confirmed hdr' = record confirmation { hdr = hdr' }

  abbrev pub joined : CtrlHeader → UdtSocket
  joined hdr' =
      record (set_connected
        (limit_mtu (confirmed hdr') (record client_at { far_sock_id = server.sock_id }))) {
          connect_wait = false;
        }
