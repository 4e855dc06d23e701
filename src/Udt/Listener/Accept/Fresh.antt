-- ===== src/Udt/Listener/Accept/Fresh.antt =====
-- A new socket of the listener, and what a handshake from its peer makes of it.
use go_udt.Common.{
  ℕ, ◌≡◌, refl, ap, ◌∙◌, true, List, [], ◌∷◌, ◌++◌, some, length, get_elem?, set, ◌==◌,
}
use go_udt.Packet.PktSeq.{PacketId}
use go_udt.Packet.Handshake.{HandshakePacket}
use go_udt.Udt.Address.{UdpAddr, same_addr_refl}
use go_udt.Udt.Monad.{after}
use go_udt.Udt.Socket.State
use go_udt.Udt.Socket.State.{connected, UdtSocket, Config, hs_request, type_dgram}
use go_udt.Udt.Socket.Handshake
use go_udt.Udt.Socket.Handshake.{limit_mtu, set_connected, check_valid_handshake}

pub get_elem?-append_one :
    {A : Type 0} (xs : List A) (x : A) → get_elem? (xs ++ x ∷ []) (length xs) ≡ some x
get_elem?-append_one [] x = refl
get_elem?-append_one (y ∷ xs) x = get_elem?-append_one xs x

pub set-append_one :
    {A : Type 0} (xs : List A) (x y : A) → set (xs ++ x ∷ []) (length xs) y ≡ xs ++ y ∷ []
set-append_one [] x y = refl
set-append_one (z ∷ xs) x y = ap (◌∷◌ z) (set-append_one xs x y)

-- A socket of the listener, and what a handshake from its peer makes of it.
module _ (mtu : ℕ) (seq : PacketId) (config : Config) (sid : ℕ) (p : HandshakePacket)
    (from : UdpAddr) where
  abbrev pub fresh : UdtSocket
  fresh = State.new_socket mtu seq config sid true (p.sock_type == type_dgram) from

  abbrev pub agreed : UdtSocket
  agreed = set_connected (
      limit_mtu p (record fresh {
        init_pkt_seq = p.init_pkt_seq;
        udt_ver = p.udt_ver;
        far_sock_id = p.sock_id;
        is_datagram = p.sock_type == type_dgram;
      }))

  pub fresh-valid : check_valid_handshake fresh ≡ true
  unfolding check_valid_handshake State.new_socket
  fresh-valid = refl

  fresh-accepts :
      (ts : ℕ)
      → (es : List State.Effect) × (Handshake.accept_client ts p fresh ≡ some (true, agreed, es))
  unfolding Handshake.accept_client State.new_socket
  fresh-accepts ts = (_, refl)

  pub fresh-agrees :
      (ts : ℕ)
      → (es : List State.Effect) × (Handshake.read_handshake ts p from fresh
          ≡ some (true, agreed, es))
  unfolding Handshake.read_handshake State.new_socket
  fresh-agrees ts =
      let (es, runs) = fresh-accepts ts in
      (es, rw (Handshake.read_handshake, same_addr_refl from) (ap (after []) runs ∙ refl))
