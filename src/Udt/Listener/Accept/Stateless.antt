-- ===== src/Udt/Listener/Accept/Stateless.antt =====
-- What the listener does for a peer that has shown no cookie.
use go_udt.Common.{
  ℕ, ◌^◌, ◌<◌, ◌≡◌, ◌⊎◌, inl, inr, refl, Bool, true, false, List, [], ◌∷◌, ◌++◌, some, ◌==◌,
  Bool-cases, arith,
}
use go_udt.Common.Run.{ok}
use go_udt.Packet.PktSeq.{PacketId}
use go_udt.Packet.Handshake.{HandshakePacket}
use go_udt.Packet.Any
use go_udt.Packet.Any.{handshake}
use go_udt.Udt.Address.{UdpAddr}
use go_udt.Udt.Socket.State.{hs_request}
use go_udt.Udt.Listener.SynCookie.{cookie_of, is_accepted, check_syn_cookie}
use go_udt.Udt.Listener.SynCookie.Epochs.{gen_syn_cookie-any_address}
use go_udt.Udt.Monad.{◌>>=◌, ◌>>◌}
use go_udt.Udt.Listener.Accept.{cookie_packet, read_handshake}
use go_udt.Udt.Listener.State.{AcceptState, AcceptEffect, pkt_out, send_packet}

send_packet-handshake :
    (dest_addr : UdpAddr) (dest_sock_id ts : ℕ) (p : HandshakePacket) (s : AcceptState)
    → send_packet dest_addr dest_sock_id ts (handshake p) s
      ≡ some (tt, s, pkt_out dest_addr (Any.set_header (handshake p) dest_sock_id ts) ∷ [])
unfolding send_packet
send_packet-handshake dest_addr dest_sock_id ts p s = elim (Bool-cases (dest_sock_id == 0)) [
  | inl e ↦ rw (send_packet, e) refl
  | inr e ↦ rw (send_packet, e) refl
]

-- The answer to a first handshake, as it goes out.
abbrev pub reply : HandshakePacket → UdpAddr → ℕ → AcceptEffect
unfolding Any.set_header
reply p from cookie =
    pkt_out from (Any.set_header (handshake (cookie_packet p from cookie)) p.sock_id 0)

module _ (sum : List ℕ → List ℕ)
    (appends : (b : List ℕ) → (digest : List ℕ) × (sum b ≡ b ++ digest)) (seq : PacketId)
    (ts : ℕ → ℕ) (now : ℕ) (p : HandshakePacket) (from : UdpAddr) (s : AcceptState)
    (fits : s.cookies.syn_cookie < 2 ^ 32) where
  -- The cookie that the listener makes.
  abbrev its_cookie : ℕ
  its_cookie = cookie_of s.cookies.syn_epoch s.cookies.syn_cookie

  request-replies :
      (p.req_type == hs_request) ≡ true
      → read_handshake sum seq ts now p from s ≡ some (true, s, reply p from its_cookie ∷ [])
  unfolding read_handshake reply
  request-replies e =
      rw
        (
          read_handshake,
          e,
          gen_syn_cookie-any_address sum appends s.cookies from fits,
          ◌>>◌,
          ◌>>=◌,
          send_packet-handshake from p.sock_id 0 (cookie_packet p from its_cookie) s,
        )
        refl

  check_syn_cookie-is_accepted :
      check_syn_cookie sum p.syn_cookie s.cookies from
      ≡ ok (is_accepted s.cookies.syn_epoch its_cookie p.syn_cookie, its_cookie)
  unfolding check_syn_cookie
  check_syn_cookie-is_accepted =
      rw (check_syn_cookie, gen_syn_cookie-any_address sum appends s.cookies from fits) refl

  unaccepted-ignored :
      (p.req_type == hs_request) ≡ false
      → is_accepted s.cookies.syn_epoch its_cookie p.syn_cookie ≡ false
      → read_handshake sum seq ts now p from s ≡ some (false, s, [])
  unfolding read_handshake
  unaccepted-ignored e refused = rw (read_handshake, e, check_syn_cookie-is_accepted, refused) refl

  -- With a hash that appends, a handshake that is a request, or whose cookie is not accepted, leaves
  -- the listener and its multiplexer as they are: the handler returns, and sends at most one packet,
  -- to the address that the handshake came from.
  pub read_handshake-stateless :
      (p.req_type ≡ hs_request) ⊎ (is_accepted s.cookies.syn_epoch its_cookie p.syn_cookie ≡ false)
      → (answered : Bool) × (es : List AcceptEffect) × (read_handshake sum seq ts now p from s
          ≡ some (answered, s, es))
        × ((es ≡ []) ⊎ (es ≡ reply p from its_cookie ∷ []))
  read_handshake-stateless h = elim (Bool-cases (p.req_type == hs_request)) [
    | inl e ↦ (true, _, request-replies e, inr refl)
    | inr e ↦ elim h [
      | inl e' ↦ absurd (ground (arith, e, e'))
      | inr refused ↦ (false, [], unaccepted-ignored e refused, inl refl)
    ]
  ]
