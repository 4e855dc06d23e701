-- ===== src/Udt/Mux/Route/Store.antt =====
-- That the calls of the multiplexer leave the sockets alone (udt/multiplexer.go).
use go_udt.Common.{ℕ, Bool, List, [], ◌∷◌, some, ◌≡◌, sym, ap, ◌∙◌, arith}
use go_udt.Udt.Address.{UdpAddr}
use go_udt.Udt.Socket.State as Sock
use go_udt.Udt.Listener.State.{AcceptEffect, pkt_out, of_socket}
use go_udt.Udt.Monad.{bind-eq-some}
use go_udt.Udt.Mux.State.{
  Multiplexer, MuxEffect, close_socket, check_live, tear_down, start_rendezvous, end_rendezvous,
  send_out, send_packet, return,
}
use go_udt.Udt.Mux.Route.{call, peer_of, deliver_one, deliver}

close_socket-store :
    (id : ℕ) (s t : Multiplexer) (b : Bool) (es : List MuxEffect)
    → close_socket id s ≡ some (b, t, es)
    → t.accept.store ≡ s.accept.store
unfolding close_socket check_live tear_down
close_socket-store id s t b es e = ground arith

call-store :
    (peer : UdpAddr) (at : ℕ) (eff : Sock.Effect) (s t : Multiplexer) (es : List MuxEffect)
    → call peer at eff s ≡ some (tt, t, es)
    → t.accept.store ≡ s.accept.store
unfolding call send_packet send_out start_rendezvous end_rendezvous
call-store peer at (Sock.mux_send dest id ts p) s t es e = ground arith
call-store peer at Sock.start_rendezvous s t es e = ground arith
call-store peer at Sock.end_rendezvous s t es e = ground arith
call-store peer at (Sock.close_socket id) s t es e =
    let (b, u, fs, gs, closed, rest, _) = bind-eq-some (close_socket id) (λ _. return tt) s e in
    let same : u ≡ t = ground arith in
    ap (λ r. r.accept.store) (sym same) ∙ close_socket-store id s u b fs closed
call-store peer at _ s t es e = ground arith

peer_of-state :
    (at : ℕ) (s t : Multiplexer) {peer : UdpAddr} {es : List MuxEffect}
    → peer_of at s ≡ some (peer, t, es)
    → t ≡ s
unfolding peer_of
peer_of-state at s t e = ground arith

deliver_one-store :
    (eff : AcceptEffect) (s t : Multiplexer) (es : List MuxEffect)
    → deliver_one eff s ≡ some (tt, t, es)
    → t.accept.store ≡ s.accept.store
unfolding deliver_one peer_of send_out
deliver_one-store (pkt_out dest p) s t es e = ground arith
deliver_one-store (of_socket at eff) s t es e =
    let (peer, u, fs, gs, found, called, _) =
      bind-eq-some (peer_of at) (λ peer. call peer at eff) s e in
    call-store peer at eff u t gs called ∙ ap (λ r. r.accept.store) (peer_of-state at s u found)
deliver_one-store _ s t es e = ground arith

pub deliver-store :
    (effs : List AcceptEffect) (s t : Multiplexer) (es : List MuxEffect)
    → deliver effs s ≡ some (tt, t, es)
    → t.accept.store ≡ s.accept.store
unfolding deliver
deliver-store [] s t es e = ground arith
deliver-store (eff ∷ effs) s t es e =
    let (_, u, fs, gs, first, rest, _) = bind-eq-some (deliver_one eff) (λ _. deliver effs) s e in
    deliver-store effs u t gs rest ∙ deliver_one-store eff s u fs first
