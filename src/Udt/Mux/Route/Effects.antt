-- ===== src/Udt/Mux/Route/Effects.antt =====
-- What the multiplexer puts on the sockets' channels for one of them (udt/multiplexer.go).
use go_udt.Common.{
  ℕ, Bool, true, not, ◌&&◌, ◌==◌, All, subst, List, [], ◌∷◌, ◌++◌, some, Option-cases, Bool-cases,
  inl, inr, ◌≡◌, refl, sym, arith,
}
use go_udt.Packet.Any
use go_udt.Udt.Address.{UdpAddr}
use go_udt.Udt.Socket.State as Sock
use go_udt.Udt.Listener.State.{is_handshake, pkt_out, of_socket, accepted}
use go_udt.Udt.Listener.Accept
use go_udt.Udt.Monad.{after-nil, bind-eq-some}
use go_udt.Udt.Mux.State.{
  Multiplexer, MuxEffect, of_accept, close_conn, close_pkt_out, is_live, load, delete, tear_down,
  check_live, close_socket, start_rendezvous, end_rendezvous, send_out, send_packet, return, ◌>>◌,
}
use go_udt.Udt.Mux.Route.{call, peer_of, deliver_one, deliver}

-- What goes to a socket goes to the one at `at`.
abbrev pub IsFor : ℕ → MuxEffect → Type 0
IsFor at (of_accept (pkt_out dest p)) = Unit
IsFor at (of_accept (of_socket i e)) = i ≡ at
IsFor at (of_accept (accepted i)) = ⊥
IsFor at close_conn = Unit
IsFor at close_pkt_out = Unit

pub All-append :
    (at : ℕ) (xs ys : List MuxEffect)
    → All (IsFor at) xs
    → All (IsFor at) ys
    → All (IsFor at) (xs ++ ys)
All-append at [] ys none_yet rest = rest
All-append at (x ∷ xs) ys (first, more) rest = (first, All-append at xs ys more rest)

to_All : (at : ℕ) {es fs : List MuxEffect} → es ≡ fs → All (IsFor at) es → All (IsFor at) fs
to_All at same ok = subst (All (IsFor at)) same ok

tear_down-IsFor :
    (at : ℕ) (s t : Multiplexer) (b : Bool) (es : List MuxEffect)
    → tear_down s ≡ some (b, t, es)
    → All (IsFor at) es
unfolding tear_down
tear_down-IsFor at s t b es e = elim (Bool-cases s.torn_down) [
  | inl over ↦ absurd (ground (arith, over))
  | inr going ↦
      let made : close_conn ∷ close_pkt_out ∷ [] ≡ es = ground (arith, going) in
      to_All at made (tt, (tt, tt))
]

check_live-IsFor :
    (at : ℕ) (s t : Multiplexer) (b : Bool) (es : List MuxEffect)
    → check_live s ≡ some (b, t, es)
    → All (IsFor at) es
unfolding check_live
check_live-IsFor at s t b es e = elim (Bool-cases (is_live s)) [
  | inl live ↦ let made : [] ≡ es = ground (arith, live) in to_All at made tt
  | inr idle ↦
      let out : tear_down s ≡ some (b, t, es) = ground (arith, idle, after-nil (tear_down s)) in
      tear_down-IsFor at s t b es out
]

close_socket-IsFor :
    (at id : ℕ) (s t : Multiplexer) (b : Bool) (es : List MuxEffect)
    → close_socket id s ≡ some (b, t, es)
    → All (IsFor at) es
unfolding close_socket
close_socket-IsFor at id s t b es e = elim (Option-cases (load id s.accept.sockets)) [
  | inl missing ↦ let made : [] ≡ es = ground (arith, missing) in to_All at made tt
  | inr (i, known) ↦
      let kept : Multiplexer = record s {
        accept = record s.accept { sockets = delete id s.accept.sockets };
      } in
      let out : (check_live >> return true) kept ≡ some (b, t, es) =
        ground (arith, known, after-nil ((check_live >> return true) kept)) in
      let (live, u, fs, gs, checked, rest, both) =
        bind-eq-some check_live (λ _. return true) kept out in
      let nothing : [] ≡ gs = ground arith in
      to_All at (sym both)
        (All-append at fs gs (check_live-IsFor at kept u live fs checked) (to_All at nothing tt))
]

pub call-IsFor :
    (peer : UdpAddr) (at : ℕ) (eff : Sock.Effect) (s t : Multiplexer) (es : List MuxEffect)
    → call peer at eff s ≡ some (tt, t, es)
    → All (IsFor at) es
unfolding call send_packet send_out start_rendezvous end_rendezvous
call-IsFor peer at (Sock.mux_send dest id ts p) s t es e =
    elim (Bool-cases ((id == 0) && not (is_handshake p))) [
      | inl bad ↦ absurd (ground (arith, bad))
      | inr good ↦ elim (Bool-cases s.torn_down) [
        | inl over ↦ absurd (ground (arith, good, over))
        | inr going ↦
            let made : of_accept (pkt_out dest (Any.set_header p id ts)) ∷ [] ≡ es =
              ground (arith, good, going) in
            to_All at made (tt, tt)
      ]
    ]
call-IsFor peer at Sock.start_rendezvous s t es e =
    let made : [] ≡ es = ground arith in to_All at made tt
call-IsFor peer at Sock.end_rendezvous s t es e =
    let made : [] ≡ es = ground arith in to_All at made tt
call-IsFor peer at (Sock.close_socket id) s t es e =
    let (b, u, fs, gs, closed, rest, both) = bind-eq-some (close_socket id) (λ _. return tt) s e in
    let nothing : [] ≡ gs = ground arith in
    to_All at (sym both)
      (All-append at fs gs (close_socket-IsFor at id s u b fs closed) (to_All at nothing tt))
call-IsFor peer at eff s t es e =
    let made : of_accept (of_socket at eff) ∷ [] ≡ es = ground arith in to_All at made (refl, tt)

deliver_one-IsFor :
    (at : ℕ) (eff : Sock.Effect) (s t : Multiplexer) (es : List MuxEffect)
    → deliver_one (of_socket at eff) s ≡ some (tt, t, es)
    → All (IsFor at) es
unfolding deliver_one peer_of
deliver_one-IsFor at eff s t es e =
    let (peer, u, fs, gs, found, called, both) =
      bind-eq-some (peer_of at) (λ peer. call peer at eff) s e in
    let nothing : [] ≡ fs = ground arith in
    to_All at (sym both)
      (All-append at fs gs (to_All at nothing tt) (call-IsFor peer at eff u t gs called))

pub deliver-IsFor :
    (at : ℕ) (effs : List Sock.Effect) (s t : Multiplexer) (es : List MuxEffect)
    → deliver (Accept.sock_effects at effs) s ≡ some (tt, t, es)
    → All (IsFor at) es
unfolding deliver
deliver-IsFor at [] s t es e = let made : [] ≡ es = ground arith in to_All at made tt
deliver-IsFor at (eff ∷ effs) s t es e =
    let (_, u, fs, gs, first, rest, both) =
      bind-eq-some (deliver_one (of_socket at eff)) (λ _. deliver (Accept.sock_effects at effs)) s
        e in
    to_All at (sym both) (
      All-append at fs gs (deliver_one-IsFor at eff s u fs first)
        (deliver-IsFor at effs u t gs rest))
