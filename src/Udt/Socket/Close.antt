-- ===== src/Udt/Socket/Close.antt =====
-- Close, up to `<-s.shutdownEvent`, beside the shutdown by goManageConnection and Write
-- (udt/udtsocket.go).
mod Tests
use go_udt.Common.{
  ℕ, Bool, true, false, List, some, ◌≡◌, ◌≢◌, refl, ap, ◌∙◌, sym, if◌then◌else◌, arith, Bool-cases,
  inl, inr, ltb, length,
}
use go_udt.Udt.Socket.Life.{Reach, Reach-Frozen}
use go_udt.Udt.Socket.State.{SockState, UdtSocket, Effect, is_open, is_open_state}
use go_udt.Udt.Socket.Manage.{shut_down, on_manage, shutdown_socket}
use go_udt.Udt.Socket.Handshake.{release_wait}
use go_udt.Udt.Socket.Deadline.{Timer, fired}
use go_udt.Udt.Socket.Write.{WriteState, select, write_loop, write}
use go_udt.Udt.Socket.Write

pub data CloseResult : Type 0 where
  closed_before waits panics : CloseResult

-- Whether messageOut is closed goes in and comes out; `close(s.messageOut)` panics where it is.
unfoldable pub close : UdtSocket → Bool → CloseResult × Bool
close s out_closed =
    if is_open s
    then (if out_closed then (panics, true) else (waits, true))
    else (closed_before, out_closed)

shut_down-state :
    (ts : ℕ) (state : SockState) (permit_linger goes_on : Bool) (s t : UdtSocket) (es : List Effect)
    → is_open s ≡ true
    → on_manage ts (shut_down state permit_linger) s ≡ some (goes_on, t, es)
    → t.sock_state ≡ state
unfolding on_manage shutdown_socket release_wait
shut_down-state ts state permit_linger goes_on s t es going e = elim (Bool-cases s.connect_wait) [
  | inl w ↦ ground (arith, w)
  | inr w ↦ ground (arith, w)
]

write-panics :
    (first : Bool) (st : SockState) (now : ℕ) (p : List ℕ) (w : WriteState)
    → is_open_state st ≡ true
    → w.out_closed ≡ true
    → w.deadline.passed ≡ false
    → w.deadline.timer ≢ some fired
    → write first st now p w ≡ Write.panics
unfolding write write_loop select
write-panics first st now p w going over fresh quiet = ground arith

-- Close of an open socket closes messageOut and waits for a message on shutdownEvent. Until the
-- goroutine has shut the socket down, a second Close panics, and so does a Write whose deadline has
-- not come. Once it has, for a message that names a state in which a socket is not open, and whatever
-- steps follow, Close returns at once and nothing is closed again.
pub close_again :
    (s closing u : UdtSocket) (first : Bool) (now ts : ℕ) (p : List ℕ) (w : WriteState)
    (state : SockState) (permit_linger goes_on : Bool) (es : List Effect)
    → is_open s ≡ true
    → w.out_closed ≡ (close s false).1
    → w.deadline.passed ≡ false
    → w.deadline.timer ≢ some fired
    → is_open_state state ≡ false
    → on_manage ts (shut_down state permit_linger) s ≡ some (goes_on, closing, es)
    → Reach closing u
    → (close s false ≡ (waits, true))
      × (close s (close s false).1 ≡ (panics, true))
      × (write first s.sock_state now p w ≡ Write.panics)
      × (close u (close s false).1 ≡ (closed_before, true))
unfolding close
close_again s closing u first now ts p w state permit_linger goes_on es going out fresh quiet ends
      handled run =
    let waiting : close s false ≡ (waits, true) = ground (arith, going) in
    let closed : w.out_closed ≡ true = out ∙ ap (λ r. r.1) waiting in
    let over : is_open closing ≡ false =
      ap is_open_state (shut_down-state ts state permit_linger goes_on s closing es going handled)
      ∙ ends in
    let still : is_open u ≡ false = ap is_open_state (Reach-Frozen run over).0 ∙ over in
    (
      waiting,
      ground (arith, going),
      write-panics first s.sock_state now p w going closed fresh quiet,
      ground (arith, going, still),
    )
