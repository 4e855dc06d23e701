-- ===== src/Udt/Socket/Write.antt =====
-- Write (udt/udtsocket.go).
--
-- The messages on the channel wait for the sender; it holds 256. Where both the channel has room and
-- the deadline has come, the `select` takes either: `first` says which. A write to a closed channel
-- panics.
pub mod Outcome
mod Tests
use go_udt.Common.{
  ℕ, Bool, true, false, List, [], ◌∷◌, ◌++◌, Option, none, some, length, ltb, if◌then◌else◌,
}
use go_udt.Udt.Send.State.{SendMessage}
use go_udt.Udt.Socket.State.{SockState, refused, corrupted, closed}
use go_udt.Udt.Socket.Deadline.{Timer, running, fired, spent, Deadline}

pub data WriteError : Type 0 where
  timed_out : WriteError
  connection : SockState → WriteError

pub record WriteState : Type 0 where
  pub message_out : List SendMessage
  pub out_closed : Bool
  pub deadline : Deadline

-- The number of bytes and the error that Write returns
pub data WriteResult : Type 0 where
  done : ℕ → Option WriteError → WriteState → WriteResult
  blocked panics : WriteResult

abbrev pub capacity : ℕ
capacity = 256

abbrev pub has_fired : Option Timer → Bool
has_fired (some fired) = true
has_fired _ = false

-- The two cases of the `select`
abbrev pub enqueue : ℕ → List ℕ → WriteState → WriteResult
enqueue now p w =
    if w.out_closed
    then panics
    else done (length p) none (record w {
      message_out = w.message_out ++ record { content = p; tim = now; ttl = 0 } ∷ [];
    })

abbrev pub time_out : List ℕ → WriteState → WriteResult
time_out p w =
    done (length p) (some timed_out)
      (record w { deadline = record { timer = some spent; passed = true } })

-- A send on a closed channel is ready, too.
abbrev pub can_send : WriteState → Bool
can_send w = if w.out_closed then true else ltb (length w.message_out) capacity

-- The `select`, where a send is ready, and where the timer's time can be taken
unfoldable pub select : Bool → Bool → Bool → ℕ → List ℕ → WriteState → WriteResult
select true true true now p w = enqueue now p w
select false true true now p w = time_out p w
select first true false now p w = enqueue now p w
select first false true now p w = time_out p w
select first false false now p w = blocked

unfoldable pub write_loop : Bool → ℕ → List ℕ → WriteState → WriteResult
unfolding select
write_loop first now p w =
    if w.deadline.passed
    then done (length p) (some timed_out) w
    else select first (can_send w) (has_fired w.deadline.timer) now p w

unfoldable pub write : Bool → SockState → ℕ → List ℕ → WriteState → WriteResult
unfolding write_loop
write first refused now p w = done 0 (some (connection refused)) w
write first corrupted now p w = done 0 (some (connection corrupted)) w
write first closed now p w = done 0 (some (connection closed)) w
write first _ now p w = write_loop first now p w
