-- ===== src/Udt/Socket/Write/Outcome.antt =====
-- What Write returns and leaves, and the deadline behind it (udt/udtsocket.go).
use go_udt.Common.{
  ℕ, ◌≤◌, ◌<◌, Bool, true, false, List, [], ◌∷◌, ◌++◌, Option, none, some, length, length-append,
  Bool-cases, ◌≡◌, ◌≢◌, ◌⊎◌, inl, inr, refl, sym, ap, ◌∙◌, subst, arith,
}
use go_udt.Udt.Send.State.{SendMessage}
use go_udt.Udt.Socket.State.{SockState, init, refused, corrupted, closed}
use go_udt.Udt.Socket.Deadline.{
  Timer, running, fired, spent, Deadline, blocks, set_deadline, stopped, is_before,
}
use go_udt.Udt.Socket.Write.{
  timed_out, connection, WriteState, WriteResult, done, blocked, panics, capacity, has_fired,
  can_send, enqueue, time_out, select, write_loop, write,
}

abbrev pub message : ℕ → List ℕ → SendMessage
message now p = record { content = p; tim = now; ttl = 0 }

-- The states that Write refuses to write in.
abbrev pub IsRefusing : SockState → Type 0
IsRefusing refused = Unit
IsRefusing corrupted = Unit
IsRefusing closed = Unit
IsRefusing _ = ⊥

-- The `select` is reached.
pub record Selects (st : SockState) (w : WriteState) : Type 0 where
  pub may_write : IsRefusing st → ⊥
  pub in_time : w.deadline.passed ≡ false

-- What a result of Write promises.
abbrev pub Promise : SockState → ℕ → List ℕ → WriteState → WriteResult → Type 0
Promise st now p w (done n none w') =
    Selects st w
    × (w.out_closed ≡ false)
    × (n ≡ length p)
    × (w' ≡ record w { message_out = w.message_out ++ message now p ∷ [] })
    × (length w'.message_out ≤ capacity)
Promise st now p w (done n (some timed_out) w') =
    (IsRefusing st → ⊥)
    × (n ≡ length p)
    × (((w.deadline.passed ≡ true) × (w' ≡ w))
        ⊎ ((w.deadline.passed ≡ false)
            × (w.deadline.timer ≡ some fired)
            × (w' ≡ record w { deadline = record { timer = some spent; passed = true } })))
Promise st now p w (done n (some (connection st')) w') =
    IsRefusing st × (n ≡ 0) × (w' ≡ w) × (st' ≡ st)
Promise st now p w blocked =
    Selects st w
    × (length w.message_out ≡ capacity)
    × (w.deadline.timer ≢ some fired)
    × (w.out_closed ≡ false)
Promise st now p w panics = Selects st w × (w.out_closed ≡ true)

fired_timer : (t : Option Timer) → has_fired t ≡ true → t ≡ some fired
fired_timer none e = absurd (cc)
fired_timer (some fired) e = refl
fired_timer (some _) e = absurd (cc)

module _ (st : SockState) (now : ℕ) (p : List ℕ) (w : WriteState) where
  enqueue-Promise :
      Selects st w
      → length w.message_out ≤ capacity
      → can_send w ≡ true
      → Promise st now p w (enqueue now p w)
  enqueue-Promise on room ready = elim (Bool-cases w.out_closed) [
    | inl over ↦
        let result : enqueue now p w ≡ panics = ground (arith, over) in
        subst (Promise st now p w) (sym result) (on, over)
    | inr going ↦
        let result : enqueue now p w
            ≡ done (length p) none
                (record w { message_out = w.message_out ++ message now p ∷ [] }) =
          ground (arith, going) in
        let free : length w.message_out < capacity = ground (arith, going) in
        subst (Promise st now p w) (sym result) (
          on,
          going,
          refl,
          refl,
          omega (arith, length-append {0} w.message_out (message now p ∷ [])),
        )
  ]

  time_out-Promise :
      Selects st w → has_fired w.deadline.timer ≡ true → Promise st now p w (time_out p w)
  time_out-Promise on came =
      (on.may_write, refl, inr (on.in_time, fired_timer w.deadline.timer came, refl))

  select-Promise :
      (first send_ready fire_ready : Bool)
      → Selects st w
      → length w.message_out ≤ capacity
      → can_send w ≡ send_ready
      → has_fired w.deadline.timer ≡ fire_ready
      → Promise st now p w (select first send_ready fire_ready now p w)
  unfolding select
  select-Promise true true true on room ready came = enqueue-Promise on room ready
  select-Promise false true true on room ready came = time_out-Promise on came
  select-Promise _ true false on room ready came = enqueue-Promise on room ready
  select-Promise _ false true on room ready came = time_out-Promise on came
  select-Promise _ false false on room ready came =
      (on, ground arith, λ e. ground arith, ground arith)

  write_loop-Promise :
      (first : Bool)
      → (IsRefusing st → ⊥)
      → length w.message_out ≤ capacity
      → Promise st now p w (write_loop first now p w)
  unfolding write_loop
  write_loop-Promise first may room = elim (Bool-cases w.deadline.passed) [
    | inl over ↦
        let result : write_loop first now p w ≡ done (length p) (some timed_out) w =
          ground (arith, over) in
        subst (Promise st now p w) (sym result) (may, refl, inl (over, refl))
    | inr going ↦
        let result : write_loop first now p w
            ≡ select first (can_send w) (has_fired w.deadline.timer) now p w =
          ground (arith, going) in
        let on : Selects st w = record { may_write = may; in_time = going } in
        subst (Promise st now p w) (sym result)
          (select-Promise first (can_send w) (has_fired w.deadline.timer) on room refl refl)
  ]

-- Write on every branch, with at most 256 messages on the channel. On a refused, corrupted or closed
-- connection 0 and the error are returned, and nothing changes; so they are on no other. Where the
-- deadline has passed, or comes while Write waits, nothing is queued, and a timeout is returned with
-- the number of all bytes. Otherwise: with no error all bytes of the buffer are queued as one message
-- at the end of the open channel, which stays within its 256 places; Write blocks only while the
-- channel is open and full and the deadline has not come; and it panics only where the channel has
-- been closed.
pub write-Promise :
    (first : Bool) (st : SockState) (now : ℕ) (p : List ℕ) (w : WriteState)
    → length w.message_out ≤ capacity
    → Promise st now p w (write first st now p w)
unfolding write
write-Promise first refused now p w room = (tt, refl, refl, refl)
write-Promise first corrupted now p w room = (tt, refl, refl, refl)
write-Promise first closed now p w room = (tt, refl, refl, refl)
write-Promise first init now p w room = write_loop-Promise init now p w first (λ b. b) room
write-Promise first st now p w room = write_loop-Promise st now p w first (λ b. b) room

module _ (now : ℕ) (p : List ℕ) (w w' : WriteState) (n : ℕ) where
  enqueue-ne-timed_out : enqueue now p w ≢ done n (some timed_out) w'
  enqueue-ne-timed_out e = ground arith

  time_out-deadline :
      time_out p w ≡ done n (some timed_out) w'
      → w'.deadline ≡ record { timer = some spent; passed = true }
  time_out-deadline e = ground arith

  select-deadline :
      (first send_ready fire_ready : Bool)
      → select first send_ready fire_ready now p w ≡ done n (some timed_out) w'
      → w'.deadline ≡ record { timer = some spent; passed = true }
  unfolding select
  select-deadline true true true e = absurd (enqueue-ne-timed_out e)
  select-deadline false true true e = time_out-deadline e
  select-deadline _ true false e = absurd (enqueue-ne-timed_out e)
  select-deadline _ false true e = time_out-deadline e
  select-deadline _ false false e = absurd (ground arith)

  write_loop-deadline :
      (first : Bool)
      → w.deadline.passed ≡ false
      → write_loop first now p w ≡ done n (some timed_out) w'
      → w'.deadline ≡ record { timer = some spent; passed = true }
  unfolding write_loop
  write_loop-deadline first fresh e =
      let result : write_loop first now p w
          ≡ select first (can_send w) (has_fired w.deadline.timer) now p w =
        ground (arith, fresh) in
      select-deadline first (can_send w) (has_fired w.deadline.timer) (sym result ∙ e)

  -- A Write that times out has taken the time off the timer's channel.
  write-deadline :
      (first : Bool) (st : SockState)
      → w.deadline.passed ≡ false
      → write first st now p w ≡ done n (some timed_out) w'
      → w'.deadline ≡ record { timer = some spent; passed = true }
  unfolding write
  write-deadline first refused fresh e = absurd (ground arith)
  write-deadline first corrupted fresh e = absurd (ground arith)
  write-deadline first closed fresh e = absurd (ground arith)
  write-deadline first init fresh e = write_loop-deadline first fresh e
  write-deadline first _ fresh e = write_loop-deadline first fresh e

-- A deadline that is set can not be set again, nor be cleared, unless its time has come and nobody has
-- noticed: while it runs, and once a Write that found it not yet passed has returned its timeout, the
-- next SetWriteDeadline blocks for ever, for any time, also for the zero time.
pub set_deadline-blocks :
    (first : Bool) (st : SockState) (now : ℕ) (p : List ℕ) (w w' : WriteState) (n : ℕ)
    → w.deadline.passed ≡ false
    → write first st now p w ≡ done n (some timed_out) w'
    → (dl : Option ℕ) (later : ℕ)
    → ((d : Deadline) × (set_deadline dl later w'.deadline ≡ blocks d))
      × ((d : Deadline) × (set_deadline dl later (record { timer = some running; passed = false })
            ≡ blocks d))
unfolding set_deadline
set_deadline-blocks first st now p w w' n fresh e dl later = (
  (
    record { timer = stopped dl; passed = true },
    ap (set_deadline dl later) (write-deadline now p w w' n first st fresh e),
  ),
  (record { timer = stopped dl; passed = is_before dl later }, refl),
)
