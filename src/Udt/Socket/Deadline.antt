-- ===== src/Udt/Socket/Deadline.antt =====
-- setDeadline, SetDeadline, SetReadDeadline and SetWriteDeadline (udt/udtsocket.go).
--
-- A time.Timer runs, has put its time on its channel, or is spent: stopped, or its time has been
-- taken. As of Go 1.22, Stop does not touch the channel; a receive from one that stays empty blocks
-- for ever. A time is in nanoseconds, and `none` is the zero time.
use go_udt.Common.{ℕ, Bool, false, ◌||◌, Option, none, some, ltb, if◌then◌else◌}

pub data Timer : Type 0 where
  running fired spent : Timer

pub record Deadline : Type 0 where
  pub timer : Option Timer
  pub passed : Bool

-- A call that returns, and one that never does, with what it has stored until then.
pub data Outcome : Type 0 where
  returns : Deadline → Outcome
  blocks : Deadline → Outcome

-- `!dl.IsZero() && dl.Before(now)` and `!dl.IsZero() && dl.After(now)`
abbrev pub is_before : Option ℕ → ℕ → Bool
is_before none now = false
is_before (some dl) now = ltb dl now

abbrev pub is_after : Option ℕ → ℕ → Bool
is_after none now = false
is_after (some dl) now = ltb now dl

-- From `<-oldTime.C` on
unfoldable pub rearm : Option ℕ → ℕ → Timer → Deadline → Outcome
rearm dl now fired d =
    if is_after dl now then returns (record { timer = some running; passed = false }) else returns d
rearm dl now running d = blocks d
rearm dl now spent d = blocks d

-- `if dl.IsZero() { *timer = nil }`, where the timer is stopped
abbrev pub stopped : Option ℕ → Option Timer
stopped none = none
stopped (some dl) = some spent

unfoldable pub set_deadline : Option ℕ → ℕ → Deadline → Outcome
unfolding rearm
set_deadline dl now d = elim d.timer [
  | none ↦ elim dl [ none ↦ returns d | some t ↦ returns (record d { timer = some running }) ]
  | some t ↦ rearm dl now t (record { timer = stopped dl; passed = d.passed || is_before dl now })
]

pub record Deadlines : Type 0 where
  pub reading : Deadline
  pub writing : Deadline

-- SetDeadline: the second call is made where the first one returns.
pub data BothOutcome : Type 0 where
  both_return : Deadlines → BothOutcome
  one_blocks : Deadlines → BothOutcome

abbrev pub then_writing : Option ℕ → ℕ → Deadline → Outcome → BothOutcome
unfolding set_deadline
then_writing dl now w (blocks r) = one_blocks (record { reading = r; writing = w })
then_writing dl now w (returns r) = elim (set_deadline dl now w) [
  | returns w' ↦ both_return (record { reading = r; writing = w' })
  | blocks w' ↦ one_blocks (record { reading = r; writing = w' })
]

unfoldable pub set_both : Option ℕ → ℕ → Deadlines → BothOutcome
unfolding set_deadline
set_both dl now d = then_writing dl now d.writing (set_deadline dl now d.reading)

-- The timer's time comes.
unfoldable pub expire : Deadline → Deadline
expire d = record d { timer = elim d.timer [ some running ↦ some fired | t ↦ t ] }
