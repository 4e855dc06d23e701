-- ===== src/Udt/Socket/Write/Tests.antt =====
-- Write and the deadlines at concrete states.
use go_udt.Common.{ℕ, true, false, List, [], ◌∷◌, none, some, ◌≡◌, refl, arith}
use go_udt.Udt.Socket.State.{connected}
use go_udt.Udt.Socket.Deadline.{
  running, fired, spent, Deadline, returns, blocks, set_deadline, set_both, both_return, expire,
}
use go_udt.Udt.Socket.Write.{timed_out, WriteState, done, panics, write}
use go_udt.Udt.Socket.Write.Outcome.{message, Promise, write-Promise, set_deadline-blocks}

-- A deadline that has come while nobody wrote.
abbrev due : WriteState
due = record {
  message_out = [];
  out_closed = false;
  deadline = record { timer = some fired; passed = false };
}

abbrev noticed : WriteState
noticed = record due { deadline = record { timer = some spent; passed = true } }

abbrev bytes : List ℕ
bytes = 1 ∷ 2 ∷ 3 ∷ []

-- With room on the channel, the deadline may still win.
late : write false connected 50 bytes due ≡ done 3 (some timed_out) noticed
unfolding write
late = refl

lucky :
    write true connected 50 bytes due
    ≡ done 3 none (record due { message_out = message 50 bytes ∷ [] })
unfolding write
lucky = refl

after_close : write true connected 50 bytes (record due { out_closed = true }) ≡ panics
unfolding write
after_close = refl

-- A first deadline, and one that is moved before it has come.
moved :
    (set_deadline (some 90) 50 (record { timer = none; passed = false })
      ≡ returns (record { timer = some running; passed = false }))
    × (set_deadline (some 99) 60 (record { timer = some running; passed = false })
        ≡ blocks (record { timer = some spent; passed = false }))
unfolding set_deadline
moved = (refl, refl)

-- Clearing a deadline that has come leaves it passed.
cleared :
    set_deadline none 95 (record { timer = some fired; passed = true })
    ≡ returns (record { timer = none; passed = true })
unfolding set_deadline
cleared = refl

abbrev unset : Deadline
unset = record { timer = none; passed = false }

both_set :
    set_both (some 90) 50 (record { reading = unset; writing = unset })
    ≡ both_return (record {
      reading = record { timer = some running; passed = false };
      writing = record { timer = some running; passed = false };
    })
unfolding set_both
both_set = refl

comes : (expire (record { timer = some running; passed = false })).timer ≡ some fired
unfolding expire
comes = refl

write-Promise_example : Promise connected 50 bytes due (write false connected 50 bytes due)
write-Promise_example = write-Promise false connected 50 bytes due (omega arith)

set_deadline-blocks_example :
    ((d : Deadline) × (set_deadline (some 90) 60 noticed.deadline ≡ blocks d))
    × ((d : Deadline) × (set_deadline (some 90) 60 (record { timer = some running; passed = false })
          ≡ blocks d))
set_deadline-blocks_example =
    set_deadline-blocks false connected 50 bytes due noticed 3 refl late (some 90) 60
