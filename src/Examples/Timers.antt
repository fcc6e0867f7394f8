-- ===== src/Examples/Timers.antt =====
-- A timer server with two messages scheduled.
use mm.Shared.{ℕ, ◌≡◌, List, ◌++◌, some, Bool, true, ltb, map, length, ◌⊎◌}
use mm.Shared.SlotMap.{SlotMap, vacant_slots}
use mm.Timer.{Entry, TimerState, default, schedule, on_time}
use mm.Timer.Invariant.{IsValid, default-IsValid, schedule-IsValid}
use mm.Timer.Runs.{Reach, fresh, scheduled}
use mm.Timer.Firing.{due, message_of, first_ok, GoesOn, Ends, on_time-sends}

abbrev slots : SlotMap (Entry ℕ)
slots = vacant_slots (Entry ℕ)

abbrev one : TimerState slots ltb
one = (schedule slots ltb (default slots ltb) 20 100).0

abbrev two : TimerState slots ltb
two = (schedule slots ltb one 10 200).0

one-IsValid : IsValid slots ltb one
one-IsValid = schedule-IsValid slots ltb (default slots ltb) 20 100 (default-IsValid slots ltb)

two-IsValid : IsValid slots ltb two
two-IsValid = schedule-IsValid slots ltb one 10 200 one-IsValid

-- Only the first send succeeds.
abbrev one_send : ℕ → Bool
one_send n = ltb n 1

on_time-sends_example :
    (sent : List ℕ) × (unsent : List ℕ) × (map (λ m. some m) (sent ++ unsent)
      ≡ map (message_of slots ltb two.entries) (due slots ltb 30 two.ordered))
    × (first_ok slots ltb one_send (length sent) ≡ true)
    × (GoesOn slots ltb 30 two.ordered (on_time slots ltb one_send two 30) sent unsent
        ⊎ Ends slots ltb one_send (on_time slots ltb one_send two 30) sent unsent)
on_time-sends_example = on_time-sends slots ltb one_send two 30 two-IsValid

reach : Reach slots ltb two
reach = scheduled one 10 200 (scheduled (default slots ltb) 20 100 fresh)
