-- ===== src/Examples/Supervisors.antt =====
-- A one-for-one supervisor of two children.
use mm.Shared.{ℕ, ◌≡◌, refl, List, [], ◌∷◌, Option, some, none, true, false, arith, ℕ_discrete, All}
use mm.Sup.Intensity.{RestartIntensity, report_exit, cutoff}
use mm.Sup.Intensity.Window.{report_exit-forgets}
use mm.Sup.Child.{ChildType, permanent, transient, Action, is_acceptable}
use mm.Sup.OneForOne.{
  Status, Target, SupStatus, State, Decider, next_action, exited, consider, scan, is_gone, holder,
  holds, modify_holder,
}
use mm.Sup.OneForOne.Shutdown.{IsClosing, AllStopped, is_stop_or_quit, next_action-quit}
use mm.Sup.OneForOne.Run.{exited_call, next_call, step, Run, here, call, Run-IsClosing}

abbrev twice_a_minute : RestartIntensity
twice_a_minute = record { max_restarts = 2; within = 60 }

abbrev thrice_ever : RestartIntensity
thrice_ever = record { max_restarts = 3; within = 1000000 }

report_exit-forgets_example : report_exit thrice_ever (10 ∷ 20 ∷ 30 ∷ 40 ∷ []) 50 ≡ (50 ∷ [], true)
report_exit-forgets_example =
    report_exit-forgets thrice_ever (10 ∷ 20 ∷ 30 ∷ 40 ∷ []) 50 (omega arith) (omega arith)
      (omega arith)

abbrev child : ChildType → Status → State
child t s = record { child_type = t; status = s; target = Target.running }

abbrev pair_of : SupStatus → Status → Status → Decider ℕ
pair_of sup s t = record {
  restart_intensity = twice_a_minute;
  restart_stats = [];
  states = (1, child permanent s) ∷ (2, child transient t) ∷ [];
  orphans = [];
  status = sup;
}

abbrev stopping_pair : Decider ℕ
stopping_pair = pair_of (SupStatus.stopping true) (Status.running 11) (Status.running 12)

abbrev stopped_pair : Decider ℕ
stopped_pair = pair_of (SupStatus.stopping false) Status.stopped Status.stopped

abbrev fresh_pair : Decider ℕ
fresh_pair = pair_of SupStatus.starting (Status.running 11) (Status.running 12)

next_action-quit_example :
    (stopped_pair.status ≡ SupStatus.stopping false)
    × (stopped_pair.orphans ≡ [])
    × AllStopped stopped_pair.states
    × (SupStatus.stopped ≡ SupStatus.stopped)
unfolding next_action consider scan is_gone
next_action-quit_example =
    next_action-quit stopped_pair (record stopped_pair { status = SupStatus.stopped }) 7 false refl

-- While the supervisor stops, one child is stopped and the other crashes by itself.
abbrev closing_acts : List (Option (Action ℕ))
closing_acts = some (Action.stop 12 (some 2)) ∷ none ∷ none ∷ some (Action.quit true) ∷ []

abbrev closed_pair : Decider ℕ
closed_pair = record (pair_of SupStatus.stopped Status.stopped Status.stopped) {
  restart_stats = 5 ∷ [];
}

closing-Run : Run ℕ_discrete stopping_pair closing_acts closed_pair
unfolding step next_action consider scan is_gone exited holder holds modify_holder is_acceptable
    report_exit cutoff
closing-Run = call (next_call 0) _ refl (
    call (exited_call 11 false 5) _ refl
      (call (exited_call 12 true 6) _ refl (call (next_call 7) _ refl here)))

Run-IsClosing_example :
    IsClosing closed_pair.status × All (λ a. is_stop_or_quit a ≡ true) closing_acts
Run-IsClosing_example = Run-IsClosing ℕ_discrete {d = stopping_pair} tt closing-Run
