-- ===== src/Examples/Groups.antt =====
-- An all-for-one supervisor of two children.
use mm.Shared.{ℕ, ◌≡◌, refl, [], ◌∷◌, some, true, false}
use mm.Sup.Intensity.{report_exit}
use mm.Sup.Child.{Action, permanent, noop, ok, is_acceptable}
use mm.Sup.AllForOne.{
  Status, Target, SupStatus, State, Decider, next_action, exited, holder, holds, modify_holder,
}
use mm.Sup.AllForOne.Revival.{restart_ends_by_noop, stopping-starts}

abbrev child : Status → State
child s = record { child_type = permanent; status = s; target = Target.running }

abbrev pair_of : SupStatus → Status → Status → Decider ℕ
pair_of sup s t = record {
  restart_intensity = record { max_restarts = 2; within = 60 };
  restart_stats = [];
  states = (1, child s) ∷ (2, child t) ∷ [];
  orphans = [];
  status = sup;
}

abbrev stopped_group : Decider ℕ
stopped_group = pair_of (SupStatus.stopping true) Status.stopped Status.stopped

abbrev restarting_group : Decider ℕ
restarting_group = pair_of SupStatus.restarting Status.stopped Status.stopped

restart_ends_by_noop_example :
    next_action restarting_group 9
    ≡ ok (record restarting_group { status = SupStatus.running }, some noop)
restart_ends_by_noop_example = restart_ends_by_noop restarting_group 9 refl refl (refl, (refl, tt))

-- A supervisor that was told to stop, with one child not stopped yet.
abbrev leaving_group : Decider ℕ
leaving_group = pair_of (SupStatus.stopping true) (Status.running 11) Status.stopped

stopping-starts_example :
    (e f g : Decider ℕ) × (k : ℕ) × (exited leaving_group 11 false 100 ≡ ok e)
    × (next_action e 101 ≡ ok (f, some noop))
    × (next_action f 102 ≡ ok (g, some (Action.start k)))
unfolding holder holds report_exit is_acceptable modify_holder
stopping-starts_example =
    stopping-starts leaving_group 11 11 (child (Status.running 11)) true false 100 101 102 refl refl
      refl refl refl (refl, (refl, tt)) refl refl
