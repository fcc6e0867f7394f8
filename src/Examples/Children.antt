-- ===== src/Examples/Children.antt =====
-- A uniform supervisor of permanent children, one of which runs and fails, and one of transient children.
use mm.Shared.{ℕ, suc, ◌≡◌, refl, [], ◌∷◌, map, some, none, true, false, ℕ_discrete}
use mm.Shared.SlotMap.{SlotMap, vacant_slots, slot, next_key, vacate}
use mm.Shared.Map.{get, insert, remove}
use mm.Sup.Intensity.{RestartIntensity, new_stats, report_exit, cutoff, checked_sub}
use mm.Sup.Uniform.Kind.{ChildData, permanent, transient, restart_within}
use mm.Sup.Uniform.{
  ChildEntry, starting, started, Children, no_children, Answers, start_request, child_started,
  exited, link, fork_start, shutdown, done, panicked, handle, handle_start_request, insert_starting,
  handle_child_started, child_started_in, set_started, handle_sys_exited, child_exited, decided,
  restart, finish_fork, drop_child,
}
use mm.Sup.Uniform.Indexes.{IsValid}
use mm.Sup.Uniform.Reaping.{running, first_failure}
use mm.Sup.Uniform.Tracking.{forks, IsTracked}
use mm.Sup.Uniform.Lifecycle.{
  System, Reach, here, next, hear, start, Reach-IsTracked, Reach-ne-panicked,
}
use mm.Sup.Uniform.Policy.{ends, handle_sys_exited-unknown, handle_sys_exited-transient}

abbrev once : RestartIntensity
once = record { max_restarts = 1; within = 10 }

abbrev slots : SlotMap (ChildEntry (ChildData ℕ))
slots = vacant_slots (ChildEntry (ChildData ℕ))

abbrev answers : Answers
answers = record { forked = true; stops = λ a. false; now = 30 }

abbrev five : ChildData ℕ
five = record { args = 5; restarts = [] }

abbrev children_starting : Children slots
children_starting = record {
  primary = (0, record { status = starting; data_of = five }) ∷ [];
  by_address = [];
}

abbrev children_running : Children slots
children_running = record {
  primary = (0, record { status = started 100; data_of = five }) ∷ [];
  by_address = (100, 0) ∷ [];
}

abbrev children_again : Children slots
children_again = record {
  primary =
      (0, record { status = starting; data_of = record { args = 5; restarts = 30 ∷ [] } }) ∷ [];
  by_address = [];
}

abbrev first : System ℕ (permanent {R = ℕ} once) slots suc
first = record { children = children_starting; pending = 0 ∷ [] }

abbrev second : System ℕ (permanent {R = ℕ} once) slots suc
second = record { children = children_running; pending = [] }

abbrev third : System ℕ (permanent {R = ℕ} once) slots suc
third = record { children = children_again; pending = 0 ∷ [] }

starts_one :
    handle {H = ℕ} (permanent once) slots suc answers (no_children slots) (start_request 9 5)
    ≡ done (children_starting, fork_start 0 6 (some 9) ∷ [])
unfolding handle handle_start_request insert_starting finish_fork no_children next_key new_stats
starts_one = refl

one_runs :
    handle {R = ℕ} {H = ℕ}
      (permanent once)
      slots
      suc
      answers
      children_starting
      (child_started 0 100)
    ≡ done (children_running, link 100 ∷ [])
unfolding handle handle_child_started child_started_in set_started slot vacate get insert ℕ_discrete
one_runs = refl

one_fails :
    handle {H = ℕ} (permanent once) slots suc answers children_running (exited 100 false)
    ≡ done (children_again, fork_start 0 6 none ∷ [])
unfolding handle handle_sys_exited child_exited decided restart finish_fork restart_within
    report_exit cutoff checked_sub slot vacate get remove ℕ_discrete
one_fails = refl

running_reached : Reach ℕ (permanent once) slots suc (start ℕ (permanent once) slots suc) second
unfolding get
running_reached =
    next
      (next here (
        hear answers (start_request 9 5) [] children_starting (fork_start 0 6 (some 9) ∷ []) refl
          starts_one))
      (hear answers (child_started 0 100) [] children_running (link 100 ∷ [])
        (([], [], refl, refl), refl) one_runs)

reached : Reach ℕ (permanent once) slots suc (start ℕ (permanent once) slots suc) third
reached =
    next running_reached
      (hear answers (exited 100 false) [] children_again (fork_start 0 6 none ∷ []) refl one_fails)

Reach-IsTracked_example : IsTracked slots children_again (0 ∷ [])
Reach-IsTracked_example = Reach-IsTracked ℕ (permanent once) slots suc reached

Reach-ne-panicked_example : ¬ (
    handle {H = ℕ} (permanent once) slots suc answers children_running (exited 100 false)
    ≡ panicked)
Reach-ne-panicked_example =
    Reach-ne-panicked ℕ (permanent once) slots suc answers (exited 100 false) [] running_reached
      refl

running-IsValid : IsValid slots children_running
running-IsValid = (Reach-IsTracked ℕ (permanent once) slots suc running_reached).valid

handle_sys_exited-unknown_example :
    (left : Children slots) × (handle_sys_exited {H = ℕ}
        (permanent once)
        slots
        suc
        answers
        children_running
        77
        true
      ≡ ends 77
          (left, map (λ a. shutdown a) (running (slots.drain children_running.primary).1))
          (first_failure answers.stops (running (slots.drain children_running.primary).1)))
    × ((k : ℕ) → slots.get left.primary k ≡ none)
unfolding get ℕ_discrete
handle_sys_exited-unknown_example =
    handle_sys_exited-unknown ℕ (permanent once) slots suc answers children_running 77 true
      running-IsValid refl

transient_stops :
    handle_sys_exited {R = ℕ} {H = ℕ} (transient once) slots suc answers children_running 100 false
    ≡ done (record { primary = []; by_address = [] }, [])
unfolding handle_sys_exited child_exited decided drop_child restart_within report_exit cutoff
    checked_sub slot vacate get remove ℕ_discrete
transient_stops = refl

handle_sys_exited-transient_example : forks {K = ℕ} {R = ℕ} {H = ℕ} [] ≡ []
handle_sys_exited-transient_example =
    handle_sys_exited-transient ℕ once slots suc answers children_running
      (record { primary = []; by_address = [] }) 100 false [] transient_stops
