-- ===== src/Sup/Uniform/Policy.antt =====
-- What the uniform supervisor does about an exit: of a stranger, and of a child, by the type of its children.
use mm.Shared.{
  ◌≡◌, refl, subst, List, [], ◌∷◌, map, Option, none, some, Bool, true, false, ℕ_discrete,
  Option-cases, Bool-cases, inl, inr, ==-eq, ◌==◌, if◌then◌else◌,
}
use mm.Shared.SlotMap.{SlotMap}
use mm.Shared.Map.{get, remove}
use mm.Sup.Child.{Address}
use mm.Sup.Intensity.{RestartIntensity, report_exit}
use mm.Sup.Uniform.Kind.{UniformChildType, ChildData, transient, permanent, restart_within}
use mm.Sup.Uniform.{
  ChildStatus, starting, started, stopping, ChildEntry, Children, State, Call, shutdown, fork_start,
  Answers, Outcome, done, failed, quits, panicked, handle_sys_exited, quit_unknown, fail_decision,
  decided, child_exited, restart, finish_fork, Error,
}
use mm.Sup.Uniform.Indexes.{IsValid, unlist}
use mm.Sup.Uniform.Reaping.{running, first_failure, reap_started_children-all}
use mm.Sup.Uniform.Tracking.{forks}

-- How the supervisor ends: it quits, or fails with the error.
abbrev pub ends : {S : Type 0} → Address → S → Option Error → Outcome S
ends peer s none = quits peer s
ends peer s (some e) = failed e s

module _ {A R : Type 0} (H : Type 0) (kind : UniformChildType A R)
    (slots : SlotMap (ChildEntry kind.Data)) (produce : A → R) where
  quit_unknown-ends :
      (peer : Address) (s : State slots R H) (e : Option Error)
      → quit_unknown slots peer (some (s, e)) ≡ ends peer s e
  unfolding quit_unknown
  quit_unknown-ends peer s none = refl
  quit_unknown-ends peer s (some e) = refl

  -- When an actor exits that is no child, a uniform supervisor whose indexes agree shuts all its
  -- running children down, also after one that does not stop, and no child is left; it quits if all
  -- of them stopped and fails with the first failure otherwise.
  pub handle_sys_exited-unknown :
      (w : Answers) (c : Children slots) (peer : Address) (normal_exit : Bool)
      → IsValid slots c
      → get ℕ_discrete peer c.by_address ≡ none
      → (left : Children slots) × (handle_sys_exited {H = H} kind slots produce w c peer normal_exit
          ≡ ends peer
              (left, map (λ a. shutdown a) (running (slots.drain c.primary).1))
              (first_failure w.stops (running (slots.drain c.primary).1)))
        × ((k : slots.Key) → slots.get left.primary k ≡ none)
  unfolding handle_sys_exited
  handle_sys_exited-unknown w c peer normal_exit v n =
      let (left, e, gone) = reap_started_children-all R H slots w c v in
      (left, rw (handle_sys_exited, n, e) (quit_unknown-ends peer _ _), gone)

module _ {A R : Type 0} (H : Type 0) (r : RestartIntensity)
    (slots : SlotMap (ChildEntry (ChildData A))) (produce : A → R) where
  abbrev StartsNone : Outcome (State slots R H) → Type 0
  StartsNone (done (c, calls)) = forks calls ≡ []
  StartsNone (failed e s) = Unit {0}
  StartsNone (quits a s) = Unit {0}
  StartsNone panicked = Unit {0}

  quit_unknown-StartsNone :
      (peer : Address) (o : Option (State slots R H × Option Error))
      → StartsNone (quit_unknown slots peer o)
  unfolding quit_unknown
  quit_unknown-StartsNone peer none = tt
  quit_unknown-StartsNone peer (some (s, none)) = tt
  quit_unknown-StartsNone peer (some (s, some e)) = tt

  fail_decision-StartsNone :
      (b : Bool) (o : Option (State slots R H × Option Error))
      → StartsNone (if b then fail_decision slots o else panicked)
  unfolding fail_decision
  fail_decision-StartsNone false o = tt
  fail_decision-StartsNone true none = tt
  fail_decision-StartsNone true (some (s, e)) = tt

  child_exited-StartsNone :
      (w : Answers) (c : Children slots) (k : slots.Key) (peer : Address) (normal_exit : Bool)
      (s : ChildStatus) (d : ChildData A)
      → StartsNone (child_exited {H = H} (transient r) slots produce w c k peer normal_exit s d)
  unfolding child_exited decided restart_within
  child_exited-StartsNone w c k peer normal_exit starting d = tt
  child_exited-StartsNone w c k peer normal_exit (started a) d =
      elim (Bool-cases (report_exit r d.restarts w.now).1) [
        | inl e ↦ rw (child_exited, restart_within, e, decided) refl
        | inr e ↦
            rw (child_exited, restart_within, e, decided) (fail_decision-StartsNone (a == peer) _)
      ]
  child_exited-StartsNone w c k peer normal_exit (stopping a) d = elim (Bool-cases (a == peer)) [
    | inl e ↦ rw (child_exited, e) refl
    | inr e ↦ rw (child_exited, e) tt
  ]

  exits-StartsNone :
      (w : Answers) (c : Children slots) (peer : Address) (normal_exit : Bool)
      → StartsNone (handle_sys_exited {H = H} (transient r) slots produce w c peer normal_exit)
  unfolding handle_sys_exited
  exits-StartsNone w c peer normal_exit = elim (Option-cases (get ℕ_discrete peer c.by_address)) [
    | inl n ↦ rw (handle_sys_exited, n) (quit_unknown-StartsNone peer _)
    | inr (k, n) ↦ elim (Option-cases (slots.get c.primary k)) [
      | inl m ↦ rw (handle_sys_exited, n, m) tt
      | inr (e, m) ↦
          rw (handle_sys_exited, n, m)
            (child_exited-StartsNone w (unlist slots c peer) k peer normal_exit e.status e.data_of)
    ]
  ]

  -- A uniform supervisor of transient children that goes on after an exit, of whatever child and for
  -- whatever reason, starts nothing.
  pub handle_sys_exited-transient :
      (w : Answers) (c c' : Children slots) (peer : Address) (normal_exit : Bool)
      (calls : List (Call slots.Key R H))
      → handle_sys_exited (transient r) slots produce w c peer normal_exit ≡ done (c', calls)
      → forks calls ≡ []
  handle_sys_exited-transient w c c' peer normal_exit calls e =
      subst StartsNone e (exits-StartsNone w c peer normal_exit)

  -- A permanent child that ran and exits, for whatever reason, within the restart intensity and with a
  -- fork to be had, is started again from the arguments that it was started from, under its key; until
  -- it runs it has no address.
  pub handle_sys_exited-permanent :
      (w : Answers) (c : Children slots) (k : slots.Key) (peer : Address) (normal_exit : Bool)
      (d : ChildData A)
      → get ℕ_discrete peer c.by_address ≡ some k
      → slots.get c.primary k ≡ some (record { status = started peer; data_of = d })
      → (report_exit r d.restarts w.now).1 ≡ true
      → w.forked ≡ true
      → handle_sys_exited {H = H} (permanent r) slots produce w c peer normal_exit
        ≡ done (
          record {
            primary = slots.write c.primary k (record {
              status = starting;
              data_of = record { args = d.args; restarts = (report_exit r d.restarts w.now).0 };
            });
            by_address = remove ℕ_discrete peer c.by_address;
          },
          fork_start k (produce d.args) none ∷ [],
        )
  unfolding handle_sys_exited child_exited decided restart_within restart finish_fork
  handle_sys_exited-permanent w c k peer normal_exit d n h ok forked =
      rw
        (
          handle_sys_exited,
          n,
          h,
          child_exited,
          restart_within,
          ok,
          decided,
          ==-eq peer peer refl,
          restart,
          forked,
          finish_fork,
        )
        refl
