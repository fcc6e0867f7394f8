-- ===== src/Sup/AllForOne/Revival.antt =====
-- How an all-for-one supervisor goes on after the crash of a child.
use mm.Shared.{
  Bool-cases, inl, inr, ◌⊎◌, ap, ◌∙◌, ◌≡◌, refl, List, [], ◌∷◌, reverse, Bool, true, false, ◌&&◌,
  some, All-reverse, arith,
}
use mm.Sup.Intensity.{Instant, report_exit}
use mm.Sup.Scan.{passed, acted}
use mm.Sup.Child.{Address, Action, ChildType, noop, ok, is_acceptable}
use mm.Sup.AllForOne.{
  Status, Target, State, SupStatus, verdict, effective, Decider, is_stopped, is_running, holds,
  scan, consider, conclude, finish, next_action, exited, holder, modify_holder, set_status,
}
use mm.Sup.AllForOne.Shutdown.{AllStopped}

module _ {K : Type 0} where
  -- Stopped children give the loop nothing to do while all must stop.
  scan-quiet :
      (b c : Bool) (xs : List (K × State))
      → AllStopped xs
      → (f : Bool) × (scan SupStatus.restarting b c xs ≡ passed f c)
  unfolding scan
  scan-quiet b c [] h = (b, refl)
  scan-quiet b c ((k, s) ∷ r) h =
      let (f, e) = scan-quiet (b && is_running s.status) (c && is_stopped s.status) r h.1 in
      (f, ground arith)

  -- An all-for-one decider that is restarting, with no orphan left and every child stopped, answers
  -- `next_action` by `Noop` and is running, its children as they were.
  pub restart_ends_by_noop :
      (d : Decider K) (at : Instant)
      → d.status ≡ SupStatus.restarting
      → d.orphans ≡ []
      → AllStopped d.states
      → next_action d at ≡ ok (record d { status = SupStatus.running }, some noop)
  unfolding next_action consider conclude
  restart_ends_by_noop d at s o h = ground (
    arith,
    scan-quiet true true (reverse d.states)
        (All-reverse (λ (e : K × State). is_stopped e.1.status ≡ true) d.states h),
  )

  holder-holds :
      (a : Address) (xs : List (K × State)) (s : State) → holder a xs ≡ some s → holds a s ≡ true
  unfolding holder
  holder-holds a [] s h = cc
  holder-holds a ((k, t) ∷ r) s h = ground (arith, holder-holds a r s)

  exited-restarts :
      (d : Decider K) (a b : Address) (s : State) (normal_exit : Bool) (at : Instant)
      → holder a d.states ≡ some s
      → s.status ≡ Status.running b
      → is_acceptable s.child_type normal_exit ≡ false
      → (report_exit d.restart_intensity d.restart_stats at).1 ≡ true
      → exited d a normal_exit at
        ≡ ok (record d {
          restart_stats = (report_exit d.restart_intensity d.restart_stats at).0;
          status = SupStatus.restarting;
          states = modify_holder a (set_status Status.stopped) d.states;
        })
  unfolding exited holds
  exited-restarts d a b s normal_exit at h e u w = ground (arith, holder-holds a d.states s h)

  -- A child that is to run stands in the list.
  abbrev Wants : List (K × State) → Type 0
  Wants [] = ⊥
  Wants ((k, s) ∷ r) = (s.target ≡ Target.running) ⊎ Wants r

  crashed-Wants :
      (a : Address) (xs : List (K × State)) (s : State)
      → holder a xs ≡ some s
      → s.target ≡ Target.running
      → Wants (modify_holder a (set_status Status.stopped) xs)
  unfolding holder modify_holder
  crashed-Wants a [] s h t = absurd (cc)
  crashed-Wants a ((k, u) ∷ r) s h t = elim (Bool-cases (holds a u)) [
    | inl e ↦ rw (modify_holder, e) (inl (ap (λ x. x.target) (some_inj (rw (holder, e) at h)) ∙ t))
    | inr e ↦ rw (modify_holder, e) (inr (crashed-Wants a r s (rw (holder, e) at h) t))
  ]
    where
      some_inj : {A : Type 0} {x y : A} → some x ≡ some y → x ≡ y
      some_inj q = cc

  Starts : Bool → Bool → List (K × State) → Type 0
  Starts b c xs =
      (ys : List (K × State)) × (k : K) × (scan SupStatus.running b c xs
        ≡ acted ys (Action.start k))

  head-Starts :
      (b c : Bool) (k : K) (ty : ChildType) (u : Status) (t : Target) (r : List (K × State))
      → is_stopped u ≡ true
      → (t ≡ Target.running) ⊎ Wants r
      → (Wants r → Starts (b && is_running u) (c && is_stopped u) r)
      → Starts b c ((k, record { child_type = ty; status = u; target = t }) ∷ r)
  unfolding Starts scan verdict effective
  head-Starts b c k ty Status.stopped Target.running r h w rest = (
    (k, record { child_type = ty; status = Status.starting; target = Target.running }) ∷ r,
    k,
    refl,
  )
  head-Starts b c k ty Status.stopped Target.stopped r h (inl g) rest = absurd (cc)
  head-Starts b c k ty Status.stopped Target.stopped r h (inr w) rest =
      let (ys, j, i) = rest w in
      let stays : State = record {
        child_type = ty;
        status = Status.stopped;
        target = Target.stopped;
      } in
      ((k, stays) ∷ ys, j, rw i refl)
  head-Starts b c k ty Status.starting t r h w rest = absurd (cc)
  head-Starts b c k ty (Status.running a) t r h w rest = absurd (cc)
  head-Starts b c k ty (Status.terminating a) t r h w rest = absurd (cc)

  -- While the supervisor runs, the loop starts the first stopped child that is to run.
  scan-Starts : (b c : Bool) (xs : List (K × State)) → AllStopped xs → Wants xs → Starts b c xs
  scan-Starts b c [] h w = absurd w
  scan-Starts b c ((k, s) ∷ r) (h, hs) w =
      head-Starts b c k s.child_type s.status s.target r h w
        (scan-Starts (b && is_running s.status) (c && is_stopped s.status) r hs)

  -- A supervisor that is stopping, with no orphan left, is told of the crash of its only child that is
  -- not stopped, a child that is to run, and the restart intensity allows the exit: it takes the exit
  -- without an error, its next action is `Noop`, and the action after that starts a child again.
  pub stopping-starts :
      (d : Decider K) (a b : Address) (s : State) (flag normal_exit : Bool)
      (at then_at last_at : Instant)
      → d.status ≡ SupStatus.stopping flag
      → d.orphans ≡ []
      → holder a d.states ≡ some s
      → s.status ≡ Status.running b
      → s.target ≡ Target.running
      → AllStopped (modify_holder a (set_status Status.stopped) d.states)
      → is_acceptable s.child_type normal_exit ≡ false
      → (report_exit d.restart_intensity d.restart_stats at).1 ≡ true
      → (e f g : Decider K) × (k : K) × (exited d a normal_exit at ≡ ok e)
        × (next_action e then_at ≡ ok (f, some noop))
        × (next_action f last_at ≡ ok (g, some (Action.start k)))
  unfolding Starts next_action consider finish
  stopping-starts d a b s flag normal_exit at then_at last_at stopping none_left h u t left bad
        within =
      let states = modify_holder a (set_status Status.stopped) d.states in
      let e : Decider K = record d {
        restart_stats = (report_exit d.restart_intensity d.restart_stats at).0;
        status = SupStatus.restarting;
        states = states;
      } in
      let f : Decider K = record e { status = SupStatus.running } in
      let (ys, k, i) = scan-Starts true true states left (crashed-Wants a d.states s h t) in
      (
        e,
        f,
        record f { states = ys },
        k,
        exited-restarts d a b s normal_exit at h u bad within,
        restart_ends_by_noop e then_at refl none_left left,
        rw (next_action, none_left, consider, i, finish, none_left) refl,
      )
