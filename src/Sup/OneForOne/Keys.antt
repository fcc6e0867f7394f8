-- ===== src/Sup/OneForOne/Keys.antt =====
-- The keys of a one-for-one decider: what holds of the keys that are added holds of all keys it keeps, and of
-- those in the actions that it hands out.
use mm.Shared.{
  List, [], ◌∷◌, reverse, Bool, true, not, ◌&&◌, Option, none, some, All, All-reverse, All-append,
  All-retain, arith,
}
use mm.Sup.Intensity.{Instant}
use mm.Sup.Scan.{Scan, acted, passed, stuck}
use mm.Sup.Child.{
  Address, ChildType, Action, noop, init_done, start, stop, Outcome, ok, err, panicked,
}
use mm.Sup.OneForOne.{
  State, Status, Target, set_status, set_target, SupStatus, Decider, is_gone, is_stopped,
  is_running, scan, consider, prune, next_action, conclude, exited, started, failed, add, modify,
  modify_holder,
}

module _ {K : Type 0} (P : K → Type 0) where
  abbrev pub OfKeys : List (K × State) → Type 0
  OfKeys = All (λ e. P e.0)

  abbrev pub OfAction : Option (Action K) → Type 0
  OfAction none = Unit {0}
  OfAction (some (Action.quit b)) = Unit {0}
  OfAction (some noop) = Unit {0}
  OfAction (some init_done) = Unit {0}
  OfAction (some (start k)) = P k
  OfAction (some (stop a none)) = Unit {0}
  OfAction (some (stop a (some k))) = P k

  abbrev OfScan : Scan (K × State) K → Type 0
  OfScan (acted r a) = OfKeys r × OfAction (some a)
  OfScan (passed b c) = Unit {0}
  OfScan stuck = Unit {0}

  scan-OfScan :
      (sup : SupStatus) (b c : Bool) (xs : List (K × State)) → OfKeys xs → OfScan (scan sup b c xs)
  unfolding scan
  scan-OfScan sup b c [] h = tt
  scan-OfScan sup b c ((k, s) ∷ r) h =
      ground (arith, scan-OfScan sup (b && is_running s.status) (c && is_stopped s.status) r h.1)

  abbrev pub OfOutcome : Outcome (Decider K × Option (Action K)) → Type 0
  OfOutcome (ok (d, a)) = OfKeys d.states × OfAction a
  OfOutcome (err e) = Unit {0}
  OfOutcome panicked = Unit {0}

  OfKeys-reverse : (xs : List (K × State)) → OfKeys xs → OfKeys (reverse xs)
  OfKeys-reverse xs h = All-reverse (λ e. P e.0) xs h

  consider-OfOutcome : (d : Decider K) → OfKeys d.states → OfOutcome (consider d)
  unfolding consider conclude
  consider-OfOutcome d h = grind (
    arith,
    scan-OfScan d.status true true [] tt,
    scan-OfScan d.status true true d.states h,
    scan-OfScan d.status true true (reverse d.states) (OfKeys-reverse d.states h),
    OfKeys-reverse,
  )

  prune-OfKeys : (d : Decider K) → OfKeys d.states → OfKeys (prune d).states
  unfolding prune
  prune-OfKeys d h = All-retain (λ e. P e.0) (λ e. not (is_gone e.1)) d.states h

  -- Whatever `next_action` comes to, the keys that are left and the key of the action are among those
  -- that the decider had.
  pub next_action-OfOutcome :
      (d : Decider K) (at : Instant) → OfKeys d.states → OfOutcome (next_action d at)
  unfolding next_action
  next_action-OfOutcome d at h = ground (arith, consider-OfOutcome (prune d), prune-OfKeys d h)

  modify_holder-OfKeys :
      (a : Address) (f : State → State) (xs : List (K × State))
      → OfKeys xs
      → OfKeys (modify_holder a f xs)
  unfolding modify_holder
  modify_holder-OfKeys a f [] h = tt
  modify_holder-OfKeys a f ((k, s) ∷ r) h = ground (arith, modify_holder-OfKeys a f r h.1)

  -- A call that succeeds leaves such keys.
  abbrev pub OfDecider : Outcome (Decider K) → Type 0
  OfDecider (ok d) = OfKeys d.states
  OfDecider (err e) = Unit {0}
  OfDecider panicked = Unit {0}

  pub exited-OfDecider :
      (d : Decider K) (a : Address) (normal_exit : Bool) (at : Instant)
      → OfKeys d.states
      → OfDecider (exited d a normal_exit at)
  unfolding exited
  exited-OfDecider d a normal_exit at h = ground (
    arith,
    modify_holder-OfKeys a (set_status Status.stopped) d.states h,
    modify_holder-OfKeys a (λ s. set_target Target.stopped (set_status Status.stopped s)) d.states
        h,
  )

  module _ (key_eq : Discrete K) where
    modify-OfKeys :
        (k : K) (f : State → State) (xs : List (K × State))
        → OfKeys xs
        → OfKeys (modify key_eq k f xs)
    unfolding modify
    modify-OfKeys k f [] h = tt
    modify-OfKeys k f ((j, s) ∷ r) h = ground (arith, modify-OfKeys k f r h.1)

    pub started-OfDecider :
        (d : Decider K) (k : K) (a : Address) → OfKeys d.states → OfDecider (started key_eq d k a)
    unfolding started
    started-OfDecider d k a h =
        ground (arith, modify-OfKeys k (set_status (Status.running a)) d.states h)

    pub failed-OfKeys :
        (d : Decider K) (k : K) → OfKeys d.states → OfKeys (failed key_eq d k).states
    unfolding failed
    failed-OfKeys d k h = ground (
      arith,
      modify-OfKeys k (set_status Status.stopped) d.states h,
      modify-OfKeys k (set_target Target.stopped) d.states h,
    )

    pub add-OfDecider :
        (d : Decider K) (k : K) (t : ChildType)
        → OfKeys d.states
        → P k
        → OfDecider (add key_eq d k t)
    unfolding add
    add-OfDecider d k t h p =
        let new : State = record {
          child_type = t;
          status = Status.stopped;
          target = Target.running;
        } in
        ground (arith, All-append (λ (e : K × State). P e.0) d.states ((k, new) ∷ []) h (p, tt))
