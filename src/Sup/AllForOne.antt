-- ===== src/Sup/AllForOne.antt =====
-- components/mm1-sup/src/mixed/strategy/all_for_one.rs: `AllForOneDecider`, one function to a method of
-- its `Decider` implementation, under the conventions of the one-for-one decider: a child that fails
-- makes the supervisor stop all the children in reverse order and start them again.
pub mod Shutdown
pub mod Revival
use mm.Shared.{
  ℕ, List, [], ◌∷◌, ◌++◌, reverse, Option, none, some, Bool, true, false, not, ◌&&◌, ite, ◌==◌,
  if◌then◌else◌, retain, any,
}
use mm.Sup.Intensity.{Instant, RestartIntensity, RestartStats, new_stats, report_exit}
use mm.Sup.Scan.{Verdict, skip, act, unreachable, Scan, acted, passed, stuck, keep}
use mm.Sup.Child.{
  Address, ChildType, Action, noop, init_done, start, stop, DeciderError, key_not_found,
  duplicate_key, unsupported, Outcome, ok, err, panicked, is_acceptable,
}

pub data Status : Type 0 where
  starting : Status
  running terminating : Address → Status
  stopped : Status

pub data Target : Type 0 where
  running stopped : Target

pub data SupStatus : Type 0 where
  starting running restarting : SupStatus
  stopping : Bool → SupStatus
  stopped : SupStatus

pub record State : Type 0 where
  pub child_type : ChildType
  pub status : Status
  pub target : Target

pub record Decider (K : Type 0) : Type 0 where
  pub restart_intensity : RestartIntensity
  pub restart_stats : RestartStats
  pub states : List (K × State)
  pub orphans : List Address
  pub status : SupStatus

-- The address of a child that runs or is being stopped.
unfoldable pub child_address : Status → Option Address
child_address (Status.running a) = some a
child_address (Status.terminating a) = some a
child_address Status.starting = none
child_address Status.stopped = none

-- `matches!(s.status, Running { address } | Terminating { address } if address == reported)`
unfoldable pub holds : Address → State → Bool
unfolding child_address
holds a s = elim (child_address s.status) [ none ↦ false | some b ↦ b == a ]

abbrev pub is_stopped : Status → Bool
is_stopped Status.stopped = true
is_stopped _ = false

abbrev pub is_running : Status → Bool
is_running (Status.running a) = true
is_running _ = false

-- `HashSet::insert`.
unfoldable pub insert_orphan : Address → List Address → List Address
insert_orphan a orphans = if any (λ b. b == a) orphans then orphans else a ∷ orphans

abbrev pub set_status : Status → State → State
set_status status s = record s { status = status }

abbrev pub set_target : Target → State → State
set_target target s = record s { target = target }

-- `let target = match self.status { .. }`; the loop does not run when the supervisor is stopped.
unfoldable pub effective : SupStatus → Target → Target
effective (SupStatus.stopping b) target = Target.stopped
effective SupStatus.restarting target = Target.stopped
effective _ target = target

module _ {K : Type 0} where
  unfoldable pub decider : RestartIntensity → Decider K
  unfolding new_stats
  decider r = record {
    restart_intensity = r;
    restart_stats = new_stats r;
    states = [];
    orphans = [];
    status = SupStatus.starting;
  }

  -- `iter_mut().find_map` by the address that a child holds.
  unfoldable pub holder : Address → List (K × State) → Option State
  holder a [] = none
  holder a ((k, s) ∷ r) = if holds a s then some s else holder a r

  unfoldable pub modify_holder : Address → (State → State) → List (K × State) → List (K × State)
  modify_holder a f [] = []
  modify_holder a f ((k, s) ∷ r) = if holds a s then (k, f s) ∷ r else (k, s) ∷ modify_holder a f r

  unfoldable pub quit : Decider K → Bool → Decider K
  quit d normal_exit = elim d.status [
    | SupStatus.stopped ↦ record d { status = SupStatus.stopped }
    | SupStatus.stopping existing ↦ record d {
      status = SupStatus.stopping (normal_exit && existing);
    }
    | _ ↦ record d { status = SupStatus.stopping normal_exit }
  ]

  -- The `match (state.status, is_acceptable)` of `exited`.
  on_exit : Decider K → Address → Instant → Status → Bool → Outcome (Decider K)
  on_exit d a at (Status.terminating b) acceptable =
      if b == a
      then ok (record d { states = modify_holder a (set_status Status.stopped) d.states })
      else panicked
  on_exit d a at (Status.running b) true =
      if b == a
      then ok (record d {
        states =
            modify_holder a (λ s. set_target Target.stopped (set_status Status.stopped s)) d.states;
      })
      else panicked
  on_exit d a at (Status.running b) false =
      let (stats, within) = report_exit d.restart_intensity d.restart_stats at in
      if b == a
      then ok (record d {
        restart_stats = stats;
        status = if within then SupStatus.restarting else SupStatus.stopping false;
        states = modify_holder a (set_status Status.stopped) d.states;
      })
      else panicked
  on_exit d a at Status.starting acceptable = panicked
  on_exit d a at Status.stopped acceptable = panicked

  unfoldable pub exited : Decider K → Address → Bool → Instant → Outcome (Decider K)
  unfolding on_exit
  exited d a normal_exit at = elim (holder a d.states) [
    | none ↦ ok (record d { status = SupStatus.stopping true })
    | some s ↦ on_exit d a at s.status (is_acceptable s.child_type normal_exit)
  ]

  unfoldable pub verdict : K → Status → Target → Verdict Status K
  verdict k Status.starting target = skip
  verdict k (Status.terminating a) target = skip
  verdict k (Status.running a) Target.running = skip
  verdict k Status.stopped Target.stopped = skip
  verdict k Status.stopped Target.running = act Status.starting (Action.start k)
  verdict k (Status.running a) Target.stopped = act (Status.terminating a) (Action.stop a (some k))

  unfoldable pub scan : SupStatus → Bool → Bool → List (K × State) → Scan (K × State) K
  unfolding verdict effective
  scan sup all_started all_stopped [] = passed all_started all_stopped
  scan sup all_started all_stopped ((k, s) ∷ r) =
      let rest =
        scan sup (all_started && is_running s.status) (all_stopped && is_stopped s.status) r in
      elim (verdict k s.status (effective sup s.target)) [
        | skip ↦ keep (k, s) rest
        | act status action ↦ acted ((k, set_status status s) ∷ r) action
        | unreachable ↦ stuck
      ]

  -- The second `match self.status`, after the loop.
  unfoldable pub conclude : Decider K → Bool → Bool → Decider K × Option (Action K)
  conclude d all_started all_stopped = elim d.status [
    | SupStatus.starting ↦
        if all_started then (record d { status = SupStatus.running }, some init_done) else (d, none)
    | SupStatus.stopping normal_exit ↦
        if all_stopped
        then (record d { status = SupStatus.stopped }, some (Action.quit normal_exit))
        else (d, none)
    | SupStatus.restarting ↦
        if all_stopped then (record d { status = SupStatus.running }, some noop) else (d, none)
    | _ ↦ (d, none)
  ]

  unfoldable pub finish :
      Decider K
      → (List (K × State) → List (K × State))
      → Scan (K × State) K
      → Outcome (Decider K × Option (Action K))
  unfolding conclude
  finish d restore (acted r a) = ok (record d { states = restore r }, some a)
  finish d restore (passed all_started all_stopped) = ok (conclude d all_started all_stopped)
  finish d restore stuck = panicked

  unfoldable pub consider : Decider K → Outcome (Decider K × Option (Action K))
  unfolding finish
  consider d = elim d.status [
    | SupStatus.stopping b ↦ finish d reverse (scan d.status true true (reverse d.states))
    | SupStatus.restarting ↦ finish d reverse (scan d.status true true (reverse d.states))
    | SupStatus.stopped ↦ finish d (λ r. d.states) (scan d.status true true [])
    | _ ↦ finish d (λ r. r) (scan d.status true true d.states)
  ]

  unfoldable pub next_action : Decider K → Instant → Outcome (Decider K × Option (Action K))
  next_action d at = elim d.orphans [
    | [] ↦ consider d
    | a ∷ rest ↦ ok (record d { orphans = rest }, some (Action.stop a none))
  ]

unfoldable pub rm : {K : Type 0} → Decider K → K → Outcome (Decider K)
rm d key = err unsupported

module _ {K : Type 0} (key_eq : Discrete K) where
  -- `find_map(|(k, s)| (k == key).then_some(s))`
  unfoldable pub find : K → List (K × State) → Option State
  find key [] = none
  find key ((k, s) ∷ r) = ite (key_eq k key) (some s) (find key r)

  unfoldable pub modify : K → (State → State) → List (K × State) → List (K × State)
  modify key f [] = []
  modify key f ((k, s) ∷ r) = ite (key_eq k key) ((k, f s) ∷ r) ((k, s) ∷ modify key f r)

  unfoldable pub address : Decider K → K → Outcome (Option Address)
  address d key = elim (find key d.states) [
    | none ↦ err key_not_found
    | some s ↦ ok (child_address s.status)
  ]

  unfoldable pub add : Decider K → K → ChildType → Outcome (Decider K)
  add d key child_type = elim (find key d.states) [
    | some s ↦ err duplicate_key
    | none ↦ ok (record d {
      states =
          d.states
          ++ (
            key,
            record { child_type = child_type; status = Status.stopped; target = Target.running },
          )
            ∷ [];
    })
  ]

  unfoldable pub started : Decider K → K → Address → Outcome (Decider K)
  started d key reported =
      if any (λ e. holds reported e.1) d.states then panicked else elim (find key d.states) [
        | none ↦ ok d
        | some s ↦ elim s.status [
          | Status.starting ↦
              ok (record d { states = modify key (set_status (Status.running reported)) d.states })
          | _ ↦ ok (record d { orphans = insert_orphan reported d.orphans })
        ]
      ]

  unfoldable pub failed : Decider K → K → Decider K
  failed d key = elim (find key d.states) [
    | none ↦ d
    | some s ↦ elim s.status [
      | Status.starting ↦ record d {
        states = modify key (set_status Status.stopped) d.states;
        status = SupStatus.stopping false;
      }
      | _ ↦ record d {
        states = modify key (set_target Target.stopped) d.states;
        status = SupStatus.stopping false;
      }
    ]
  ]
