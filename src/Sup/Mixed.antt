-- ===== src/Sup/Mixed.antt =====
-- components/mm1-sup/src/mixed/sup_actor.rs and sup_child.rs: the actor of the mixed supervisor, with the
-- one-for-one strategy. A turn of its loop is the action that the decider asks for, and then the message
-- that is received; `forked` is whether `ctx.fork` succeeds.
pub mod Specs
pub mod Loop
use mm.Shared.{List, [], ◌∷◌, Option, none, some, Bool, true, false, if◌then◌else◌}
use mm.Shared.Map.{get, insert}
use mm.Sup.Intensity.{Instant, Duration, RestartIntensity}
use mm.Sup.Child.{
  Address, ChildType, Action, noop, init_done, start, stop, DeciderError, Outcome, ok, err,
}
use mm.Sup.Child as call
use mm.Sup.OneForOne.{Decider, decider, add, started, exited, failed, address, next_action}
use mm.Sup.OneForOne as one
use mm.Sup.Uniform.{InitType, Launch, launch}

pub record ChildSpec : Type 0 where
  pub child_type : ChildType
  pub init_type : InitType
  pub stop_timeout : Duration
  pub announce_parent : Bool

-- `sup_child::run` and `sup_child::shutdown` run in forks.
pub data Call (K H : Type 0) : Type 0 where
  report_init : Call K H
  run_child : K → ChildSpec → Call K H
  shut_down : Address → Duration → Call K H
  link : Address → Call K H
  reply : H → Option (Option Address) → Call K H

pub data MixedSupError : Type 0 where
  escalated fork_failed : MixedSupError
  refused : DeciderError → MixedSupError

-- The loop goes on, or the supervisor ends, without an error or with one, or it panics.
pub data Turn (S : Type 0) : Type 0 where
  goes_on : S → Turn S
  quits_ok : Turn S
  quits_err : MixedSupError → Turn S
  panicked : Turn S

pub data Message (K H : Type 0) : Type 0 where
  child_started : K → Address → Message K H
  start_failed : K → Message K H
  stop_failed : Address → Message K H
  get_child : H → K → Message K H
  peer_exited : Address → Bool → Message K H
  unexpected : Message K H

-- A fork that starts a child: the child that is told its parent, if any, and the report.
unfoldable pub run : {K H : Type 0} → Launch → K → ChildSpec → Option Address × Message K H
run l k spec = elim (launch l spec.init_type) [
  | none ↦ (none, start_failed k)
  | some a ↦ (if spec.announce_parent then some a else none, child_started k a)
]

-- A fork that stops one: the report, if any.
unfoldable pub shutdown : {K H : Type 0} → Bool → Address → Option (Message K H)
shutdown stopped a = if stopped then none else some (stop_failed a)

module _ {K : Type 0} (key_eq : Discrete K) where
  -- `do_init_children`: the decider and the map of the specifications; `none` is the decider's error.
  unfoldable pub add_all : Decider K → List (K × ChildSpec) → Outcome (Decider K)
  unfolding add
  add_all d [] = ok d
  add_all d ((k, spec) ∷ r) = elim (add key_eq d k spec.child_type) [
    | ok d' ↦ add_all d' r
    | err e ↦ err e
    | call.panicked ↦ call.panicked
  ]

  unfoldable pub collect : List (K × ChildSpec) → List (K × ChildSpec) → List (K × ChildSpec)
  unfolding insert
  collect m [] = m
  collect m ((k, spec) ∷ r) = collect (insert key_eq k spec m) r

module _ {K H : Type 0} (key_eq : Discrete K) where
  unfoldable pub perform : List (K × ChildSpec) → Bool → Option (Action K) → Turn (List (Call K H))
  unfolding get
  perform children forked none = goes_on []
  perform children forked (some noop) = goes_on []
  perform children forked (some init_done) = goes_on (report_init ∷ [])
  perform children forked (some (Action.quit true)) = quits_ok
  perform children forked (some (Action.quit false)) = quits_err escalated
  perform children forked (some (start k)) = elim (get key_eq k children) [
    | none ↦ panicked
    | some spec ↦ if forked then goes_on (run_child k spec ∷ []) else quits_err fork_failed
  ]
  perform children forked (some (stop a none)) =
      if forked then goes_on (shut_down a 0 ∷ []) else quits_err fork_failed
  perform children forked (some (stop a (some k))) = elim (get key_eq k children) [
    | none ↦ panicked
    | some spec ↦
        if forked then goes_on (shut_down a spec.stop_timeout ∷ []) else quits_err fork_failed
  ]

  -- With the state that the decider has then.
  unfoldable pub performed : Decider K → Turn (List (Call K H)) → Turn (Decider K × List (Call K H))
  performed d (goes_on calls) = goes_on (d, calls)
  performed d quits_ok = quits_ok
  performed d (quits_err e) = quits_err e
  performed d panicked = panicked

  -- The part of the loop before `ctx.recv`.
  unfoldable pub act :
      List (K × ChildSpec) → Bool → Instant → Decider K → Turn (Decider K × List (Call K H))
  unfolding next_action perform performed
  act children forked at d = elim (next_action d at) [
    | ok (d', action) ↦ performed d' (perform children forked action)
    | err e ↦ quits_err (refused e)
    | call.panicked ↦ panicked
  ]

  unfoldable noted : Outcome (Decider K) → List (Call K H) → Turn (Decider K × List (Call K H))
  noted (ok d) calls = goes_on (d, calls)
  noted (err e) calls = quits_err (refused e)
  noted call.panicked calls = panicked

  -- The part after it.
  unfoldable pub receive : Decider K → Message K H → Instant → Turn (Decider K × List (Call K H))
  unfolding noted started exited failed address one.quit
  receive d (child_started k a) at = noted (started key_eq d k a) (link a ∷ [])
  receive d (start_failed k) at = goes_on (failed key_eq d k, [])
  receive d (stop_failed a) at = goes_on (one.quit d false, [])
  receive d (get_child h k) at = elim (address key_eq d k) [
    | ok a ↦ goes_on (d, reply h (some a) ∷ [])
    | err e ↦ goes_on (d, reply h none ∷ [])
    | call.panicked ↦ panicked
  ]
  receive d (peer_exited a normal_exit) at = noted (exited d a normal_exit at) []
  receive d unexpected at = goes_on (d, [])
