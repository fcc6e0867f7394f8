-- ===== src/Sup/Mixed/Loop.antt =====
-- The loop of the mixed supervisor: the decider names only children that the supervisor has.
use mm.Shared.{
  ◌≡◌, ◌≢◌, refl, subst, List, [], ◌∷◌, Option, none, some, Bool, true, false, any, arith,
  Option-cases, inl, inr,
}
use mm.Sup.Intensity.{Instant, RestartIntensity}
use mm.Sup.Child.{Address, Action, noop, init_done, start, stop, Outcome, ok, err}
use mm.Sup.Child as call
use mm.Sup.OneForOne.{
  State, Decider, decider, holds, find, next_action, exited, started, failed, address, add,
}
use mm.Sup.OneForOne as one
use mm.Sup.OneForOne.Panics.{next_action-ne-panicked, exited-ne-panicked}
use mm.Sup.OneForOne.Keys.{
  OfKeys, OfAction, OfOutcome, OfDecider, next_action-OfOutcome, exited-OfDecider,
  started-OfDecider, failed-OfKeys,
}
use mm.Sup.Mixed as Mixed
use mm.Sup.Mixed.Specs.{IsChild, add_all-OfKeys}
use mm.Sup.Mixed.{
  ChildSpec, Call, link, reply, Turn, goes_on, quits_ok, quits_err, panicked, Message,
  child_started, start_failed, stop_failed, get_child, peer_exited, unexpected, add_all, collect,
  perform, performed, act, receive, noted,
}

module _ {K : Type 0} (H : Type 0) (key_eq : Discrete K) (children : List (K × ChildSpec)) where
  perform-ne-panicked :
      (forked : Bool) (a : Option (Action K))
      → OfAction (IsChild key_eq children) a
      → perform {H = H} key_eq children forked a ≢ panicked
  unfolding perform
  perform-ne-panicked forked none h = ground arith
  perform-ne-panicked forked (some noop) h = ground arith
  perform-ne-panicked forked (some init_done) h = ground arith
  perform-ne-panicked forked (some (Action.quit true)) h = ground arith
  perform-ne-panicked forked (some (Action.quit false)) h = ground arith
  perform-ne-panicked forked (some (start k)) h = ground arith
  perform-ne-panicked forked (some (stop a none)) h = ground arith
  perform-ne-panicked forked (some (stop a (some k))) h = ground arith

  -- The supervisor did not panic, and the decider's keys are children's.
  abbrev pub Fine : Turn (Decider K × List (Call K H)) → Type 0
  Fine (goes_on (d, calls)) = OfKeys (IsChild key_eq children) d.states
  Fine quits_ok = Unit {0}
  Fine (quits_err e) = Unit {0}
  Fine panicked = ⊥

  performed-Fine :
      (d : Decider K) (t : Turn (List (Call K H)))
      → OfKeys (IsChild key_eq children) d.states
      → t ≢ panicked
      → Fine (performed key_eq d t)
  unfolding performed
  performed-Fine d (goes_on calls) h n = h
  performed-Fine d quits_ok h n = tt
  performed-Fine d (quits_err e) h n = tt
  performed-Fine d panicked h n = n refl

  act-Fine :
      (forked : Bool) (at : Instant) (d : Decider K)
      → OfKeys (IsChild key_eq children) d.states
      → Fine (act {H = H} key_eq children forked at d)
  unfolding act
  act-Fine forked at d h =
      go (next_action d at) (next_action-OfOutcome (IsChild key_eq children) d at h)
        (next_action-ne-panicked d at)
    where
      go :
          (o : Outcome (Decider K × Option (Action K)))
          → OfOutcome (IsChild key_eq children) o
          → o ≢ call.panicked
          → Fine (elim o [
            | ok (d', action) ↦ performed key_eq d' (perform key_eq children forked action)
            | err e ↦ quits_err (Mixed.refused e)
            | call.panicked ↦ panicked
          ])
      go (ok (d', action)) (g, a) n =
          performed-Fine d' (perform key_eq children forked action) g
            (perform-ne-panicked forked action a)
      go (err e) g n = tt
      go call.panicked g n = n refl

  -- An actor that has started is not at the address of another child.
  abbrev pub Arrives : Decider K → Message K H → Type 0
  Arrives d (child_started k a) = any (λ e. holds a e.1) d.states ≡ false
  Arrives d (start_failed k) = Unit {0}
  Arrives d (stop_failed a) = Unit {0}
  Arrives d (get_child h k) = Unit {0}
  Arrives d (peer_exited a n) = Unit {0}
  Arrives d unexpected = Unit {0}

  noted-Fine :
      (o : Outcome (Decider K)) (calls : List (Call K H))
      → OfDecider (IsChild key_eq children) o
      → o ≢ call.panicked
      → Fine (noted key_eq o calls)
  unfolding noted
  noted-Fine (ok d) calls h n = h
  noted-Fine (err e) calls h n = tt
  noted-Fine call.panicked calls h n = n refl

  started-ne-panicked :
      (d : Decider K) (k : K) (a : Address)
      → any (λ e. holds a e.1) d.states ≡ false
      → started key_eq d k a ≢ call.panicked
  unfolding started
  started-ne-panicked d k a h = ground arith

  quit-OfKeys :
      (d : Decider K)
      → OfKeys (IsChild key_eq children) d.states
      → OfKeys (IsChild key_eq children) (one.quit d false).states
  unfolding one.quit
  quit-OfKeys d h = ground arith

  receive-Fine :
      (d : Decider K) (m : Message K H) (at : Instant)
      → OfKeys (IsChild key_eq children) d.states
      → Arrives d m
      → Fine (receive key_eq d m at)
  unfolding receive address
  receive-Fine d (child_started k a) at h new =
      noted-Fine (started key_eq d k a) (link a ∷ [])
        (started-OfDecider (IsChild key_eq children) key_eq d k a h) (started-ne-panicked d k a new)
  receive-Fine d (start_failed k) at h new = failed-OfKeys (IsChild key_eq children) key_eq d k h
  receive-Fine d (stop_failed a) at h new = quit-OfKeys d h
  receive-Fine d (get_child r k) at h new = elim (Option-cases (find key_eq k d.states)) [
    | inl e ↦ rw (receive, address, e) h
    | inr (s, e) ↦ rw (receive, address, e) h
  ]
  receive-Fine d (peer_exited a n) at h new =
      noted-Fine (exited d a n at) [] (exited-OfDecider (IsChild key_eq children) d a n at h)
        (exited-ne-panicked d a n at)
  receive-Fine d unexpected at h new = h

  -- Turns of the loop: an action, and then a message.
  pub data Reach (d : Decider K) : Decider K → Type 0 where
    here : Reach d d
    turn :
        {e f g : Decider K} (forked : Bool) (at later : Instant) (m : Message K H)
        (calls more : List (Call K H))
        → Reach d e
        → act key_eq children forked at e ≡ goes_on (f, calls)
        → Arrives f m
        → receive key_eq f m later ≡ goes_on (g, more)
        → Reach d g

  Reach-OfKeys :
      {d e : Decider K}
      → OfKeys (IsChild key_eq children) d.states
      → Reach d e
      → OfKeys (IsChild key_eq children) e.states
  Reach-OfKeys h here = h
  Reach-OfKeys h (turn {e} {f} forked at later m calls more r a new b) =
      let g = subst Fine a (act-Fine forked at e (Reach-OfKeys h r)) in
      subst Fine b (receive-Fine f m later g new)

  Fine-ne-panicked : (t : Turn (Decider K × List (Call K H))) → Fine t → t ≢ panicked
  Fine-ne-panicked t h e = subst Fine e h

module _ {K : Type 0} (H : Type 0) (key_eq : Discrete K) where
  -- From a mixed supervisor with the one-for-one strategy and the children of its specification on,
  -- through any turns of its loop in which no started actor is at the address of another child,
  -- neither carrying out the next action of the decider, which names only children that the
  -- supervisor has, nor handling the next message panics.
  pub Reach-carries_on :
      (r : RestartIntensity) (flat : List (K × ChildSpec)) (d e : Decider K) (forked : Bool)
      (at : Instant) (m : Message K H)
      → add_all key_eq (decider r) flat ≡ ok d
      → Reach H key_eq (collect key_eq [] flat) d e
      → Arrives H key_eq (collect key_eq [] flat) e m
      → (act {H = H} key_eq (collect key_eq [] flat) forked at e ≢ panicked)
        × (receive key_eq e m at ≢ panicked)
  unfolding decider
  Reach-carries_on r flat d e forked at m i reach new =
      let children = collect key_eq [] flat in
      let first =
        add_all-OfKeys key_eq (IsChild key_eq children) [] flat (decider r) d (λ k h. h) tt i in
      let known = Reach-OfKeys H key_eq children first reach in
      (
        Fine-ne-panicked H key_eq children (act key_eq children forked at e)
            (act-Fine H key_eq children forked at e known),
        Fine-ne-panicked H key_eq children (receive key_eq e m at)
            (receive-Fine H key_eq children e m at known new),
      )
