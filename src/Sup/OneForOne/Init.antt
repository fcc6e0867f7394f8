-- ===== src/Sup/OneForOne/Init.antt =====
-- When a one-for-one supervisor reports that its start is done.
use mm.Shared.{◌≡◌, refl, List, [], ◌∷◌, reverse, Bool, true, false, ◌&&◌, Option, some, All, arith}
use mm.Sup.Intensity.{Instant}
use mm.Sup.Scan.{Scan, acted, passed, stuck}
use mm.Sup.Child.{Action, init_done, ok}
use mm.Sup.OneForOne.{
  State, SupStatus, Decider, is_stopped, is_running, scan, consider, conclude, prune, next_action,
  exited, quit, started, failed, add, rm,
}
use mm.Sup.OneForOne.Run.{Call, next_call, step, Run, here, call}

abbrev pub is_starting : SupStatus → Bool
is_starting SupStatus.starting = true
is_starting _ = false

module _ {K : Type 0} where
  abbrev pub AllRunning : List (K × State) → Type 0
  AllRunning = All (λ e. is_running e.1.status ≡ true)

  abbrev pub is_init_done : Option (Action K) → Bool
  is_init_done (some init_done) = true
  is_init_done _ = false

  -- A loop that goes through says by its first flag whether all the children run.
  scan-running :
      (sup : SupStatus) (b c : Bool) (xs : List (K × State)) (e : Bool)
      → scan sup b c xs ≡ passed true e
      → (b ≡ true) × AllRunning xs
  unfolding scan
  scan-running sup b c [] e h = ground arith
  scan-running sup b c ((k, s) ∷ r) e h =
      ground (arith, scan-running sup (b && is_running s.status) (c && is_stopped s.status) r e)

  abbrev NoInit : Scan (K × State) K → Type 0
  NoInit (acted r a) = is_init_done (some a) ≡ false
  NoInit (passed b c) = Unit {0}
  NoInit stuck = Unit {0}

  scan-NoInit : (sup : SupStatus) (b c : Bool) (xs : List (K × State)) → NoInit (scan sup b c xs)
  unfolding scan
  scan-NoInit sup b c [] = tt
  scan-NoInit sup b c ((k, s) ∷ r) =
      ground (arith, scan-NoInit sup (b && is_running s.status) (c && is_stopped s.status) r)

  abbrev Ready : List (K × State) → Scan (K × State) K → Type 0
  Ready xs (acted r a) = Unit {0}
  Ready xs (passed b c) = b ≡ true → AllRunning xs
  Ready xs stuck = Unit {0}

  scan-Ready : (sup : SupStatus) (xs : List (K × State)) → Ready xs (scan sup true true xs)
  scan-Ready sup xs = go (scan sup true true xs) refl
    where
      go : (s : Scan (K × State) K) → scan sup true true xs ≡ s → Ready xs s
      go (acted r a) e = tt
      go stuck e = tt
      go (passed true c) e = λ h. (scan-running sup true true xs c e).1
      go (passed false c) e = λ h. cc

  consider-init_done :
      (d d' : Decider K)
      → consider d ≡ ok (d', some init_done)
      → (d.status ≡ SupStatus.starting)
        × AllRunning d.states
        × (d' ≡ record d { status = SupStatus.running })
  unfolding consider conclude
  consider-init_done d d' e = ground (
    arith,
    scan-NoInit d.status true true [],
    scan-NoInit d.status true true d.states,
    scan-NoInit d.status true true (reverse d.states),
    scan-Ready d.status d.states,
  )

  -- `InitDone` is decided only by a supervisor that is starting, with no orphan to stop, when every
  -- child runs; the supervisor is running from then on.
  pub next_action-init_done :
      (d d' : Decider K) (at : Instant)
      → next_action d at ≡ ok (d', some init_done)
      → (d.status ≡ SupStatus.starting)
        × (d.orphans ≡ [])
        × AllRunning d'.states
        × (d'.status ≡ SupStatus.running)
  unfolding next_action prune
  next_action-init_done d d' at e = ground (arith, consider-init_done (prune d) d')

  consider-not_starting :
      (d e : Decider K) (a : Option (Action K))
      → consider d ≡ ok (e, a)
      → is_starting d.status ≡ false
      → (is_starting e.status ≡ false) × (is_init_done a ≡ false)
  unfolding consider conclude
  consider-not_starting d e a p h = ground (
    arith,
    scan-NoInit d.status true true [],
    scan-NoInit d.status true true d.states,
    scan-NoInit d.status true true (reverse d.states),
  )

module _ {K : Type 0} (key_eq : Discrete K) where
  step-not_starting :
      (d e : Decider K) (c : Call K) (a : Option (Action K))
      → is_starting d.status ≡ false
      → step key_eq d c ≡ ok (e, a)
      → (is_starting e.status ≡ false) × (is_init_done a ≡ false)
  unfolding step add rm started exited failed quit next_action prune
  step-not_starting d e (next_call at) a h p = ground (arith, consider-not_starting (prune d) e a)
  step-not_starting d e _ a h p = ground arith

  -- A supervisor that has left its start-up phase, in whatever way, never reports `InitDone` again.
  pub Run-init_once :
      {d e : Decider K} {acts : List (Option (Action K))}
      → is_starting d.status ≡ false
      → Run key_eq d acts e
      → All (λ a. is_init_done a ≡ false) acts
  Run-init_once h here = tt
  Run-init_once {d} h (call {e = m} c a p r) =
      let (h', q) = step-not_starting d m c a h p in (q, Run-init_once h' r)
