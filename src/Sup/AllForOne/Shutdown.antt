-- ===== src/Sup/AllForOne/Shutdown.antt =====
-- An all-for-one supervisor: when it quits, when it reports that its start is done, and that its calls
-- do not panic.
use mm.Shared.{
  ◌≡◌, refl, ◌≢◌, List, [], ◌∷◌, reverse, Bool, true, false, ◌&&◌, some, All, All-reverse, arith,
}
use mathlib.Core.List.{reverse-reverse}
use mm.Sup.Intensity.{Instant}
use mm.Sup.Scan.{Scan, acted, passed, stuck}
use mm.Sup.Child.{Action, ok, panicked}
use mm.Sup.AllForOne.{
  State, SupStatus, Decider, is_stopped, is_running, scan, consider, next_action, conclude,
}

module _ {K : Type 0} where
  abbrev pub AllStopped : List (K × State) → Type 0
  AllStopped = All (λ e. is_stopped e.1.status ≡ true)

  -- A loop that goes through says by its second flag whether all the children are stopped.
  scan-AllStopped :
      (sup : SupStatus) (b c : Bool) (xs : List (K × State)) (f : Bool)
      → scan sup b c xs ≡ passed f true
      → (c ≡ true) × AllStopped xs
  unfolding scan
  scan-AllStopped sup b c [] f e = ground arith
  scan-AllStopped sup b c ((k, s) ∷ r) f e =
      ground (arith, scan-AllStopped sup (b && is_running s.status) (c && is_stopped s.status) r f)

  AllStopped-reverse : (xs : List (K × State)) → AllStopped (reverse xs) → AllStopped xs
  AllStopped-reverse xs h =
      rw (reverse-reverse xs) at (All-reverse (λ e. is_stopped e.1.status ≡ true) (reverse xs) h)

  abbrev is_quit : Action K → Bool
  is_quit (Action.quit b) = true
  is_quit _ = false

  -- The loop itself never quits.
  abbrev NoQuit : Scan (K × State) K → Type 0
  NoQuit (acted r a) = is_quit a ≡ false
  NoQuit (passed b c) = Unit {0}
  NoQuit stuck = Unit {0}

  scan-NoQuit : (sup : SupStatus) (b c : Bool) (xs : List (K × State)) → NoQuit (scan sup b c xs)
  unfolding scan
  scan-NoQuit sup b c [] = tt
  scan-NoQuit sup b c ((k, s) ∷ r) =
      ground (arith, scan-NoQuit sup (b && is_running s.status) (c && is_stopped s.status) r)

  -- What a finished loop says of the children, in the order of the list.
  abbrev Finished : List (K × State) → Scan (K × State) K → Type 0
  Finished xs (acted r a) = Unit {0}
  Finished xs (passed b c) = c ≡ true → AllStopped xs
  Finished xs stuck = Unit {0}

  scan-Finished :
      (sup : SupStatus) (xs : List (K × State)) → Finished xs (scan sup true true (reverse xs))
  scan-Finished sup xs = go (scan sup true true (reverse xs)) refl
    where
      go : (s : Scan (K × State) K) → scan sup true true (reverse xs) ≡ s → Finished xs s
      go (acted r a) e = tt
      go stuck e = tt
      go (passed b true) e =
          λ h. AllStopped-reverse xs (scan-AllStopped sup true true (reverse xs) b e).1
      go (passed b false) e = λ h. cc

  consider-quit :
      (d d' : Decider K) (b : Bool)
      → consider d ≡ ok (d', some (Action.quit b))
      → (d.status ≡ SupStatus.stopping b)
        × AllStopped d.states
        × (d' ≡ record d { status = SupStatus.stopped })
  unfolding consider conclude
  consider-quit d d' b e = ground (
    arith,
    scan-NoQuit d.status true true [],
    scan-NoQuit d.status true true d.states,
    scan-NoQuit d.status true true (reverse d.states),
    scan-Finished d.status d.states,
  )

  -- `Quit` is decided only by a supervisor that is stopping, with the flag that it stops with, no
  -- orphan left and every child stopped; the supervisor is stopped from then on.
  pub group_quits_stopped :
      (d d' : Decider K) (at : Instant) (b : Bool)
      → next_action d at ≡ ok (d', some (Action.quit b))
      → (d.status ≡ SupStatus.stopping b)
        × (d.orphans ≡ [])
        × AllStopped d'.states
        × (d'.status ≡ SupStatus.stopped)
  unfolding next_action
  group_quits_stopped d d' at b e = ground (arith, consider-quit d d' b)

  scan-ne-stuck : (sup : SupStatus) (b c : Bool) (xs : List (K × State)) → scan sup b c xs ≢ stuck
  unfolding scan
  scan-ne-stuck sup b c [] = λ e. cc
  scan-ne-stuck sup b c ((k, s) ∷ r) =
      ground (arith, scan-ne-stuck sup (b && is_running s.status) (c && is_stopped s.status) r)

  -- `next_action` never panics.
  pub group_action-ne-panicked : (d : Decider K) (at : Instant) → next_action d at ≢ panicked
  unfolding next_action consider
  group_action-ne-panicked d at = ground (
    arith,
    scan-ne-stuck d.status true true [],
    scan-ne-stuck d.status true true d.states,
    scan-ne-stuck d.status true true (reverse d.states),
  )
