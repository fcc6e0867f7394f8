-- ===== src/Sup/OneForOne/Shutdown.antt =====
-- A one-for-one supervisor that is stopping: what it emits, when it quits, and that it does quit.
use mm.Shared.{
  ◌≡◌, refl, List, [], ◌∷◌, reverse, Bool, true, false, ◌&&◌, Option, none, some, All, All-reverse,
  arith,
}
use mathlib.Core.List.{reverse-reverse}
use mm.Sup.Intensity.{Instant}
use mm.Sup.Scan.{Scan, acted, passed, stuck}
use mm.Sup.Child.{Action, noop, init_done, start, ok}
use mm.Sup.OneForOne.{
  State, SupStatus, Decider, is_stopped, is_running, scan, consider, prune, next_action, conclude,
}

-- Stopping, or stopped for good.
abbrev pub IsClosing : SupStatus → Type 0
IsClosing (SupStatus.stopping b) = Unit {0}
IsClosing SupStatus.stopped = Unit {0}
IsClosing _ = ⊥

abbrev is_stopping : SupStatus → Bool
is_stopping (SupStatus.stopping n) = true
is_stopping _ = false

module _ {K : Type 0} where
  abbrev pub is_stop_or_quit : Option (Action K) → Bool
  is_stop_or_quit none = true
  is_stop_or_quit (some (Action.stop a k)) = true
  is_stop_or_quit (some (Action.quit b)) = true
  is_stop_or_quit (some noop) = false
  is_stop_or_quit (some init_done) = false
  is_stop_or_quit (some (start k)) = false

  abbrev pub AllStopped : List (K × State) → Type 0
  AllStopped = All (λ e. is_stopped e.1.status ≡ true)

  -- While the supervisor stops, the loop acts only by stopping a running child.
  abbrev StopsOnly : Scan (K × State) K → Type 0
  StopsOnly (acted r a) = is_stop_or_quit (some a) ≡ true
  StopsOnly (passed b c) = Unit {0}
  StopsOnly stuck = ⊥

  scan-StopsOnly :
      (sup : SupStatus) (b c : Bool) (xs : List (K × State))
      → is_stopping sup ≡ true
      → StopsOnly (scan sup b c xs)
  unfolding scan
  scan-StopsOnly sup b c [] h = tt
  scan-StopsOnly sup b c ((k, s) ∷ r) h =
      ground (arith, scan-StopsOnly sup (b && is_running s.status) (c && is_stopped s.status) r h)

  -- A loop that goes through says by its second flag whether all the children are stopped.
  scan-AllStopped :
      (sup : SupStatus) (b c : Bool) (xs : List (K × State)) (f : Bool)
      → scan sup b c xs ≡ passed f true
      → (c ≡ true) × AllStopped xs
  unfolding scan
  scan-AllStopped sup b c [] f e = ground arith
  scan-AllStopped sup b c ((k, s) ∷ r) f e =
      ground (arith, scan-AllStopped sup (b && is_running s.status) (c && is_stopped s.status) r f)

  AllStopped-reverse : (xs : List (K × State)) → AllStopped (reverse xs) → AllStopped xs
  AllStopped-reverse xs h =
      rw (reverse-reverse xs) at (All-reverse (λ e. is_stopped e.1.status ≡ true) (reverse xs) h)

  abbrev is_quit : Action K → Bool
  is_quit (Action.quit b) = true
  is_quit _ = false

  -- The loop itself never quits.
  abbrev NoQuit : Scan (K × State) K → Type 0
  NoQuit (acted r a) = is_quit a ≡ false
  NoQuit (passed b c) = Unit {0}
  NoQuit stuck = Unit {0}

  scan-NoQuit : (sup : SupStatus) (b c : Bool) (xs : List (K × State)) → NoQuit (scan sup b c xs)
  unfolding scan
  scan-NoQuit sup b c [] = tt
  scan-NoQuit sup b c ((k, s) ∷ r) =
      ground (arith, scan-NoQuit sup (b && is_running s.status) (c && is_stopped s.status) r)

  -- What a finished loop says of the children, in the order of the list.
  abbrev Finished : List (K × State) → Scan (K × State) K → Type 0
  Finished xs (acted r a) = Unit {0}
  Finished xs (passed b c) = c ≡ true → AllStopped xs
  Finished xs stuck = Unit {0}

  scan-Finished :
      (sup : SupStatus) (xs : List (K × State)) → Finished xs (scan sup true true (reverse xs))
  scan-Finished sup xs = go (scan sup true true (reverse xs)) refl
    where
      go : (s : Scan (K × State) K) → scan sup true true (reverse xs) ≡ s → Finished xs s
      go (acted r a) e = tt
      go stuck e = tt
      go (passed b true) e =
          λ h. AllStopped-reverse xs (scan-AllStopped sup true true (reverse xs) b e).1
      go (passed b false) e = λ h. cc

  consider-quit :
      (d d' : Decider K) (b : Bool)
      → consider d ≡ ok (d', some (Action.quit b))
      → (d.status ≡ SupStatus.stopping b)
        × AllStopped d.states
        × (d' ≡ record d { status = SupStatus.stopped })
  unfolding consider conclude
  consider-quit d d' b e = ground (
    arith,
    scan-NoQuit d.status true true [],
    scan-NoQuit d.status true true d.states,
    scan-NoQuit d.status true true (reverse d.states),
    scan-Finished d.status d.states,
  )

  -- If `next_action` of a one-for-one decider decides `Quit` with a flag, the supervisor was stopping
  -- with that flag, no orphan was left, every child is stopped, and the supervisor is stopped
  -- afterwards.
  pub next_action-quit :
      (d d' : Decider K) (at : Instant) (b : Bool)
      → next_action d at ≡ ok (d', some (Action.quit b))
      → (d.status ≡ SupStatus.stopping b)
        × (d.orphans ≡ [])
        × AllStopped d'.states
        × (d'.status ≡ SupStatus.stopped)
  unfolding next_action prune
  next_action-quit d d' at b e = ground (arith, consider-quit (prune d) d' b)

  consider-IsClosing :
      (d e : Decider K) (a : Option (Action K))
      → IsClosing d.status
      → consider d ≡ ok (e, a)
      → IsClosing e.status × (is_stop_or_quit a ≡ true)
  unfolding consider conclude scan
  consider-IsClosing d e a h p =
      ground (arith, scan-StopsOnly d.status true true (reverse d.states))

  pub next_action-IsClosing :
      (d e : Decider K) (at : Instant) (a : Option (Action K))
      → IsClosing d.status
      → next_action d at ≡ ok (e, a)
      → IsClosing e.status × (is_stop_or_quit a ≡ true)
  unfolding next_action prune
  next_action-IsClosing d e at a h p = ground (arith, consider-IsClosing (prune d) e a)
