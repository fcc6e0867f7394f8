-- ===== src/Sup/OneForOne/Run.antt =====
-- Any sequence of calls of a one-for-one decider, as its owner makes them: the calls of the trait
-- `Decider` (components/mm1-sup/src/mixed/decider.rs) that change it.
use mm.Shared.{◌≡◌, List, [], ◌∷◌, Bool, true, Option, none, All, arith}
use mm.Sup.Intensity.{Instant}
use mm.Sup.Child.{Address, ChildType, Action, Outcome, ok, err, panicked}
use mm.Sup.OneForOne.{Decider, next_action, exited, quit, started, failed, add, rm}
use mm.Sup.OneForOne.Shutdown.{IsClosing, is_stop_or_quit, next_action-IsClosing}

pub data Call (K : Type 0) : Type 0 where
  add_call : K → ChildType → Call K
  rm_call : K → Call K
  started_call : K → Address → Call K
  exited_call : Address → Bool → Instant → Call K
  failed_call : K → Call K
  quit_call : Bool → Call K
  next_call : Instant → Call K

module _ {K : Type 0} where
  abbrev silent : Outcome (Decider K) → Outcome (Decider K × Option (Action K))
  silent (ok d) = ok (d, none)
  silent (err e) = err e
  silent panicked = panicked

module _ {K : Type 0} (key_eq : Discrete K) where
  unfoldable pub step : Decider K → Call K → Outcome (Decider K × Option (Action K))
  step d (add_call k t) = silent (add key_eq d k t)
  step d (rm_call k) = ok (rm key_eq d k, none)
  step d (started_call k a) = silent (started key_eq d k a)
  step d (exited_call a n at) = silent (exited d a n at)
  step d (failed_call k) = ok (failed key_eq d k, none)
  step d (quit_call b) = ok (quit d b, none)
  step d (next_call at) = next_action d at

  -- A chain of calls that all succeed, with the actions they hand out.
  pub data Run : Decider K → List (Option (Action K)) → Decider K → Type 0 where
    here : {d : Decider K} → Run d [] d
    call :
        {d e f : Decider K} {acts : List (Option (Action K))} (c : Call K) (a : Option (Action K))
        → step d c ≡ ok (e, a)
        → Run e acts f
        → Run d (a ∷ acts) f

module _ {K : Type 0} (key_eq : Discrete K) where
  step-IsClosing :
      (d e : Decider K) (c : Call K) (a : Option (Action K))
      → IsClosing d.status
      → step key_eq d c ≡ ok (e, a)
      → IsClosing e.status × (is_stop_or_quit a ≡ true)
  unfolding step add rm started exited failed quit
  step-IsClosing d e (next_call at) a h p = next_action-IsClosing d e at a h p
  step-IsClosing d e _ a h p = ground arith

  -- From a one-for-one decider that is stopping or stopped, along any calls that succeed, it stays so
  -- and every action handed out stops a child or quits.
  pub Run-IsClosing :
      {d e : Decider K} {acts : List (Option (Action K))}
      → IsClosing d.status
      → Run key_eq d acts e
      → IsClosing e.status × All (λ a. is_stop_or_quit a ≡ true) acts
  Run-IsClosing h here = (h, tt)
  Run-IsClosing {d} h (call {e = m} c a p r) =
      let (h', q) = step-IsClosing d m c a h p in let (z, qs) = Run-IsClosing h' r in (z, (q, qs))
