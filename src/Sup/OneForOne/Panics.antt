-- ===== src/Sup/OneForOne/Panics.antt =====
-- Which calls of the one-for-one decider can panic.
use mm.Shared.{
  ◌≡◌, ◌≢◌, List, [], ◌∷◌, reverse, Bool, true, false, not, ◌&&◌, some, All, All-reverse, retain,
  arith, inl, inr, Option-cases,
}
use mm.Sup.Intensity.{Instant}
use mm.Sup.Scan.{stuck}
use mm.Sup.Child.{Address, panicked}
use mm.Sup.OneForOne.{
  State, SupStatus, Decider, is_gone, is_stopped, is_running, holds, holder, scan, consider, prune,
  next_action, exited,
}

module _ {K : Type 0} where
  -- A child that the prune at the top of `next_action` keeps.
  abbrev Kept : K × State → Type 0
  Kept e = is_gone e.1 ≡ false

  retain-Kept : (xs : List (K × State)) → All Kept (retain (λ e. not (is_gone e.1)) xs)
  retain-Kept [] = tt
  retain-Kept (x ∷ xs) = ground (arith, retain-Kept xs)

  scan-ne-stuck :
      (sup : SupStatus) (b c : Bool) (xs : List (K × State)) → All Kept xs → scan sup b c xs ≢ stuck
  unfolding scan is_gone
  scan-ne-stuck sup b c [] h = λ e. cc
  scan-ne-stuck sup b c ((k, s) ∷ r) h =
      ground (arith, scan-ne-stuck sup (b && is_running s.status) (c && is_stopped s.status) r h.1)

  consider-ne-panicked : (d : Decider K) → All Kept d.states → consider d ≢ panicked
  unfolding consider
  consider-ne-panicked d h = ground (
    arith,
    scan-ne-stuck d.status true true [] tt,
    scan-ne-stuck d.status true true d.states h,
    scan-ne-stuck d.status true true (reverse d.states) (All-reverse Kept d.states h),
  )

  -- `next_action` reaches none of its `unreachable!`s, whatever the state.
  pub next_action-ne-panicked : (d : Decider K) (at : Instant) → next_action d at ≢ panicked
  unfolding next_action
  next_action-ne-panicked d at =
      ground (arith, consider-ne-panicked (prune d) (unfold prune in retain-Kept d.states))

  holder-holds :
      (a : Address) (xs : List (K × State)) (s : State) → holder a xs ≡ some s → holds a s ≡ true
  unfolding holder
  holder-holds a [] s h = cc
  holder-holds a ((k, t) ∷ r) s h = ground (arith, holder-holds a r s)

  -- Nor does `exited` fail one of its assertions.
  pub exited-ne-panicked :
      (d : Decider K) (a : Address) (normal_exit : Bool) (at : Instant)
      → exited d a normal_exit at ≢ panicked
  unfolding exited holds
  exited-ne-panicked d a normal_exit at = elim (Option-cases (holder a d.states)) [
    | inl e ↦ ground arith
    | inr (s, e) ↦ ground (arith, holder-holds a d.states s e)
  ]
