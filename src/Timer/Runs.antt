-- ===== src/Timer/Runs.antt =====
-- The timer server over any sequence of its events.
use mm.Shared.{ℕ, ◌≡◌, ◌≢◌, subst, List, Bool, inl, inr}
use mm.Shared.SlotMap.{SlotMap}
use mm.Timer.{
  Instant, Entry, TimerState, Fired, goes_on, ended, panicked, default, schedule, cancel, on_time,
}
use mm.Timer.Invariant.{IsValid, default-IsValid, schedule-IsValid}
use mm.Timer.Cancelling.{cancel-IsValid}
use mm.Timer.Firing.{on_time-sends}

module _ {M : Type 0} (slots : SlotMap (Entry M)) (before : slots.Key → slots.Key → Bool) where
  pub data Reach : TimerState slots before → Type 0 where
    fresh : Reach (default slots before)
    scheduled :
        (s : TimerState slots before) (at : Instant) (message : M)
        → Reach s
        → Reach (schedule slots before s at message).0
    cancelled :
        (s : TimerState slots before) (key : slots.Key)
        → Reach s
        → Reach (cancel slots before s key).0
    fired :
        (ok : ℕ → Bool) (s t : TimerState slots before) (now : Instant) (sent : List M)
        → Reach s
        → on_time slots before ok s now ≡ goes_on t sent
        → Reach t

  went_on :
      (f : Fired (TimerState slots before) M) (t u : TimerState slots before) (a b : List M)
      → f ≡ goes_on t a
      → f ≡ goes_on u b
      → t ≡ u
  went_on f t u a b e g = cc

  not_ended :
      (f : Fired (TimerState slots before) M) (t : TimerState slots before) (a b : List M)
      → f ≡ goes_on t a
      → f ≢ ended b
  not_ended f t a b e g = cc

  valid : (s : TimerState slots before) → Reach s → IsValid slots before s
  valid s fresh = default-IsValid slots before
  valid s (scheduled r at message h) = schedule-IsValid slots before r at message (valid r h)
  valid s (cancelled r key h) = (cancel-IsValid slots before r key (valid r h)).0
  valid s (fired ok r t now a h e) =
      let (sent, unsent, _, _, w) = on_time-sends slots before ok r now (valid r h) in
      elim w [
        | inl (u, f, _, _, v) ↦
            subst (IsValid slots before) (went_on (on_time slots before ok r now) u t sent a f e) v
        | inr (m, rest, f, _, _) ↦ absurd (not_ended (on_time slots before ok r now) t a sent e f)
      ]

  -- In every state of the timer server that messages scheduled, cancelled and fired in any order lead
  -- to, the two indexes agree, and firing what is due at any instant does not panic.
  pub Reach-fires :
      (ok : ℕ → Bool) (s : TimerState slots before) (now : Instant)
      → Reach s
      → IsValid slots before s × (on_time slots before ok s now ≢ panicked)
  Reach-fires ok s now r =
      let v = valid s r in
      let (sent, unsent, _, _, w) = on_time-sends slots before ok s now v in
      (
        v,
        elim w [
          | inl (t, e, _, _, _) ↦ survives (on_time slots before ok s now) t sent e
          | inr (m, rest, e, _, _) ↦ stops (on_time slots before ok s now) sent e
        ],
      )
    where
      survives :
          (f : Fired (TimerState slots before) M) (t : TimerState slots before) (sent : List M)
          → f ≡ goes_on t sent
          → f ≢ panicked
      survives f t sent e p = cc

      stops :
          (f : Fired (TimerState slots before) M) (sent : List M) → f ≡ ended sent → f ≢ panicked
      stops f sent e p = cc
