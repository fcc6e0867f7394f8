-- ===== src/Sup/Intensity/Window.antt =====
-- What the restart statistics hold, and when an exit is one too many.
use mm.Shared.{
  ℕ, ◌+◌, ◌-◌, ◌≤◌, ◌<◌, ◌≡◌, refl, ◌↔◌, [], ◌∷◌, leb, if◌then◌else◌, length, length-append, retain,
  All, true, false, arith,
}
use mm.Sup.Intensity.{Instant, RestartIntensity, RestartStats, cutoff, checked_sub, report_exit}

-- The exits that a window keeps, counted.
abbrev pub recent : ℕ → RestartStats → ℕ
recent from [] = 0
recent from (t ∷ ts) = (if leb from t then 1 else 0) + recent from ts

length-retain-recent :
    (from : ℕ) (ts : RestartStats) → length (retain (λ t. leb from t) ts) ≡ recent from ts
length-retain-recent from [] = refl
length-retain-recent from (t ∷ ts) = ground (arith, length-retain-recent from ts)

-- While the clock has run for at least the window, an exit is refused exactly when it and the
-- recorded exits not older than the window number more than `max_restarts`.
pub report_exit-refuses :
    (r : RestartIntensity) (stats : RestartStats) (now : Instant)
    → r.within ≤ now
    → ((report_exit r stats now).1 ≡ false) ↔ (r.max_restarts < recent (now - r.within) stats + 1)
unfolding report_exit cutoff checked_sub
report_exit-refuses r stats now h = ground (
  arith,
  length-append (retain (λ (t : ℕ). leb (now - r.within) t) stats) (now ∷ []),
  length-retain-recent (now - r.within) stats,
)

recent-future : (from : ℕ) (ts : RestartStats) → All (λ t. t < from) ts → recent from ts ≡ 0
recent-future from [] h = refl
recent-future from (t ∷ ts) h = ground (arith, recent-future from ts h.1)

retain-none :
    (from : ℕ) (ts : RestartStats) → All (λ t. t < from) ts → retain (λ t. leb from t) ts ≡ []
retain-none from [] h = refl
retain-none from (t ∷ ts) h = ground (arith, retain-none from ts h.1)

-- If the window is longer than the clock has run, `max_restarts` is positive and all recorded exits
-- are earlier, `report_exit` accepts the exit and keeps nothing but it.
pub report_exit-forgets :
    (r : RestartIntensity) (stats : RestartStats) (now : Instant)
    → now < r.within
    → 1 ≤ r.max_restarts
    → All (λ t. t < now) stats
    → report_exit r stats now ≡ (now ∷ [], true)
unfolding report_exit cutoff checked_sub
report_exit-forgets r stats now w m h = ground (arith, retain-none now stats h)
