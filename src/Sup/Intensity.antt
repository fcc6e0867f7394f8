-- ===== src/Sup/Intensity.antt =====
-- components/mm1-sup/src/common/restart_intensity.rs. An `Instant` is the time since the earliest
-- instant that the platform represents, so `checked_sub` fails exactly when the result would lie
-- before it. `usize` and instants are unbounded numbers here: nothing in this file adds to them.
pub mod Window
use mm.Shared.{
  ℕ, zero, suc, ◌-◌, ◌≤◌, List, [], ◌∷◌, ◌++◌, Option, none, some, leb, ltb, if◌then◌else◌, length,
  retain, Bool, true, false,
}

abbrev pub Instant : Type 0
Instant = ℕ

abbrev pub Duration : Type 0
Duration = ℕ

pub record RestartIntensity : Type 0 where
  pub max_restarts : ℕ
  pub within : Duration

abbrev pub RestartStats : Type 0
RestartStats = List Instant

-- `Vec::with_capacity` reserves memory only.
unfoldable pub new_stats : RestartIntensity → RestartStats
new_stats r = []

unfoldable pub checked_sub : Instant → Duration → Option Instant
checked_sub now within = if leb within now then some (now - within) else none

abbrev pub unwrap_or {ℓ} : {A : Type ℓ} → Option A → A → A
unwrap_or none d = d
unwrap_or (some a) d = a

unfoldable pub cutoff : RestartIntensity → Instant → Instant
unfolding checked_sub
cutoff r now = unwrap_or (checked_sub now r.within) now

-- The new statistics, and `true` for `Ok(())` or `false` for `Err(MaxRestartIntensityReached)`.
unfoldable pub report_exit : RestartIntensity → RestartStats → Instant → RestartStats × Bool
unfolding cutoff
report_exit r stats now =
    let recent = retain (λ t. leb (cutoff r now) t) stats ++ now ∷ [] in
    (recent, if ltb r.max_restarts (length recent) then false else true)
