-- ===== src/Sup/Uniform/Kind.antt =====
-- components/mm1-sup/src/uniform.rs: the types of the children of a uniform supervisor. Data that the
-- source changes in place is in the result. `none` is an error: `args gone`, or a restart intensity
-- that is exceeded.
use mm.Shared.{Option, none, some, Bool, true, false, if◌then◌else◌}
use mm.Sup.Intensity.{Instant, RestartIntensity, RestartStats, new_stats, report_exit}

-- The trait `UniformChildType<A>`. `produce` of the actor factory is the first argument.
pub record UniformChildType (A R : Type 0) : Type 1 where
  pub Data : Type 0
  pub new_data : A → Data
  pub make_runnable : (A → R) → Data → Data × Option R
  pub should_restart : Instant → Data → Bool → Data × Option Bool

pub record ChildData (A : Type 0) : Type 0 where
  pub args : A
  pub restarts : RestartStats

-- `should_restart` of `Restarting`.
unfoldable pub restart_within :
    {A : Type 0}
    → RestartIntensity
    → Bool
    → Instant
    → ChildData A
    → Bool
    → ChildData A × Option Bool
unfolding report_exit
restart_within r restart_on_normal_exit now d normal_exit =
    let (restarts, ok) = report_exit r d.restarts now in
    (
      record { args = d.args; restarts = restarts },
      if ok then some restart_on_normal_exit else none,
    )

module _ {A R : Type 0} where
  unfoldable pub take_args : (A → R) → Option A → Option A × Option R
  take_args produce none = (none, none)
  take_args produce (some a) = (none, some (produce a))

  abbrev pub temporary : UniformChildType A R
  temporary = record {
    Data = Option A;
    new_data = λ a. some a;
    make_runnable = take_args;
    should_restart = λ now d normal_exit. (d, some false);
  }

  abbrev pub restarting : RestartIntensity → Bool → UniformChildType A R
  restarting r restart_on_normal_exit = record {
    Data = ChildData A;
    new_data = λ a. record { args = a; restarts = new_stats r };
    make_runnable = λ produce d. (d, some (produce d.args));
    should_restart = restart_within r restart_on_normal_exit;
  }

  abbrev pub permanent : RestartIntensity → UniformChildType A R
  permanent r = restarting r true

  abbrev pub transient : RestartIntensity → UniformChildType A R
  transient r = restarting r false
