-- ===== src/Config/Runtimes.antt =====
-- core/mm1-node/src/config/rt_config.rs: the configuration of the Tokio runtimes, and how they are built. What
-- `Builder::build` of the crate `tokio` gives is a parameter. The default of `worker_threads` comes from the
-- crate `num_cpus`.
use mm.Shared.{
  ℕ, ◌*◌, List, [], ◌∷◌, ◌++◌, Option, none, some, Bool, true, false, not, if◌then◌else◌,
}
use mm.Shared.Map.{get, insert}
use mm.Shared.Ordered.{NameOrder, put}
use mm.Config.Actor.{Names}

pub record RtConfig : Type 0 where
  pub worker_threads : ℕ
  pub blocking_threads_max : ℕ
  pub blocking_thread_keep_alive : ℕ
  pub thread_stack_size : ℕ
  pub enable_io : Bool
  pub enable_time : Bool

-- `num_cpus::get` is the argument; a duration is its seconds.
abbrev pub default_config : ℕ → RtConfig
default_config num_cpus = record {
  worker_threads = num_cpus;
  blocking_threads_max = 512;
  blocking_thread_keep_alive = 10;
  thread_stack_size = 2 * 1024 * 1024;
  enable_io = true;
  enable_time = true;
}

pub record RtConfigs (S : Type 0) : Type 0 where
  pub default : Option RtConfig
  pub named : List (S × RtConfig)

-- What a `Builder` has been told; it has defaults of its own for the numbers.
pub record Builder (S : Type 0) : Type 0 where
  pub thread_name : S
  pub worker_threads : Option ℕ
  pub max_blocking_threads : Option ℕ
  pub thread_keep_alive : Option ℕ
  pub thread_stack_size : Option ℕ
  pub io : Bool
  pub time : Bool

abbrev pub builder : {S : Type 0} → RtConfig → S → Builder S
builder c thread_name = record {
  thread_name = thread_name;
  worker_threads = some c.worker_threads;
  max_blocking_threads = some c.blocking_threads_max;
  thread_keep_alive = some c.blocking_thread_keep_alive;
  thread_stack_size = some c.thread_stack_size;
  io = c.enable_io;
  time = c.enable_time;
}

-- `Builder::new_multi_thread().thread_name("default").enable_all()`
abbrev pub all_enabled : {S : Type 0} → S → Builder S
all_enabled thread_name = record {
  thread_name = thread_name;
  worker_threads = none;
  max_blocking_threads = none;
  thread_keep_alive = none;
  thread_stack_size = none;
  io = true;
  time = true;
}

module _ {S R : Type 0} (name_eq : Discrete S) (default_name : S)
    (build : Builder S → Option R) where
  -- The loop over the named runtimes.
  unfoldable pub build_named : List (S × RtConfig) → List (S × R) → Option (List (S × R))
  unfolding insert
  build_named [] built = some built
  build_named ((n, c) ∷ l) built = elim (build (builder c n)) [
    | none ↦ none
    | some r ↦ build_named l (insert name_eq n r built)
  ]

  unfoldable pub build_default : Option RtConfig → Option R
  build_default none = build (all_enabled default_name)
  build_default (some c) = build (builder c default_name)

  unfoldable pub build_runtimes : RtConfigs S → Option (R × List (S × R))
  unfolding build_default build_named
  build_runtimes c = elim (build_default c.default) [
    | none ↦ none
    | some default ↦ elim (build_named c.named []) [
      | none ↦ none
      | some named ↦ some (default, named)
    ]
  ]

-- The texts of the errors that a configuration may have, as data.
pub data TimeError (S : Type 0) : Type 0 where
  default_without_time : TimeError S
  named_without_time : S → TimeError S

abbrev pub lacks_time : Option RtConfig → Bool
lacks_time none = false
lacks_time (some c) = not c.enable_time

module _ {S : Type 0} (name_eq : Discrete S) where
  unfoldable pub named_errors : List (S × RtConfig) → Names S → List (TimeError S)
  unfolding get
  named_errors named [] = []
  named_errors named ((k, u) ∷ used) =
      let rest = named_errors named used in
      if lacks_time (get name_eq k named) then named_without_time k ∷ rest else rest

  unfoldable pub time_driver_validation_errors : RtConfigs S → Names S → List (TimeError S)
  unfolding named_errors
  time_driver_validation_errors c used =
      (if lacks_time c.default then default_without_time ∷ [] else []) ++ named_errors c.named used

-- The keys of the named runtimes as a `BTreeSet`.
unfoldable pub keys_of : {S : Type 0} → NameOrder S → List (S × RtConfig) → Names S → Names S
unfolding put
keys_of order [] keys = keys
keys_of order ((k, c) ∷ l) keys = keys_of order l (put order.cmp k tt keys)
