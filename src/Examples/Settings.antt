-- ===== src/Examples/Settings.antt =====
-- A configuration with an actor that runs on a runtime of its own, under the function 7, and below it the
-- wildcard's actors, which have smaller networks.
use mm.Shared.{
  ℕ, ◌<◌, ◌^◌, ◌≡◌, refl, [], ◌∷◌, map, Option, none, some, true, All, arith, ℕ_discrete,
}
use mm.Subnet.{from_net}
use mm.Config.Actor.{
  ActorKey, root, child, ActorConfig, ActorConfigNode, node, no_sub, sub, path, select,
  runtime_keys, has, Names,
}
use mm.Config.Actor.Walk.{names, runtime_keys-names}
use mm.Config.Actor.Paths.{first_set, visited, select-first_set}
use mm.Config.Runtimes.{Builder, default_config}
use mm.Config.Validation.{
  Mm1NodeConfig, default_local_subnets, Rt, created, valid, create, try_from, executor_of,
}
use mm.Config.Validity.{Decides, try_from-Decides}
use mm.Config.Executors.{IsTimed, executor_of-IsTimed}
use mm.Config.Networks.{Parts, try_from-Parts}
use mm.Examples.Numbers.{order}

abbrev unset : ActorConfig ℕ
unset = record { runtime = none; message_tap = none; netmask = none; inbox_size = none }

abbrev tree : ActorConfigNode ℕ
tree = node unset (
    sub 7
      (node (record unset { runtime = some 5; inbox_size = some 4 })
        (sub 0 (node (record unset { netmask = some 60 }) no_sub) no_sub))
      no_sub)

abbrev key : ActorKey ℕ
key = child (child root 7) 9

abbrev settings : Mm1NodeConfig ℕ
settings = record {
  local_subnets = default_local_subnets;
  actor = tree;
  runtime = record { default = none; named = (5, default_config 2) ∷ [] };
}

abbrev build : Builder ℕ → Option ℕ
build b = some b.thread_name

abbrev started : Rt ℕ ℕ
started = record { config = settings; rt_default = 1; rt_named = (5, 5) ∷ [] }

below_2_64 : All (λ n. n.address < 2 ^ 64) (map (λ d. d.net) default_local_subnets)
below_2_64 = (omega arith, (omega arith, tt))

creates : create ℕ_discrete order 1 build settings ≡ some (created started)
unfolding create from_net ℕ_discrete
creates = refl

accepts : try_from ℕ_discrete order settings ≡ some (valid settings)
unfolding try_from from_net ℕ_discrete
accepts = refl

runtime_keys-names_example :
    (s : Names ℕ) × (runtime_keys order tree ≡ some s)
    × ((k : ℕ) → has order k s ≡ names ℕ_discrete order k tree)
    × All (λ x. names ℕ_discrete order x.0 tree ≡ true) s
runtime_keys-names_example = runtime_keys-names ℕ_discrete order tree

select-first_set_example :
    ((select ℕ_discrete 0 tree key).runtime
      ≡ first_set ℕ_discrete 0 (map (λ c. c.runtime) (visited ℕ_discrete 0 tree (path key))))
    × ((select ℕ_discrete 0 tree key).message_tap
        ≡ first_set ℕ_discrete 0 (map (λ c. c.message_tap) (visited ℕ_discrete 0 tree (path key))))
    × ((select ℕ_discrete 0 tree key).netmask
        ≡ first_set ℕ_discrete 0 (map (λ c. c.netmask) (visited ℕ_discrete 0 tree (path key))))
    × ((select ℕ_discrete 0 tree key).inbox_size
        ≡ first_set ℕ_discrete 0 (map (λ c. c.inbox_size) (visited ℕ_discrete 0 tree (path key))))
select-first_set_example = select-first_set ℕ_discrete 0 tree key

try_from-Decides_example : Decides ℕ_discrete order settings
try_from-Decides_example = try_from-Decides ℕ_discrete order settings below_2_64

executor_of-IsTimed_example :
    IsTimed ℕ_discrete order 0 1 build (executor_of ℕ_discrete 0 started key)
executor_of-IsTimed_example =
    executor_of-IsTimed ℕ_discrete order 0 1 build settings started key below_2_64 (tt, tt) creates

try_from-Parts_example : Parts default_local_subnets
try_from-Parts_example = try_from-Parts ℕ_discrete order settings settings below_2_64 accepts
