-- ===== src/Config/Validation.antt =====
-- core/mm1-node/src/config/validation.rs, config.rs, and runtime/rt.rs and rt_api.rs as far as they rely on the
-- configuration: the validation, the local networks, the creation of a node, and the choice of an actor's runtime. The
-- lists of inbound and outbound connections are handed on as they are, and left out.
use mm.Shared.{
  List, [], ◌∷◌, ◌++◌, map, retain, length, ◌==◌, Option, none, some, Bool, true, false,
  if◌then◌else◌,
}
use mm.Shared.Map.{get}
use mm.Shared.Ordered.{NameOrder}
use mm.Subnet.{NetAddress}
use mm.Config.{overlapping_local_nets}
use mm.Config.Actor.{ActorConfigNode, ActorKey, Names, runtime_keys, invalid_keys, select}
use mm.Config.Runtimes.{
  RtConfigs, Builder, TimeError, time_driver_validation_errors, keys_of, build_runtimes,
}

pub data LocalSubnetKind : Type 0 where
  auto bind : LocalSubnetKind

pub record DefLocalSubnet : Type 0 where
  pub net : NetAddress
  pub kind : LocalSubnetKind

pub record Mm1NodeConfig (S : Type 0) : Type 0 where
  pub local_subnets : List DefLocalSubnet
  pub actor : ActorConfigNode S
  pub runtime : RtConfigs S

abbrev pub is_auto : DefLocalSubnet → Bool
is_auto d = elim d.kind [ auto ↦ true | bind ↦ false ]

-- The texts of the errors, as data.
pub data ConfigError (S : Type 0) : Type 0 where
  invalid_rt_keys : Names S → ConfigError S
  without_time : TimeError S → ConfigError S
  not_one_auto : ConfigError S
  overlaps : NetAddress → NetAddress → ConfigError S

pub data Checked (S : Type 0) : Type 0 where
  valid : Mm1NodeConfig S → Checked S
  rejected : List (ConfigError S) → Mm1NodeConfig S → Checked S

-- `default_local_subnets`
abbrev pub default_local_subnets : List DefLocalSubnet
default_local_subnets =
    record { net = record { address = 0xFFF8000000000000; mask = 13 }; kind = auto }
    ∷ record { net = record { address = 0xFFF0000000000000; mask = 13 }; kind = bind }
    ∷ []

-- `find` of the first automatic one; `none` where `expect` panics.
unfoldable pub address_auto : List DefLocalSubnet → Option NetAddress
address_auto [] = none
address_auto (d ∷ l) = let rest = address_auto l in if is_auto d then some d.net else rest

unfoldable pub addresses_bind : List DefLocalSubnet → List NetAddress
addresses_bind [] = []
addresses_bind (d ∷ l) = let rest = addresses_bind l in if is_auto d then rest else d.net ∷ rest

unfoldable pub auto_errors : {S : Type 0} → List DefLocalSubnet → List (ConfigError S)
auto_errors l = if length (retain is_auto l) == 1 then [] else not_one_auto ∷ []

abbrev pub key_errors : {S : Type 0} → Names S → List (ConfigError S)
key_errors [] = []
key_errors (x ∷ r) = invalid_rt_keys (x ∷ r) ∷ []

abbrev pub checked : {S : Type 0} → Mm1NodeConfig S → List (ConfigError S) → Checked S
checked c [] = valid c
checked c (e ∷ r) = rejected (e ∷ r) c

module _ {S : Type 0} (name_eq : Discrete S) (order : NameOrder S) where
  unfoldable pub ensure_runtime_keys_are_valid :
      ActorConfigNode S → Names S → Option (List (ConfigError S))
  unfolding runtime_keys invalid_keys
  ensure_runtime_keys_are_valid n available = elim (runtime_keys order n) [
    | none ↦ none
    | some used ↦ some (key_errors (invalid_keys order used available))
  ]

  -- `none` where a loop has not ended or a range is no network's.
  unfoldable pub try_from : Mm1NodeConfig S → Option (Checked S)
  unfolding runtime_keys ensure_runtime_keys_are_valid keys_of time_driver_validation_errors
      auto_errors overlapping_local_nets
  try_from c = elim (runtime_keys order c.actor) [
    | none ↦ none
    | some used ↦ elim (ensure_runtime_keys_are_valid c.actor (keys_of order c.runtime.named [])) [
      | none ↦ none
      | some keys ↦ elim (overlapping_local_nets (map (λ d. d.net) c.local_subnets)) [
        | none ↦ none
        | some conflicts ↦ some (
            checked c (
              keys
              ++ (map (λ e. without_time e) (time_driver_validation_errors name_eq c.runtime used)
                  ++ (auto_errors c.local_subnets ++ map (λ x. overlaps x.0 x.1) conflicts))))
      ]
    ]
  ]

-- A node that has been created.
pub record Rt (S R : Type 0) : Type 0 where
  pub config : Mm1NodeConfig S
  pub rt_default : R
  pub rt_named : List (S × R)

pub data Created (S R : Type 0) : Type 0 where
  created : Rt S R → Created S R
  config_error : List (ConfigError S) → Mm1NodeConfig S → Created S R
  init_error : Created S R

module _ {S R : Type 0} (name_eq : Discrete S) (order : NameOrder S) (default_name : S)
    (build : Builder S → Option R) where
  -- What follows the validation.
  unfoldable pub create_valid : Mm1NodeConfig S → Created S R
  unfolding build_runtimes
  create_valid c = elim (build_runtimes name_eq default_name build c.runtime) [
    | none ↦ init_error
    | some (default, named) ↦
        created (record { config = c; rt_default = default; rt_named = named })
  ]

  unfoldable pub create : Mm1NodeConfig S → Option (Created S R)
  unfolding try_from create_valid
  create c = elim (try_from name_eq order c) [
    | none ↦ none
    | some (valid d) ↦ some (create_valid d)
    | some (rejected errors d) ↦ some (config_error errors d)
  ]

-- `none` where `expect` panics.
unfoldable pub choose_executor : {S R : Type 0} → Discrete S → Rt S R → Option S → Option R
unfolding get
choose_executor name_eq rt none = some rt.rt_default
choose_executor name_eq rt (some key) = get name_eq key rt.rt_named

-- The runtime that an actor is spawned on.
unfoldable pub executor_of : {S R : Type 0} → Discrete S → S → Rt S R → ActorKey S → Option R
unfolding select choose_executor
executor_of name_eq wildcard rt key =
    choose_executor name_eq rt (select name_eq wildcard rt.config.actor key).runtime
