-- ===== src/Config/Actor.antt =====
-- core/mm1-node/src/config/actor_config.rs and actor_key.rs: the tree of the actors' configuration, the keys
-- that lead into it, what it selects for a key, and the runtimes that it names. A key of a `HashMap` or a
-- `BTreeSet` is of any type with an order; the tree and its `HashMap`s are declared in one block.
pub mod Walk
pub mod Paths
use mm.Shared.{
  ℕ, zero, suc, ◌+◌, List, [], ◌∷◌, ◌++◌, reverse, Option, none, some, Bool, true, false, not,
  retain, ite,
}
use mm.Shared.Ordered.{NameOrder, find, put}

-- An actor's key: the functions that lead to it from the root.
pub data ActorKey (S : Type 0) : Type 0 where
  root : ActorKey S
  child : ActorKey S → S → ActorKey S

-- The loop of `path`, with the functions that it pushed, the last one first, which `rev` makes the order.
unfoldable pub path_loop : {S : Type 0} → List S → ActorKey S → List S
path_loop acc root = acc
path_loop acc (child parent func) = path_loop (func ∷ acc) parent

unfoldable pub path : {S : Type 0} → ActorKey S → List S
unfolding path_loop
path key = path_loop [] key

pub record ActorConfig (S : Type 0) : Type 0 where
  pub runtime : Option S
  pub message_tap : Option S
  pub netmask : Option ℕ
  pub inbox_size : Option ℕ

mutual
  pub data ActorConfigNode (S : Type 0) : Type 0 where
    node : ActorConfig S → Subs S → ActorConfigNode S

  pub data Subs (S : Type 0) : Type 0 where
    no_sub : Subs S
    sub : S → ActorConfigNode S → Subs S → Subs S

abbrev pub config : {S : Type 0} → ActorConfigNode S → ActorConfig S
config (node c subs) = c

abbrev pub subs_of : {S : Type 0} → ActorConfigNode S → Subs S
subs_of (node c subs) = subs

-- `HashMap::values`
abbrev pub values : {S : Type 0} → Subs S → List (ActorConfigNode S)
values no_sub = []
values (sub p n r) = n ∷ values r

-- `Option::or`
abbrev pub or_else : {A : Type 0} → Option A → Option A → Option A
or_else none b = b
or_else (some a) b = some a

abbrev pub over : {S : Type 0} → ActorConfig S → ActorConfig S → ActorConfig S
over c out = record {
  runtime = or_else c.runtime out.runtime;
  message_tap = or_else c.message_tap out.message_tap;
  netmask = or_else c.netmask out.netmask;
  inbox_size = or_else c.inbox_size out.inbox_size;
}

module _ {S : Type 0} (name_eq : Discrete S) (wildcard : S) where
  -- `sub.get`
  abbrev pub sub_get : S → Subs S → Option (ActorConfigNode S)
  sub_get p no_sub = none
  sub_get p (sub q n r) = ite (name_eq q p) (some n) (sub_get p r)

  -- The loop of `select`; `wildcard` is the key `_`.
  unfoldable pub select_loop : ActorConfigNode S → ActorConfig S → List S → ActorConfig S
  select_loop n out [] = out
  select_loop n out (p ∷ rest) =
      elim (or_else (sub_get p (subs_of n)) (sub_get wildcard (subs_of n))) [
        | none ↦ out
        | some m ↦ select_loop m (over (config m) out) rest
      ]

  unfoldable pub select : ActorConfigNode S → ActorKey S → ActorConfig S
  unfolding select_loop path
  select n key = select_loop n (config n) (path key)

-- `EffectiveActorConfig` for the configuration that was selected.
abbrev pub effective_netmask : {S : Type 0} → ActorConfig S → ℕ
effective_netmask c = elim c.netmask [ none ↦ 56 | some m ↦ m ]

abbrev pub effective_inbox_size : {S : Type 0} → ActorConfig S → ℕ
effective_inbox_size c = elim c.inbox_size [ none ↦ 1024 | some n ↦ n ]

-- A `BTreeSet`.
abbrev pub Names : Type 0 → Type 0
Names S = List (S × Unit {0})

module _ {S : Type 0} (order : NameOrder S) where
  open order use {cmp}

  -- `BTreeSet::contains`
  unfoldable pub has : S → Names S → Bool
  unfolding find
  has k names = elim (find cmp k names) [ none ↦ false | some x ↦ true ]

  unfoldable pub add_name : Option S → Names S → Names S
  unfolding put
  add_name none names = names
  add_name (some k) names = put cmp k tt names

  -- The loop of `runtime_keys`. The top of the stack `q` comes first, so `extend` puts the last value there;
  -- without fuel, the loop has not ended.
  unfoldable pub keys_loop : ℕ → List (ActorConfigNode S) → Names S → Option (Names S)
  unfolding add_name
  keys_loop zero q used = none
  keys_loop (suc fuel) [] used = some used
  keys_loop (suc fuel) (n ∷ q) used =
      keys_loop fuel (reverse (values (subs_of n)) ++ q) (add_name (config n).runtime used)

  -- `used_keys.difference(available_keys)`
  unfoldable pub invalid_keys : Names S → Names S → Names S
  unfolding has
  invalid_keys used available = retain (λ x. not (has x.0 available)) used

-- The nodes of a tree, which are as many as the turns of the loop.
unfoldable mutual
  pub size : {S : Type 0} → ActorConfigNode S → ℕ
  size (node c subs) = suc (size_subs subs)

  pub size_subs : {S : Type 0} → Subs S → ℕ
  size_subs no_sub = 0
  size_subs (sub p n r) = size n + size_subs r

unfoldable pub runtime_keys : {S : Type 0} → NameOrder S → ActorConfigNode S → Option (Names S)
unfolding keys_loop size
runtime_keys order n = keys_loop order (suc (size n)) (n ∷ []) []
