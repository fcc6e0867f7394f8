-- ===== src/LogFilter.antt =====
-- libs/mm1-logger/src/level_filter_trie.rs: the trie of per-target log levels. A path is the list of its
-- segments (`allows` gets it by `split("::")`), of any type with decidable equality; `star` is "*". A
-- level is its verbosity, by which the program compares levels.
pub mod Meaning
use mm.Shared.{ℕ, List, [], ◌∷◌, Option, none, some, Bool, true, leb, ite}

abbrev pub Level : Type 0
Level = ℕ

mutual
  pub data FilterTrie (K : Type 0) : Type 0 where
    node : Option Level → Children K → FilterTrie K

  -- The hash map of the children.
  pub data Children (K : Type 0) : Type 0 where
    nil : Children K
    cons : K → FilterTrie K → Children K → Children K

pub record LogTargetConfig (K : Type 0) : Type 0 where
  pub path : List K
  pub level : Level

abbrev pub level : {K : Type 0} → FilterTrie K → Option Level
level (node l c) = l

abbrev pub children : {K : Type 0} → FilterTrie K → Children K
children (node l c) = c

-- `#[derive(Default)]`
abbrev pub default : {K : Type 0} → FilterTrie K
default = node none nil

-- `Option::or` and `Option::or_else`
abbrev pub or : {A : Type 0} → Option A → Option A → Option A
or none o = o
or (some a) o = some a

module _ {K : Type 0} (key_eq : Discrete K) where
  -- `HashMap::get`
  unfoldable pub child : K → Children K → Option (FilterTrie K)
  child k nil = none
  child k (cons j t c) = ite (key_eq j k) (some t) (child k c)

  -- The value under the key is replaced, or inserted.
  unfoldable pub put : K → FilterTrie K → Children K → Children K
  put k t nil = cons k t nil
  put k t (cons j u c) = ite (key_eq j k) (cons j t c) (cons j u (put k t c))

  -- `children.entry(k).or_default()`
  unfoldable pub child_or_default : K → Children K → FilterTrie K
  child_or_default k c = elim (child k c) [ none ↦ default | some t ↦ t ]

  -- The inner loop of `from_statements` and the assignment after it: the path is walked with nodes made
  -- on the way, and the last node gets the level.
  unfoldable pub set_level : List K → Level → FilterTrie K → FilterTrie K
  set_level [] l t = node (some l) (children t)
  set_level (k ∷ p) l t =
      node (level t) (put k (set_level p l (child_or_default k (children t))) (children t))

  unfoldable pub add_statements : FilterTrie K → List (LogTargetConfig K) → FilterTrie K
  add_statements root [] = root
  add_statements root (s ∷ ss) = add_statements (set_level s.path s.level root) ss

  unfoldable pub from_statements : List (LogTargetConfig K) → FilterTrie K
  unfolding add_statements
  from_statements ss = add_statements default ss

module _ {K : Type 0} (key_eq : Discrete K) (star : K) where
  unfoldable pub level_for_target : FilterTrie K → List K → Option Level
  level_for_target t [] = level t
  level_for_target t (head ∷ rest) =
      or (elim (child key_eq head (children t)) [ none ↦ none | some n ↦ level_for_target n rest ])
        (or (elim (child key_eq star (children t)) [ none ↦ none | some n ↦ level n ]) (level t))

  unfoldable pub allows : FilterTrie K → List K → Level → Bool
  allows t path event_level = elim (level_for_target t path) [
    | none ↦ true
    | some l ↦ leb event_level l
  ]
