-- ===== src/LogFilter/Meaning.antt =====
-- What a list of statements means for a target, without a trie.
use mm.Shared.{
  ◌≡◌, refl, ap, ◌∙◌, List, [], ◌∷◌, ◌++◌, map, Option, none, some, ite, arith, Option-cases, inl,
  inr,
}
use mathlib.Core.Path.{fun_ext}
use mm.LogFilter.{
  Level, FilterTrie, Children, nil, cons, LogTargetConfig, level, children, default, or, child, put,
  child_or_default, set_level, add_statements, from_statements, level_for_target,
}

module _ {K : Type 0} (key_eq : Discrete K) where
  pub path_eq : Discrete (List K)
  path_eq = hlevel key_eq

  -- The level that stands at exactly this path.
  unfoldable pub level_at : FilterTrie K → List K → Option Level
  level_at t [] = level t
  level_at t (k ∷ p) = elim (child key_eq k (children t)) [ none ↦ none | some n ↦ level_at n p ]

  -- The level of the last statement for exactly this path, over an earlier one.
  unfoldable pub last_level : List K → Option Level → List (LogTargetConfig K) → Option Level
  last_level p o [] = o
  last_level p o (s ∷ ss) = last_level p (ite (path_eq s.path p) (some s.level) o) ss

  child-put :
      (k j : K) (t : FilterTrie K) (c : Children K)
      → child key_eq j (put key_eq k t c) ≡ ite (key_eq k j) (some t) (child key_eq j c)
  unfolding child put
  child-put k j t nil = refl
  child-put k j t (cons i u c) = ground (arith, child-put k j t c)

  level_at-default : (p : List K) → level_at default p ≡ none
  unfolding level_at child
  level_at-default [] = refl
  level_at-default (k ∷ p) = refl

  level_at-child :
      (k : K) (p : List K) (t : FilterTrie K)
      → level_at (child_or_default key_eq k (children t)) p ≡ level_at t (k ∷ p)
  unfolding child_or_default level_at
  level_at-child k p t = ground (arith, level_at-default p)

  level_at-set_level :
      (q p : List K) (l : Level) (t : FilterTrie K)
      → level_at (set_level key_eq q l t) p ≡ ite (path_eq q p) (some l) (level_at t p)
  unfolding level_at set_level
  level_at-set_level [] [] l t = ground arith
  level_at-set_level [] (j ∷ p) l t = ground arith
  level_at-set_level (k ∷ q) [] l t = ground arith
  level_at-set_level (k ∷ q) (j ∷ p) l t = ground (
    arith,
    child-put k j (set_level key_eq q l (child_or_default key_eq k (children t))) (children t),
    level_at-set_level q p l (child_or_default key_eq k (children t)),
    level_at-child k p t,
  )

  level_at-add_statements :
      (p : List K) (ss : List (LogTargetConfig K)) (t : FilterTrie K)
      → level_at (add_statements key_eq t ss) p ≡ last_level p (level_at t p) ss
  unfolding add_statements last_level
  level_at-add_statements p [] t = refl
  level_at-add_statements p (s ∷ ss) t =
      level_at-add_statements p ss (set_level key_eq s.path s.level t)
      ∙ ap (λ (o : Option Level). last_level p o ss) (level_at-set_level s.path p s.level t)

  -- The trie holds at each path the level of the last statement for it.
  pub level_at-from_statements :
      (p : List K) (ss : List (LogTargetConfig K))
      → level_at (from_statements key_eq ss) p ≡ last_level p none ss
  unfolding from_statements
  level_at-from_statements p ss =
      level_at-add_statements p ss default
      ∙ ap (λ (o : Option Level). last_level p o ss) (level_at-default p)

-- The first level that a list of paths has.
abbrev pub first : {K : Type 0} → (List K → Option Level) → List (List K) → Option Level
first f [] = none
first f (p ∷ ps) = or (f p) (first f ps)

module _ {K : Type 0} (key_eq : Discrete K) (star : K) where
  -- The paths whose statements may speak for a target, the most specific first: the target itself, then
  -- for each shorter prefix the wildcard below it and the prefix.
  abbrev pub candidates : List K → List (List K)
  candidates [] = [] ∷ []
  candidates (k ∷ p) = map (λ q. k ∷ q) (candidates p) ++ (star ∷ []) ∷ [] ∷ []

  first-append :
      (f : List K → Option Level) (ps qs : List (List K))
      → first f (ps ++ qs) ≡ or (first f ps) (first f qs)
  first-append f [] qs = refl
  first-append f (p ∷ ps) qs = ground (arith, first-append f ps qs)

  first-below :
      (t : FilterTrie K) (k : K) (ps : List (List K))
      → first (level_at key_eq t) (map (λ q. k ∷ q) ps)
        ≡ elim (child key_eq k (children t)) [ none ↦ none | some n ↦ first (level_at key_eq n) ps ]
  unfolding level_at
  first-below t k [] = ground arith
  first-below t k (p ∷ ps) = ground (arith, first-below t k ps)

  level_for_target-candidates :
      (p : List K) (t : FilterTrie K)
      → level_for_target key_eq star t p ≡ first (level_at key_eq t) (candidates p)
  unfolding level_for_target level_at
  level_for_target-candidates [] t = ground arith
  level_for_target-candidates (k ∷ p) t = elim (Option-cases (child key_eq k (children t))) [
    | inl e ↦ ground (
      arith,
      first-append (level_at key_eq t) (map (λ (q : List K). k ∷ q) (candidates p))
          ((star ∷ []) ∷ [] ∷ []),
      first-below t k (candidates p),
    )
    | inr (n, e) ↦ ground (
      arith,
      first-append (level_at key_eq t) (map (λ (q : List K). k ∷ q) (candidates p))
          ((star ∷ []) ∷ [] ∷ []),
      first-below t k (candidates p),
      level_for_target-candidates p n,
    )
  ]

  -- The level that the trie of a list of statements gives a target is that of the last statement for
  -- the first of its candidate paths which has a statement: the target, then for each shorter prefix
  -- the wildcard below it and the prefix.
  pub level_for_target-from_statements :
      (ss : List (LogTargetConfig K)) (p : List K)
      → level_for_target key_eq star (from_statements key_eq ss) p
        ≡ first (λ q. last_level key_eq q none ss) (candidates p)
  level_for_target-from_statements ss p =
      level_for_target-candidates p (from_statements key_eq ss)
      ∙ ap (λ (f : List K → Option Level). first f (candidates p))
          (fun_ext (λ q. level_at-from_statements key_eq q ss))
