-- ===== src/Config/Actor/Paths.antt =====
-- core/mm1-node/src/config/actor_config.rs and actor_key.rs: what is selected for an actor.
use mm.Shared.{
  ◌≡◌, refl, sym, ap, ◌∙◌, List, [], ◌∷◌, ◌++◌, Option, none, some, true, ◌||◌, arith, Option-cases,
  inl, inr, map,
}
use mathlib.Core.List.{append_assoc, map-append}
use mm.Config.Actor.{
  ActorKey, root, child, path_loop, path, ActorConfig, ActorConfigNode, node, Subs, no_sub, sub,
  config, subs_of, or_else, over, sub_get, select_loop, select,
}
use mm.Shared.Ordered.{NameOrder}
use mm.Config.Actor.Walk.{is_name, names, names_subs}

module _ {S : Type 0} where
  path_loop-append : (acc : List S) (key : ActorKey S) → path_loop acc key ≡ path key ++ acc
  unfolding path path_loop
  path_loop-append acc root = refl
  path_loop-append acc (child parent func) =
      path_loop-append (func ∷ acc) parent
      ∙ sym (append_assoc (path parent) (func ∷ []) acc)
      ∙ ap (λ p. p ++ acc) (sym (path_loop-append (func ∷ []) parent))

  -- The path of a child is its parent's, followed by the child's function.
  pub path-child :
      (parent : ActorKey S) (func : S) → path (child parent func) ≡ path parent ++ func ∷ []
  unfolding path path_loop
  path-child parent func = path_loop-append (func ∷ []) parent

module _ {S : Type 0} (name_eq : Discrete S) (wildcard : S) where
  -- The child of a node for a function: its own, or else the wildcard's.
  abbrev pub step_to : ActorConfigNode S → S → Option (ActorConfigNode S)
  step_to n p =
      or_else (sub_get name_eq wildcard p (subs_of n))
        (sub_get name_eq wildcard wildcard (subs_of n))

  -- The configurations along a path below a node, as far as there are nodes, the deepest one first.
  abbrev pub below : ActorConfigNode S → List S → List (ActorConfig S)
  below n [] = []
  below n (p ∷ rest) = elim (step_to n p) [ none ↦ [] | some m ↦ below m rest ++ config m ∷ [] ]

  abbrev pub visited : ActorConfigNode S → List S → List (ActorConfig S)
  visited n rest = below n rest ++ config n ∷ []

  -- The first that is set.
  abbrev pub first_set : {A : Type 0} → List (Option A) → Option A
  first_set [] = none
  first_set (o ∷ r) = or_else o (first_set r)

  first_set-append :
      {A : Type 0} (a b : List (Option A))
      → first_set (a ++ b) ≡ or_else (first_set a) (first_set b)
  first_set-append [] b = refl
  first_set-append (none ∷ a) b = first_set-append a b
  first_set-append (some x ∷ a) b = refl

  or_else_assoc :
      {A : Type 0} (a b c : Option A) → or_else (or_else a b) c ≡ or_else a (or_else b c)
  or_else_assoc none b c = refl
  or_else_assoc (some x) b c = refl

  or_else-none : {A : Type 0} (a : Option A) → or_else a none ≡ a
  or_else-none none = refl
  or_else-none (some x) = refl

  -- A setting that `over` treats as it treats the four.
  select_loop-first_set :
      {A : Type 0} (f : ActorConfig S → Option A)
      → ((c out : ActorConfig S) → f (over c out) ≡ or_else (f c) (f out))
      → (n : ActorConfigNode S) (out : ActorConfig S) (rest : List S)
      → f (select_loop name_eq wildcard n out rest)
        ≡ or_else (first_set (map f (below n rest))) (f out)
  unfolding select_loop
  select_loop-first_set f law n out [] = refl
  select_loop-first_set f law n out (p ∷ rest) = elim (Option-cases (step_to n p)) [
    | inl e ↦ rw (select_loop, below, e) refl
    | inr (m, e) ↦
        rw (select_loop, below, e)
          (select_loop-first_set f law m (over (config m) out) rest
            ∙ ap (or_else (first_set (map f (below m rest)))) (law (config m) out)
            ∙ sym (or_else_assoc (first_set (map f (below m rest))) (f (config m)) (f out))
            ∙ ap (λ o. or_else o (f out)) (sym (last_set f m rest)))
  ]
    where
      last_set :
          {A : Type 0} (f : ActorConfig S → Option A) (m : ActorConfigNode S) (rest : List S)
          → first_set (map f (below m rest ++ config m ∷ []))
            ≡ or_else (first_set (map f (below m rest))) (f (config m))
      last_set f m rest =
          rw
            (
              map-append f (below m rest) (config m ∷ []),
              first_set-append (map f (below m rest)) (map f (config m ∷ [])),
            )
            (ap (or_else (first_set (map f (below m rest)))) (or_else-none (f (config m))))

  first_set-visited :
      {A : Type 0} (f : ActorConfig S → Option A)
      → ((c out : ActorConfig S) → f (over c out) ≡ or_else (f c) (f out))
      → (n : ActorConfigNode S) (key : ActorKey S)
      → f (select name_eq wildcard n key) ≡ first_set (map f (visited n (path key)))
  unfolding select
  first_set-visited f law n key =
      select_loop-first_set f law n (config n) (path key)
      ∙ sym (
          rw
            (
              map-append f (below n (path key)) (config n ∷ []),
              first_set-append (map f (below n (path key))) (map f (config n ∷ [])),
            )
            (ap (or_else (first_set (map f (below n (path key))))) (or_else-none (f (config n)))))

  -- Each of the four settings that `select` gives an actor is that of the deepest node along the path
  -- of its key which has the setting, where a node's child for a function is its own or else the one
  -- of the wildcard.
  pub select-first_set :
      (n : ActorConfigNode S) (key : ActorKey S)
      → ((select name_eq wildcard n key).runtime
          ≡ first_set (map (λ c. c.runtime) (visited n (path key))))
        × ((select name_eq wildcard n key).message_tap
            ≡ first_set (map (λ c. c.message_tap) (visited n (path key))))
        × ((select name_eq wildcard n key).netmask
            ≡ first_set (map (λ c. c.netmask) (visited n (path key))))
        × ((select name_eq wildcard n key).inbox_size
            ≡ first_set (map (λ c. c.inbox_size) (visited n (path key))))
  select-first_set n key = (
    first_set-visited (λ c. c.runtime) (λ c out. refl) n key,
    first_set-visited (λ c. c.message_tap) (λ c out. refl) n key,
    first_set-visited (λ c. c.netmask) (λ c out. refl) n key,
    first_set-visited (λ c. c.inbox_size) (λ c out. refl) n key,
  )

  module _ (order : NameOrder S) where
    sub_get-names :
        (k p : S) (r : Subs S) (m : ActorConfigNode S)
        → sub_get name_eq wildcard p r ≡ some m
        → names name_eq order k m ≡ true
        → names_subs name_eq order k r ≡ true
    unfolding names
    sub_get-names k p no_sub m e h = absurd (cc)
    sub_get-names k p (sub q n r) m e h = ground (arith, sub_get-names k p r m)

    step_to-names :
        (k p : S) (n m : ActorConfigNode S)
        → step_to n p ≡ some m
        → names name_eq order k m ≡ true
        → names name_eq order k n ≡ true
    unfolding names
    step_to-names k p (node c r) m e h =
        ground (arith, sub_get-names k p r m, sub_get-names k wildcard r m)

    is_name-over :
        (k : S) (c out : ActorConfig S)
        → is_name name_eq order (over c out).runtime k ≡ true
        → is_name name_eq order c.runtime k || is_name name_eq order out.runtime k ≡ true
    is_name-over k c out h = ground arith

    config-names :
        (k : S) (n : ActorConfigNode S)
        → is_name name_eq order (config n).runtime k ≡ true
        → names name_eq order k n ≡ true
    unfolding names
    config-names k (node c r) h = ground arith

    select_loop-names :
        (k : S) (n : ActorConfigNode S) (out : ActorConfig S) (rest : List S)
        → is_name name_eq order (select_loop name_eq wildcard n out rest).runtime k ≡ true
        → is_name name_eq order out.runtime k || names name_eq order k n ≡ true
    unfolding select_loop
    select_loop-names k n out [] h = ground arith
    select_loop-names k n out (p ∷ rest) h = elim (Option-cases (step_to n p)) [
      | inl e ↦ let same = rw (select_loop, e) at h in ground (arith, same)
      | inr (m, e) ↦
          let h' = rw (select_loop, e) at h in
          ground (
            arith,
            select_loop-names k m (over (config m) out) rest h',
            is_name-over k (config m) out,
            config-names k m,
            step_to-names k p n m e,
          )
    ]

    -- The runtime that is selected for an actor is one that the tree names.
    pub select-names :
        (k : S) (n : ActorConfigNode S) (key : ActorKey S)
        → (select name_eq wildcard n key).runtime ≡ some k
        → names name_eq order k n ≡ true
    unfolding select
    select-names k n key e =
        ground (arith, e, select_loop-names k n (config n) (path key), config-names k n)
