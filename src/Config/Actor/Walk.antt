-- ===== src/Config/Actor/Walk.antt =====
-- core/mm1-node/src/config/actor_config.rs: the runtimes that a tree of actors' configuration names.
use mm.Shared.{
  ℕ, zero, suc, ◌+◌, ◌<◌, ◌≡◌, refl, ◌∙◌, List, [], ◌∷◌, ◌++◌, reverse, Option, none, some, Bool,
  true, false, ◌||◌, ite, All, arith,
}
use mathlib.Core.List.{reverse-cons}
use mm.Shared.Ordered.{NameOrder, find, put}
use mm.Config.Actor.{
  ActorConfig, ActorConfigNode, node, Subs, no_sub, sub, values, Names, has, add_name, keys_loop,
  size, size_subs, runtime_keys,
}

module _ {S : Type 0} (name_eq : Discrete S) (order : NameOrder S) where
  open order use {cmp, cmp_eq, cmp_refl, cmp_gt, cmp_lt, cmp_trans}

  abbrev pub is_name : Option S → S → Bool
  is_name none k = false
  is_name (some j) k = ite (name_eq j k) true false

  -- Some node of the tree names the runtime.
  unfoldable mutual
    pub names : S → ActorConfigNode S → Bool
    names k (node c subs) = is_name c.runtime k || names_subs k subs

    pub names_subs : S → Subs S → Bool
    names_subs k no_sub = false
    names_subs k (sub p n r) = names k n || names_subs k r

  abbrev names_all : S → List (ActorConfigNode S) → Bool
  names_all k [] = false
  names_all k (n ∷ q) = names k n || names_all k q

  abbrev total : List (ActorConfigNode S) → ℕ
  total [] = 0
  total (n ∷ q) = size n + total q

  pub has-put :
      (k j : S) (u : Names S)
      → has order k (put cmp j tt u) ≡ ite (name_eq j k) true (has order k u)
  unfolding has find put
  has-put k j [] = ground (arith, cmp_eq j k, cmp_refl j)
  has-put k j ((i, v) ∷ u) = ground (
    arith,
    has-put k j u,
    cmp_eq j k,
    cmp_eq i k,
    cmp_eq i j,
    cmp_refl j,
    cmp_refl i,
    cmp_gt i j,
    cmp_gt j k,
    cmp_gt i k,
    cmp_lt j i,
    cmp_lt k j,
    cmp_lt k i,
    cmp_lt j k,
    cmp_lt i k,
    cmp_trans k j i,
    cmp_trans i j k,
    cmp_trans j i k,
  )

  has-add_name :
      (k : S) (o : Option S) (u : Names S)
      → has order k (add_name order o u) ≡ is_name o k || has order k u
  unfolding add_name
  has-add_name k none u = refl
  has-add_name k (some j) u = has-put k j u ∙ ground arith

  names_all-append :
      (k : S) (q r : List (ActorConfigNode S))
      → names_all k (q ++ r) ≡ names_all k q || names_all k r
  names_all-append k [] r = refl
  names_all-append k (n ∷ q) r = ground (arith, names_all-append k q r)

  names_all-reverse :
      (k : S) (q : List (ActorConfigNode S)) → names_all k (reverse q) ≡ names_all k q
  names_all-reverse k [] = refl
  names_all-reverse k (n ∷ q) =
      rw (reverse-cons n q, names_all-append k (reverse q) (n ∷ []), names_all-reverse k q)
        (ground arith)

  total-append : (q r : List (ActorConfigNode S)) → total (q ++ r) ≡ total q + total r
  total-append [] r = omega arith
  total-append (n ∷ q) r = omega (arith, total-append q r)

  total-reverse : (q : List (ActorConfigNode S)) → total (reverse q) ≡ total q
  total-reverse [] = refl
  total-reverse (n ∷ q) =
      rw (reverse-cons n q) (omega (arith, total-append (reverse q) (n ∷ []), total-reverse q))

  names_all-values : (k : S) (r : Subs S) → names_all k (values r) ≡ names_subs k r
  unfolding names
  names_all-values k no_sub = refl
  names_all-values k (sub p n r) = ground (arith, names_all-values k r)

  total-values : (r : Subs S) → total (values r) ≡ size_subs r
  unfolding size
  total-values no_sub = refl
  total-values (sub p n r) = omega (arith, total-values r)

  -- A turn replaces a node by its children.
  turn-names_all :
      (k : S) (c : ActorConfig S) (r : Subs S) (q : List (ActorConfigNode S)) (u : Names S)
      → names_all k (reverse (values r) ++ q) || has order k (add_name order c.runtime u)
        ≡ names_all k (node c r ∷ q) || has order k u
  unfolding names
  turn-names_all k c r q u =
      rw
        (
          names_all-append k (reverse (values r)) q,
          names_all-reverse k (values r),
          names_all-values k r,
          has-add_name k c.runtime u,
        )
        (ground arith)

  keys_loop-names_all :
      (fuel : ℕ) (q : List (ActorConfigNode S)) (u : Names S)
      → total q < fuel
      → (s : Names S) × (keys_loop order fuel q u ≡ some s)
        × ((k : S) → has order k s ≡ names_all k q || has order k u)
  unfolding keys_loop size
  keys_loop-names_all zero q u h = absurd (omega (arith, h))
  keys_loop-names_all (suc fuel) [] u h = (u, refl, λ k. refl)
  keys_loop-names_all (suc fuel) (node c r ∷ q) u h =
      let below : total (reverse (values r) ++ q) < fuel =
        omega (
          arith,
          total-append (reverse (values r)) q,
          total-reverse (values r),
          total-values r,
          h,
        ) in
      let (s, e, f) =
        keys_loop-names_all fuel (reverse (values r) ++ q) (add_name order c.runtime u) below in
      (s, e, λ k. f k ∙ turn-names_all k c r q u)

  put-All :
      (P : S → Type 0) (k : S) (u : Names S)
      → P k
      → All (λ x. P x.0) u
      → All (λ x. P x.0) (put cmp k tt u)
  unfolding put
  put-All P k [] p h = (p, tt)
  put-All P k ((j, v) ∷ u) p h = ground (arith, put-All P k u p h.1)

  add_name-All :
      (P : S → Type 0) (o : Option S) (u : Names S)
      → ((k : S) → is_name o k ≡ true → P k)
      → All (λ x. P x.0) u
      → All (λ x. P x.0) (add_name order o u)
  unfolding add_name
  add_name-All P none u p h = h
  add_name-All P (some k) u p h = put-All P k u (p k (ground arith)) h

  turn_below :
      (k : S) (c : ActorConfig S) (r : Subs S) (q : List (ActorConfigNode S))
      → names_all k (reverse (values r) ++ q) ≡ true
      → names_all k (node c r ∷ q) ≡ true
  unfolding names
  turn_below k c r q h =
      let h' =
        rw
          (
            names_all-append k (reverse (values r)) q,
            names_all-reverse k (values r),
            names_all-values k r,
          )
          at h in
      ground (arith, h')

  turn_here :
      (k : S) (c : ActorConfig S) (r : Subs S) (q : List (ActorConfigNode S))
      → is_name c.runtime k ≡ true
      → names_all k (node c r ∷ q) ≡ true
  unfolding names
  turn_here k c r q h = ground arith

  keys_loop-All :
      (P : S → Type 0) (fuel : ℕ) (q : List (ActorConfigNode S)) (u s : Names S)
      → ((k : S) → names_all k q ≡ true → P k)
      → All (λ x. P x.0) u
      → keys_loop order fuel q u ≡ some s
      → All (λ x. P x.0) s
  unfolding keys_loop
  keys_loop-All P zero q u s p h e = absurd (cc)
  keys_loop-All P (suc fuel) [] u s p h e = ground (arith, e)
  keys_loop-All P (suc fuel) (node c r ∷ q) u s p h e =
      keys_loop-All P fuel (reverse (values r) ++ q) (add_name order c.runtime u) s
        (λ k m. p k (turn_below k c r q m))
        (add_name-All P c.runtime u (λ k m. p k (turn_here k c r q m)) h) e

  -- The loop that collects the runtimes of a tree of actors ends, with exactly those that some node
  -- of the tree names.
  pub runtime_keys-names :
      (n : ActorConfigNode S)
      → (s : Names S) × (runtime_keys order n ≡ some s)
        × ((k : S) → has order k s ≡ names k n)
        × All (λ x. names x.0 n ≡ true) s
  unfolding runtime_keys has
  runtime_keys-names n =
      let (s, e, f) = keys_loop-names_all (suc (size n)) (n ∷ []) [] (omega arith) in
      (
        s,
        e,
        (λ k. f k ∙ ground arith),
        keys_loop-All (λ k. names k n ≡ true) (suc (size n)) (n ∷ []) [] s
            (λ k h. ground (arith, h)) tt e,
      )
