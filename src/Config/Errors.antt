-- ===== src/Config/Errors.antt =====
-- core/mm1-node/src/config: when the lists of the errors are empty.
use mm.Shared.{
  ◌≡◌, refl, ◌∙◌, List, [], ◌∷◌, ◌++◌, map, Option, none, some, Bool, true, false, ◌||◌, All, arith,
}
use mm.Shared.Map.{get}
use mm.Shared.Ordered.{NameOrder, find, put}
use mm.Config.Actor.{ActorConfigNode, Names, has, invalid_keys}
use mm.Config.Actor.Walk.{names, has-put}
use mm.Config.Runtimes.{RtConfig, lacks_time, named_errors, keys_of}

pub append_nil : {A : Type 0} (xs ys : List A) → xs ++ ys ≡ [] → (xs ≡ []) × (ys ≡ [])
append_nil [] ys e = (refl, e)
append_nil (x ∷ xs) ys e = absurd (cc)

pub map_nil : {A B : Type 0} (f : A → B) (xs : List A) → map f xs ≡ [] → xs ≡ []
map_nil f [] e = refl
map_nil f (x ∷ xs) e = absurd (cc)

module _ {S : Type 0} (name_eq : Discrete S) (order : NameOrder S) where
  open order use {cmp, cmp_eq}

  pub has-All :
      (P : S → Type 0) (k : S) (u : Names S) → All (λ x. P x.0) u → has order k u ≡ true → P k
  unfolding has find
  has-All P k [] h e = absurd (cc)
  has-All P k ((j, v) ∷ u) h e = ground (arith, has-All P k u h.1, h.0, cmp_eq j k, e)

  unfoldable pub is_some : Option RtConfig → Bool
  is_some none = false
  is_some (some r) = true

  pub has-keys_of :
      (k : S) (l : List (S × RtConfig)) (u : Names S)
      → has order k (keys_of order l u) ≡ is_some (get name_eq k l) || has order k u
  unfolding keys_of get is_some
  has-keys_of k [] u = refl
  has-keys_of k ((j, r) ∷ l) u =
      has-keys_of k l (put cmp j tt u) ∙ rw (has-put name_eq order k j u) (ground arith)

  pub invalid_keys-All :
      (used available : Names S)
      → invalid_keys order used available ≡ []
      → All (λ x. has order x.0 available ≡ true) used
  unfolding invalid_keys
  invalid_keys-All [] available e = tt
  invalid_keys-All (x ∷ used) available e = ground (arith, e, invalid_keys-All used available)

  pub All-invalid_keys :
      (used available : Names S)
      → All (λ x. has order x.0 available ≡ true) used
      → invalid_keys order used available ≡ []
  unfolding invalid_keys
  All-invalid_keys [] available h = refl
  All-invalid_keys (x ∷ used) available h = ground (arith, h.0, All-invalid_keys used available h.1)

  pub named_errors-All :
      (named : List (S × RtConfig)) (used : Names S)
      → named_errors name_eq named used ≡ []
      → All (λ x. lacks_time (get name_eq x.0 named) ≡ false) used
  unfolding named_errors
  named_errors-All named [] e = tt
  named_errors-All named (x ∷ used) e = ground (arith, e, named_errors-All named used)

  pub All-named_errors :
      (named : List (S × RtConfig)) (used : Names S)
      → All (λ x. lacks_time (get name_eq x.0 named) ≡ false) used
      → named_errors name_eq named used ≡ []
  unfolding named_errors
  All-named_errors named [] h = refl
  All-named_errors named (x ∷ used) h = ground (arith, h.0, All-named_errors named used h.1)

  pub All-names :
      (P : S → Type 0) (n : ActorConfigNode S) (used : Names S)
      → All (λ x. names name_eq order x.0 n ≡ true) used
      → ((k : S) → names name_eq order k n ≡ true → P k)
      → All (λ x. P x.0) used
  All-names P n [] h p = tt
  All-names P n (x ∷ used) h p = (p x.0 h.0, All-names P n used h.1 p)
