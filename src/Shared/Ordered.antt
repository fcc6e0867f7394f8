-- ===== src/Shared/Ordered.antt =====
-- A `BTreeMap` as the list of its entries in the order of the keys; `cmp` is the order. As in the library,
-- an entry whose key is equal to a new one keeps its own key.
use mathlib.Core.Path.{◌≡◌}
use Prim.Native.Nat.{Ordering}
use mathlib.Core.Option.{Option, none, some}
use mathlib.Core.List.{List, [], ◌∷◌}

-- A total order on names, such as that of texts.
pub record NameOrder (N : Type 0) : Type 0 where
  pub cmp : N → N → Ordering
  pub cmp_eq : (a b : N) → cmp a b ≡ Ordering.eq → a ≡ b
  pub cmp_refl : (a : N) → cmp a a ≡ Ordering.eq
  pub cmp_gt : (a b : N) → cmp a b ≡ Ordering.gt → cmp b a ≡ Ordering.lt
  pub cmp_lt : (a b : N) → cmp a b ≡ Ordering.lt → cmp b a ≡ Ordering.gt
  pub cmp_trans :
      (a b c : N) → cmp a b ≡ Ordering.lt → cmp b c ≡ Ordering.lt → cmp a c ≡ Ordering.lt

module _ {K V : Type 0} (cmp : K → K → Ordering) where
  unfoldable pub find : K → List (K × V) → Option (K × V)
  find k [] = none
  find k ((j, v) ∷ m) = elim (cmp j k) [
    | Ordering.lt ↦ find k m
    | Ordering.eq ↦ some (j, v)
    | Ordering.gt ↦ none
  ]

  unfoldable pub put : K → V → List (K × V) → List (K × V)
  put k v [] = (k, v) ∷ []
  put k v ((j, w) ∷ m) = elim (cmp j k) [
    | Ordering.lt ↦ (j, w) ∷ put k v m
    | Ordering.eq ↦ (j, v) ∷ m
    | Ordering.gt ↦ (k, v) ∷ (j, w) ∷ m
  ]

  unfoldable pub delete : K → List (K × V) → List (K × V)
  delete k [] = []
  delete k ((j, w) ∷ m) = elim (cmp j k) [
    | Ordering.lt ↦ (j, w) ∷ delete k m
    | Ordering.eq ↦ m
    | Ordering.gt ↦ (j, w) ∷ m
  ]

  -- `range(k..).next()`.
  unfoldable pub first_from : K → List (K × V) → Option (K × V)
  first_from k [] = none
  first_from k ((j, v) ∷ m) = elim (cmp j k) [ Ordering.lt ↦ first_from k m | _ ↦ some (j, v) ]

  -- `range(..k).next_back()`, with the last entry that was passed.
  unfoldable pub last_before : K → Option (K × V) → List (K × V) → Option (K × V)
  last_before k best [] = best
  last_before k best ((j, v) ∷ m) = elim (cmp j k) [
    | Ordering.lt ↦ last_before k (some (j, v)) m
    | _ ↦ best
  ]
