-- ===== src/Shared/Map.antt =====
-- An association list with at most one entry to a key, for the program's `HashMap`s. The order of
-- the list stands for the iteration order, which the program does not fix.

use mathlib.Core.Path.{◌≡◌, refl}
use mathlib.Core.Logic.{◌≢◌, ite}
use mathlib.Core.Option.{Option, none, some}
use mathlib.Core.List.{List, [], ◌∷◌}
use native.Mathlib.Omega.{arith}

module _ {K V : Type 0} where
  -- The key is not there.
  abbrev pub Lacks : K → List (K × V) → Type 0
  Lacks k [] = Unit {0}
  Lacks k ((j, v) ∷ m) = (j ≢ k) × Lacks k m

  -- No key occurs twice.
  abbrev pub Distinct : List (K × V) → Type 0
  Distinct [] = Unit {0}
  Distinct ((k, v) ∷ m) = Lacks k m × Distinct m

module _ {K V : Type 0} (key_eq : Discrete K) where
  unfoldable pub get : K → List (K × V) → Option V
  get k [] = none
  get k ((j, v) ∷ m) = ite (key_eq j k) (some v) (get k m)

  unfoldable pub insert : K → V → List (K × V) → List (K × V)
  insert k v [] = (k, v) ∷ []
  insert k v ((j, w) ∷ m) = ite (key_eq j k) ((k, v) ∷ m) ((j, w) ∷ insert k v m)

  unfoldable pub remove : K → List (K × V) → List (K × V)
  remove k [] = []
  remove k ((j, v) ∷ m) = ite (key_eq j k) m ((j, v) ∷ remove k m)

  pub get-insert :
      (k j : K) (v : V) (m : List (K × V))
      → get j (insert k v m) ≡ ite (key_eq k j) (some v) (get j m)
  unfolding get insert
  get-insert k j v [] = refl
  get-insert k j v ((i, w) ∷ m) = ground (arith, get-insert k j v m)

  pub Lacks-get : (k : K) (m : List (K × V)) → Lacks k m → get k m ≡ none
  unfolding get
  Lacks-get k [] h = refl
  Lacks-get k ((j, v) ∷ m) h = ground (arith, Lacks-get k m h.1)

  pub get-Lacks : (k : K) (m : List (K × V)) → get k m ≡ none → Lacks k m
  unfolding get
  get-Lacks k [] h = tt
  get-Lacks k ((j, v) ∷ m) h = ground (arith, get-Lacks k m)

  pub get-remove :
      (k j : K) (m : List (K × V))
      → Distinct m
      → get j (remove k m) ≡ ite (key_eq k j) none (get j m)
  unfolding get remove
  get-remove k j [] d = ground arith
  get-remove k j ((i, v) ∷ m) d = ground (arith, get-remove k j m d.1, Lacks-get i m d.0)

  pub Lacks-insert :
      (k j : K) (v : V) (m : List (K × V)) → k ≢ j → Lacks j m → Lacks j (insert k v m)
  unfolding insert
  Lacks-insert k j v [] n h = (n, tt)
  Lacks-insert k j v ((i, w) ∷ m) n h = ground (arith, Lacks-insert k j v m n h.1)

  pub Distinct-insert : (k : K) (v : V) (m : List (K × V)) → Distinct m → Distinct (insert k v m)
  unfolding insert
  Distinct-insert k v [] h = (tt, tt)
  Distinct-insert k v ((i, w) ∷ m) h =
      ground (arith, Distinct-insert k v m h.1, λ (n : k ≢ i). Lacks-insert k i v m n h.0)

  pub Lacks-remove : (k j : K) (m : List (K × V)) → Lacks j m → Lacks j (remove k m)
  unfolding remove
  Lacks-remove k j [] h = tt
  Lacks-remove k j ((i, w) ∷ m) h = ground (arith, Lacks-remove k j m h.1)

  pub Distinct-remove : (k : K) (m : List (K × V)) → Distinct m → Distinct (remove k m)
  unfolding remove
  Distinct-remove k [] h = tt
  Distinct-remove k ((i, w) ∷ m) h = ground (arith, Distinct-remove k m h.1, Lacks-remove k i m h.0)
