-- ===== src/Shared/SlotMap.antt =====
-- The crate `slotmap` as the program uses it: `insert` gives out a key that is not in use, and the key
-- finds the value until it is removed; `values`, and the pairs
-- of a key and its value that `drain` takes out, are in the order of its iteration. `vacant_slots` shows that the laws can be met.
use Prim.Native.Nat.{ℕ, suc, ◌≤◌, max}
use mathlib.Core.Path.{◌≡◌, refl}
use mathlib.Core.Logic.{◌≢◌, ite}
use mathlib.Core.Option.{Option, none, some}
use mathlib.Core.List.{List, [], ◌∷◌, map}
use native.Mathlib.Omega.{arith}
use native.Mathlib.Decide.{ℕ_discrete}
use mm.Shared.Map as pairs
use mm.Shared.Map.{Lacks, Distinct, Lacks-remove}

pub record SlotMap (V : Type 0) : Type 1 where
  pub Key : Type 0
  pub Slots : Type 0
  pub key_eq : Discrete Key
  pub empty : Slots
  pub get : Slots → Key → Option V
  pub insert : Slots → V → Slots × Key
  pub write : Slots → Key → V → Slots
  pub remove : Slots → Key → Slots
  pub values : Slots → List V
  pub drain : Slots → Slots × List (Key × V)
  pub get-empty : (k : Key) → get empty k ≡ none
  pub insert_fresh : (m : Slots) (v : V) → get m (insert m v).1 ≡ none
  pub get-insert :
      (m : Slots) (v : V) (k : Key)
      → get (insert m v).0 k ≡ ite (key_eq (insert m v).1 k) (some v) (get m k)
  pub get-write :
      (m : Slots) (j : Key) (v : V) (k : Key)
      → get m j ≢ none
      → get (write m j v) k ≡ ite (key_eq j k) (some v) (get m k)
  pub get-remove : (m : Slots) (j k : Key) → get (remove m j) k ≡ ite (key_eq j k) none (get m k)
  pub drain-Distinct : (m : Slots) → Distinct (drain m).1
  pub drain_empty : (m : Slots) (k : Key) → get (drain m).0 k ≡ none
  pub get-drain : (m : Slots) (k : Key) → pairs.get key_eq k (drain m).1 ≡ get m k

module _ {V : Type 0} where
  unfoldable pub slot : List (ℕ × V) → ℕ → Option V
  slot [] k = none
  slot ((j, v) ∷ m) k = ite (ℕ_discrete j k) (some v) (slot m k)

  -- One more than every key in use.
  unfoldable pub next_key : List (ℕ × V) → ℕ
  next_key [] = 0
  next_key ((j, v) ∷ m) = max (suc j) (next_key m)

  unfoldable pub vacate : List (ℕ × V) → ℕ → List (ℕ × V)
  vacate [] k = []
  vacate ((j, v) ∷ m) k = let rest = vacate m k in ite (ℕ_discrete j k) rest ((j, v) ∷ rest)

  slot_above : (m : List (ℕ × V)) (k : ℕ) → next_key m ≤ k → slot m k ≡ none
  unfolding slot next_key
  slot_above [] k h = refl
  slot_above ((j, v) ∷ m) k h = ground (arith, slot_above m k)

  pub slot-vacate :
      (m : List (ℕ × V)) (j k : ℕ) → slot (vacate m j) k ≡ ite (ℕ_discrete j k) none (slot m k)
  unfolding slot vacate
  slot-vacate [] j k = ground arith
  slot-vacate ((i, v) ∷ m) j k = ground (arith, slot-vacate m j k)

  pub slot-cons :
      (m : List (ℕ × V)) (j : ℕ) (v : V) (k : ℕ)
      → slot ((j, v) ∷ m) k ≡ ite (ℕ_discrete j k) (some v) (slot m k)
  unfolding slot
  slot-cons m j v k = refl

  pub slot-write :
      (m : List (ℕ × V)) (j : ℕ) (v : V) (k : ℕ)
      → slot ((j, v) ∷ vacate m j) k ≡ ite (ℕ_discrete j k) (some v) (slot m k)
  unfolding slot
  slot-write m j v k = ground (arith, slot-vacate m j k)

  pub slot-nil : (k : ℕ) → slot [] k ≡ none
  unfolding slot
  slot-nil k = refl

  pub slot-next_key : (m : List (ℕ × V)) → slot m (next_key m) ≡ none
  slot-next_key m = slot_above m (next_key m) (omega arith)

  -- The pairs, without those that an earlier one hides.
  unfoldable pub visible : List (ℕ × V) → List (ℕ × V)
  visible [] = []
  visible ((k, v) ∷ m) = let rest = visible m in (k, v) ∷ vacate rest k

  vacate-Lacks : (m : List (ℕ × V)) (k : ℕ) → Lacks k (vacate m k)
  unfolding vacate
  vacate-Lacks [] k = tt
  vacate-Lacks ((j, v) ∷ m) k = ground (arith, vacate-Lacks m k)

  Lacks-vacate : (m : List (ℕ × V)) (j k : ℕ) → Lacks j m → Lacks j (vacate m k)
  unfolding vacate
  Lacks-vacate [] j k h = tt
  Lacks-vacate ((i, v) ∷ m) j k h = ground (arith, Lacks-vacate m j k h.1)

  vacate-Distinct : (m : List (ℕ × V)) (k : ℕ) → Distinct m → Distinct (vacate m k)
  unfolding vacate
  vacate-Distinct [] k d = tt
  vacate-Distinct ((i, v) ∷ m) k d = ground (arith, vacate-Distinct m k d.1, Lacks-vacate m i k d.0)

  pub visible-Distinct : (m : List (ℕ × V)) → Distinct (visible m)
  unfolding visible
  visible-Distinct [] = tt
  visible-Distinct ((k, v) ∷ m) =
      (vacate-Lacks (visible m) k, vacate-Distinct (visible m) k (visible-Distinct m))

  get-vacate :
      (m : List (ℕ × V)) (j k : ℕ)
      → j ≢ k
      → pairs.get ℕ_discrete k (vacate m j) ≡ pairs.get ℕ_discrete k m
  unfolding pairs.get vacate
  get-vacate [] j k n = refl
  get-vacate ((i, v) ∷ m) j k n = ground (arith, get-vacate m j k n)

  pub get-visible : (m : List (ℕ × V)) (k : ℕ) → pairs.get ℕ_discrete k (visible m) ≡ slot m k
  unfolding pairs.get visible slot
  get-visible [] k = refl
  get-visible ((j, v) ∷ m) k = ground (arith, get-visible m k, get-vacate (visible m) j k)

abbrev pub vacant_slots : (V : Type 0) → SlotMap V
vacant_slots V = record {
  Key = ℕ;
  Slots = List (ℕ × V);
  key_eq = ℕ_discrete;
  empty = [];
  get = slot;
  insert = λ m v. ((next_key m, v) ∷ m, next_key m);
  write = λ m k v. (k, v) ∷ vacate m k;
  remove = vacate;
  values = map (λ e. e.1);
  drain = λ m. ([], visible m);
  get-empty = slot-nil;
  insert_fresh = λ m v. slot-next_key m;
  get-insert = λ m v k. slot-cons m (next_key m) v k;
  get-write = λ m j v k h. slot-write m j v k;
  get-remove = slot-vacate;
  drain-Distinct = visible-Distinct;
  drain_empty = λ m k. slot-nil k;
  get-drain = get-visible;
}
