-- ===== src/NameService/Invariant.antt =====
-- The shape that every request of the name server keeps.
use mm.Shared.{
  ◌≡◌, refl, List, [], ◌∷◌, Option, none, some, Bool, true, false, retain, All, arith, ℕ_discrete,
  Option-cases, inl, inr, map, ◌==◌, ◌-◌, ◌+◌, leb, if◌then◌else◌, ℕ,
}
use mm.Shared.Map.{get, insert, remove, Lacks, Distinct, Distinct-insert, Distinct-remove}
use mm.NameService.{
  Address, Instant, Registration, Name, exclusive, shared, Names, is_live, is_empty, sweep_name,
  sweep_expired, enter, register, leave, unregister, evict, resolve, on_resolve, on_register,
}

-- A shared name has at least one owner, and none twice.
abbrev pub IsValidName : Name → Type 0
IsValidName (exclusive a r) = Unit {0}
IsValidName (shared rs) = (is_empty rs ≡ false) × Distinct rs

-- No name stands twice, and each is valid.
pub record IsValid {K : Type 0} (names : Names K) : Type 0 where
  pub distinct : Distinct names
  pub valid : All (λ e. IsValidName e.1) names

module _ {V : Type 0} {K : Type 0} (p : K × V → Bool) where
  Lacks-retain : (k : K) (m : List (K × V)) → Lacks k m → Lacks k (retain p m)
  Lacks-retain k [] h = tt
  Lacks-retain k ((j, v) ∷ m) h = ground (arith, Lacks-retain k m h.1)

  Distinct-retain : (m : List (K × V)) → Distinct m → Distinct (retain p m)
  Distinct-retain [] h = tt
  Distinct-retain ((j, v) ∷ m) h = ground (arith, Distinct-retain m h.1, Lacks-retain j m h.0)

sweep_name-IsValidName :
    (now : Instant) (n n' : Name) → IsValidName n → sweep_name now n ≡ some n' → IsValidName n'
unfolding sweep_name
sweep_name-IsValidName now (exclusive a r) n' h e = ground arith
sweep_name-IsValidName now (shared rs) n' h e =
    ground (arith, Distinct-retain (λ (e : Address × Registration). is_live now e.1) rs h.1)

module _ {K : Type 0} where
  Lacks-sweep : (now : Instant) (k : K) (m : Names K) → Lacks k m → Lacks k (sweep_expired now m)
  unfolding sweep_expired
  Lacks-sweep now k [] h = tt
  Lacks-sweep now k ((j, n) ∷ m) h = ground (arith, Lacks-sweep now k m h.1)

  Distinct-sweep : (now : Instant) (m : Names K) → Distinct m → Distinct (sweep_expired now m)
  unfolding sweep_expired
  Distinct-sweep now [] h = tt
  Distinct-sweep now ((j, n) ∷ m) h =
      ground (arith, Distinct-sweep now m h.1, Lacks-sweep now j m h.0)

  valid-sweep :
      (now : Instant) (m : Names K)
      → All (λ e. IsValidName e.1) m
      → All (λ e. IsValidName e.1) (sweep_expired now m)
  unfolding sweep_expired
  valid-sweep now [] h = tt
  valid-sweep now ((j, n) ∷ m) h = elim (Option-cases (sweep_name now n)) [
    | inl e ↦ rw (e, sweep_expired) (valid-sweep now m h.1)
    | inr (n', e) ↦
        rw (e, sweep_expired) (sweep_name-IsValidName now n n' h.0 e, valid-sweep now m h.1)
  ]

  sweep_expired-IsValid : (now : Instant) {m : Names K} → IsValid m → IsValid (sweep_expired now m)
  sweep_expired-IsValid now {m} v = record {
    distinct = Distinct-sweep now m v.distinct;
    valid = valid-sweep now m v.valid;
  }

module _ {K : Type 0} (key_eq : Discrete K) where
  valid-insert :
      (k : K) (n : Name) (m : Names K)
      → IsValidName n
      → All (λ e. IsValidName e.1) m
      → All (λ e. IsValidName e.1) (insert key_eq k n m)
  unfolding insert
  valid-insert k n [] h v = (h, tt)
  valid-insert k n ((j, w) ∷ m) h v = ground (arith, valid-insert k n m h v.1)

  valid-remove :
      (k : K) (m : Names K)
      → All (λ e. IsValidName e.1) m
      → All (λ e. IsValidName e.1) (remove key_eq k m)
  unfolding remove
  valid-remove k [] v = tt
  valid-remove k ((j, w) ∷ m) v = ground (arith, valid-remove k m v.1)

  pub valid-get :
      (k : K) (n : Name) (m : Names K)
      → All (λ e. IsValidName e.1) m
      → get key_eq k m ≡ some n
      → IsValidName n
  unfolding get
  valid-get k n [] v e = cc
  valid-get k n ((j, w) ∷ m) v e = ground (arith, valid-get k n m v.1)

  insert-IsValid :
      (k : K) (n : Name) {m : Names K} → IsValidName n → IsValid m → IsValid (insert key_eq k n m)
  insert-IsValid k n {m} h v = record {
    distinct = Distinct-insert key_eq k n m v.distinct;
    valid = valid-insert k n m h v.valid;
  }

  remove-IsValid : (k : K) {m : Names K} → IsValid m → IsValid (remove key_eq k m)
  remove-IsValid k {m} v = record {
    distinct = Distinct-remove key_eq k m v.distinct;
    valid = valid-remove k m v.valid;
  }

  is_empty-insert :
      (a : Address) (r : Registration) (rs : List (Address × Registration))
      → is_empty (insert ℕ_discrete a r rs) ≡ false
  unfolding insert
  is_empty-insert a r [] = refl
  is_empty-insert a r ((b, s) ∷ rs) = ground arith

  enter-IsValid :
      (m : Names K) (k : K) (a : Address) (x : Bool) (r : Registration) (o : Option Name)
      → IsValid m
      → get key_eq k m ≡ o
      → IsValid (enter key_eq m k a x r o).0
  unfolding enter
  enter-IsValid m k a true r none v e = insert-IsValid k (exclusive a r) tt v
  enter-IsValid m k a false r none v e = insert-IsValid k (shared ((a, r) ∷ [])) (refl, (tt, tt)) v
  enter-IsValid m k a true r (some (exclusive owner old)) v e =
      ground (arith, insert-IsValid k (exclusive owner r) {m = m} tt v)
  enter-IsValid m k a true r (some (shared rs)) v e = v
  enter-IsValid m k a false r (some (exclusive owner old)) v e = v
  enter-IsValid m k a false r (some (shared rs)) v e =
      insert-IsValid k (shared (insert ℕ_discrete a r rs))
        (
          is_empty-insert a r rs,
          Distinct-insert ℕ_discrete a r rs (valid-get k (shared rs) m v.valid e).1,
        )
        v

  -- A registration, accepted or not, keeps the shape of the names.
  pub register-IsValid :
      (m : Names K) (now : Instant) (k : K) (a : Address) (x : Bool) (t : Instant)
      → IsValid m
      → IsValid (register key_eq m now k a x t).0
  unfolding register
  register-IsValid m now k a x t v =
      enter-IsValid (sweep_expired now m) k a x (record { valid_thru = t })
        (get key_eq k (sweep_expired now m)) (sweep_expired-IsValid now v) refl

  leave-IsValid :
      (m : Names K) (k : K) (a : Address) (o : Option Name)
      → IsValid m
      → get key_eq k m ≡ o
      → IsValid (leave key_eq m k a o).0
  unfolding leave
  leave-IsValid m k a none v e = v
  leave-IsValid m k a (some (exclusive owner r)) v e = ground (arith, remove-IsValid k {m = m} v)
  leave-IsValid m k a (some (shared rs)) v e = ground (
    arith,
    remove-IsValid k {m = m} v,
    λ (h : is_empty (remove ℕ_discrete a rs) ≡ false).
        insert-IsValid k (shared (remove ℕ_discrete a rs)) {m = m}
          (h, Distinct-remove ℕ_discrete a rs (valid-get k (shared rs) m v.valid e).1) v,
  )

  pub unregister-IsValid :
      (m : Names K) (k : K) (a : Address) → IsValid m → IsValid (unregister key_eq m k a).0
  unfolding unregister
  unregister-IsValid m k a v = leave-IsValid m k a (get key_eq k m) v refl

  pub evict-IsValid :
      (m : Names K) (k : K) (es : List (Address × Instant))
      → IsValid m
      → IsValid (evict key_eq m k es)
  unfolding evict
  evict-IsValid m k [] v = v
  evict-IsValid m k ((a, t) ∷ es) v =
      evict-IsValid (unregister key_eq m k a).0 k es (unregister-IsValid m k a v)

  pub on_resolve-IsValid :
      (m : Names K) (k : K) (now : Instant) → IsValid m → IsValid (on_resolve key_eq m k now).0
  unfolding on_resolve
  on_resolve-IsValid m k now v =
      evict-IsValid m k
        (retain (λ e. e.1 == 0)
          (map (λ (e : Address × Instant). (e.0, e.1 - now)) (resolve key_eq m k)))
        v

  pub on_register-IsValid :
      (latest : Instant) (m : Names K) (now : Instant) (k : K) (a : Address) (x : Bool) (ttl : ℕ)
      → IsValid m
      → IsValid (on_register key_eq latest m now k a x ttl).0
  unfolding on_register
  on_register-IsValid latest m now k a x ttl v =
      register-IsValid m now k a x (if leb (now + ttl) latest then now + ttl else now) v
