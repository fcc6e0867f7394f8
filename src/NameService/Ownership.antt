-- ===== src/NameService/Ownership.antt =====
-- Who gets a name, and what becomes of the registrations that have expired.
use mm.Shared.{
  ◌≡◌, ◌↔◌, ◌<◌, List, [], ◌∷◌, Option, none, some, Bool, true, false, retain, All, arith,
  ℕ_discrete, Option-cases, inl, inr, map,
}
use mm.Shared.Map.{get, insert, get-insert}
use mm.NameService.{
  Address, Instant, Registration, Name, exclusive, shared, ok, Names, is_live, sweep_name,
  sweep_expired, enter, register, resolve, entries,
}

-- The name may go to `address`: nobody holds it, or the same owner does in the same mode, or both
-- sides share it.
abbrev pub Admits : Option Name → Address → Bool → Type 0
Admits none address is_exclusive = Unit {0}
Admits (some (exclusive owner r)) address true = owner ≡ address
Admits (some (exclusive owner r)) address false = ⊥
Admits (some (shared rs)) address true = ⊥
Admits (some (shared rs)) address false = Unit {0}

-- Every registration of a name lies ahead of `now`.
abbrev pub IsFresh : Instant → Name → Type 0
IsFresh now (exclusive a r) = now < r.valid_thru
IsFresh now (shared rs) = All (λ (e : Address × Registration). now < e.1.valid_thru) rs

retain-IsFresh :
    (now : Instant) (rs : List (Address × Registration))
    → IsFresh now (shared (retain (λ e. is_live now e.1) rs))
unfolding is_live
retain-IsFresh now [] = tt
retain-IsFresh now (e ∷ rs) = ground (arith, retain-IsFresh now rs)

sweep_name-IsFresh : (now : Instant) (n n' : Name) → sweep_name now n ≡ some n' → IsFresh now n'
unfolding sweep_name is_live
sweep_name-IsFresh now (exclusive a r) n' e = ground arith
sweep_name-IsFresh now (shared rs) n' e = ground (arith, retain-IsFresh now rs)

module _ {K : Type 0} where
  -- After a sweep no registration that has run out is left, under any name.
  pub sweep_expired-IsFresh :
      (now : Instant) (m : Names K) → All (λ e. IsFresh now e.1) (sweep_expired now m)
  unfolding sweep_expired
  sweep_expired-IsFresh now [] = tt
  sweep_expired-IsFresh now ((j, n) ∷ m) = elim (Option-cases (sweep_name now n)) [
    | inl e ↦ rw (e, sweep_expired) (sweep_expired-IsFresh now m)
    | inr (n', e) ↦
        rw (e, sweep_expired) (sweep_name-IsFresh now n n' e, sweep_expired-IsFresh now m)
  ]

module _ {K : Type 0} (key_eq : Discrete K) where
  enter-ok_iff :
      (m : Names K) (k : K) (a : Address) (x : Bool) (r : Registration) (o : Option Name)
      → ((enter key_eq m k a x r o).1 ≡ ok) ↔ Admits o a x
  unfolding enter
  enter-ok_iff m k a true r none = ground arith
  enter-ok_iff m k a false r none = ground arith
  enter-ok_iff m k a true r (some (exclusive owner old)) = ground arith
  enter-ok_iff m k a true r (some (shared rs)) = ground arith
  enter-ok_iff m k a false r (some (exclusive owner old)) = ground arith
  enter-ok_iff m k a false r (some (shared rs)) = ground arith

  -- `register` succeeds exactly when what a sweep leaves under the name is nothing, an exclusive
  -- entry of the same address for an exclusive request, or a shared entry for a shared request.
  pub register-ok_iff :
      (m : Names K) (now : Instant) (k : K) (a : Address) (x : Bool) (t : Instant)
      → ((register key_eq m now k a x t).1 ≡ ok) ↔ Admits (get key_eq k (sweep_expired now m)) a x
  unfolding register
  register-ok_iff m now k a x t =
      enter-ok_iff (sweep_expired now m) k a x (record { valid_thru = t })
        (get key_eq k (sweep_expired now m))

  get-entries :
      (a : Address) (r : Registration) (rs : List (Address × Registration))
      → get ℕ_discrete a rs ≡ some r
      → get ℕ_discrete a (map (λ (e : Address × Registration). (e.0, e.1.valid_thru)) rs)
        ≡ some r.valid_thru
  unfolding get
  get-entries a r [] e = cc
  get-entries a r ((b, s) ∷ rs) e = ground (arith, get-entries a r rs)

  enter-resolve :
      (m : Names K) (k : K) (a : Address) (x : Bool) (r : Registration) (o : Option Name)
      → (enter key_eq m k a x r o).1 ≡ ok
      → get ℕ_discrete a (resolve key_eq (enter key_eq m k a x r o).0 k) ≡ some r.valid_thru
  unfolding enter resolve entries get
  enter-resolve m k a true r none e = ground (arith, get-insert key_eq k k (exclusive a r) m)
  enter-resolve m k a false r none e =
      ground (arith, get-insert key_eq k k (shared ((a, r) ∷ [])) m)
  enter-resolve m k a true r (some (exclusive owner old)) e =
      ground (arith, get-insert key_eq k k (exclusive owner r) m)
  enter-resolve m k a true r (some (shared rs)) e = cc
  enter-resolve m k a false r (some (exclusive owner old)) e = cc
  enter-resolve m k a false r (some (shared rs)) e = ground (
    arith,
    get-insert key_eq k k (shared (insert ℕ_discrete a r rs)) m,
    get-insert ℕ_discrete a a r rs,
    get-entries a r (insert ℕ_discrete a r rs),
  )

  -- What has been registered resolves: the name yields the address with its new expiry.
  pub register-resolve :
      (m : Names K) (now : Instant) (k : K) (a : Address) (x : Bool) (t : Instant)
      → (register key_eq m now k a x t).1 ≡ ok
      → get ℕ_discrete a (resolve key_eq (register key_eq m now k a x t).0 k) ≡ some t
  unfolding register
  register-resolve m now k a x t e =
      enter-resolve (sweep_expired now m) k a x (record { valid_thru = t })
        (get key_eq k (sweep_expired now m)) e
