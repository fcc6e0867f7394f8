-- ===== src/NameService/Resolution.antt =====
-- Unregistering, and what a resolve request hands out and throws away.
use mm.Shared.{
  ℕ, ◌≡◌, refl, ◌≤◌, ◌<◌, List, [], ◌∷◌, Option, none, some, true, not, retain, All, arith,
  ℕ_discrete, dec_le, ite, ◌==◌, map, ◌-◌,
}
use mm.Shared.Map.{get, remove, get-insert, get-remove}
use mm.NameService.{
  Address, Instant, Registration, Name, exclusive, shared, Names, is_empty, leave, unregister,
  evict, on_resolve, resolve, entries,
}
use mm.NameService.Invariant.{IsValid, valid-get, unregister-IsValid}

get-expiries :
    (a : Address) (rs : List (Address × Registration))
    → get ℕ_discrete a (map (λ (e : Address × Registration). (e.0, e.1.valid_thru)) rs)
      ≡ elim (get ℕ_discrete a rs) [ none ↦ none | some r ↦ some r.valid_thru ]
unfolding get
get-expiries a [] = refl
get-expiries a ((b, s) ∷ rs) = ground (arith, get-expiries a rs)

get-empty :
    (a : Address) (rs : List (Address × Registration))
    → is_empty rs ≡ true
    → get ℕ_discrete a rs ≡ none
unfolding get
get-empty a [] e = refl
get-empty a (r ∷ rs) e = cc

module _ {K : Type 0} (key_eq : Discrete K) where
  leave-resolve :
      (m : Names K) (k : K) (a b : Address) (o : Option Name)
      → IsValid m
      → get key_eq k m ≡ o
      → get ℕ_discrete b (resolve key_eq (leave key_eq m k a o).0 k)
        ≡ ite (ℕ_discrete a b) none (get ℕ_discrete b (resolve key_eq m k))
  unfolding leave resolve entries get
  leave-resolve m k a b none v e = ground arith
  leave-resolve m k a b (some (exclusive owner r)) v e =
      ground (arith, get-remove key_eq k k m v.distinct)
  leave-resolve m k a b (some (shared rs)) v e = ground (
    arith,
    get-remove key_eq k k m v.distinct,
    get-insert key_eq k k (shared (remove ℕ_discrete a rs)) m,
    get-remove ℕ_discrete a b rs (valid-get key_eq k (shared rs) m v.valid e).1,
    get-expiries b rs,
    get-expiries b (remove ℕ_discrete a rs),
    get-empty b (remove ℕ_discrete a rs),
  )

  -- Unregistering an address takes that address off the name, and leaves the name's other addresses.
  pub unregister-resolve :
      (m : Names K) (k : K) (a b : Address)
      → IsValid m
      → get ℕ_discrete b (resolve key_eq (unregister key_eq m k a).0 k)
        ≡ ite (ℕ_discrete a b) none (get ℕ_discrete b (resolve key_eq m k))
  unfolding unregister
  unregister-resolve m k a b v = leave-resolve m k a b (get key_eq k m) v refl

  evict-resolve :
      (m : Names K) (k : K) (b : Address) (es : List (Address × Instant))
      → IsValid m
      → get ℕ_discrete b (resolve key_eq (evict key_eq m k es) k) ≡ elim (get ℕ_discrete b es) [
        | none ↦ get ℕ_discrete b (resolve key_eq m k)
        | some t ↦ none
      ]
  unfolding evict get
  evict-resolve m k b [] v = refl
  evict-resolve m k b ((a, t) ∷ es) v = ground (
    arith,
    evict-resolve (unregister key_eq m k a).0 k b es (unregister-IsValid key_eq m k a v),
    unregister-resolve m k a b v,
  )

  get-retain :
      (now : Instant) (b : Address) (t : Instant) (xs : List (Address × Instant))
      → get ℕ_discrete b xs ≡ some t
      → t ≤ now
      → (u : ℕ) × (get ℕ_discrete b
            (retain (λ e. e.1 == 0) (map (λ (e : Address × Instant). (e.0, e.1 - now)) xs))
          ≡ some u)
  unfolding get
  get-retain now b t [] e h = cc
  get-retain now b t ((a, s) ∷ xs) e h = elim (ℕ_discrete a b) [
    | yes p ↦ (0, ground arith)
    | no p ↦ let (u, q) = get-retain now b t xs (ground arith) h in (u, ground arith)
  ]

  -- After a resolve request no registration of the name that has run out is left.
  pub on_resolve-evicts :
      (m : Names K) (k : K) (now : Instant) (b : Address) (t : Instant)
      → IsValid m
      → get ℕ_discrete b (resolve key_eq (on_resolve key_eq m k now).0 k) ≡ some t
      → now < t
  unfolding on_resolve
  on_resolve-evicts m k now b t v e = elim (dec_le t now) [
    | no p ↦ omega arith
    | yes p ↦
        let kept : get ℕ_discrete b (resolve key_eq m k) ≡ some t = ground (
          arith,
          evict-resolve m k b
              (retain (λ (e : Address × ℕ). e.1 == 0)
                (map (λ (e : Address × Instant). (e.0, e.1 - now)) (resolve key_eq m k)))
              v,
        ) in
        let (u, q) = get-retain now b t (resolve key_eq m k) kept p in
        ground (
          arith,
          evict-resolve m k b
              (retain (λ (e : Address × ℕ). e.1 == 0)
                (map (λ (e : Address × Instant). (e.0, e.1 - now)) (resolve key_eq m k)))
              v,
        )
  ]

  retain-positive : (xs : List (Address × ℕ)) → All (λ e. 0 < e.1) (retain (λ e. not (e.1 == 0)) xs)
  retain-positive [] = tt
  retain-positive (x ∷ xs) = ground (arith, retain-positive xs)

  -- The answer to a resolve request names only addresses that still have time left.
  pub on_resolve-live :
      (m : Names K) (k : K) (now : Instant) → All (λ e. 0 < e.1) (on_resolve key_eq m k now).1
  unfolding on_resolve
  on_resolve-live m k now =
      retain-positive (map (λ (e : Address × Instant). (e.0, e.1 - now)) (resolve key_eq m k))
