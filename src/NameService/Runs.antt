-- ===== src/NameService/Runs.antt =====
-- The name server over any sequence of its requests.
use mm.Shared.{ℕ, [], Bool}
use mm.NameService.{Address, Instant, Names, on_register, unregister, on_resolve}
use mm.NameService.Invariant.{IsValid, on_register-IsValid, unregister-IsValid, on_resolve-IsValid}

module _ {K : Type 0} (key_eq : Discrete K) where
  pub data Reached : Names K → Type 0 where
    fresh : Reached []
    registered :
        (latest : Instant) (m : Names K) (now : Instant) (k : K) (a : Address) (exclusive : Bool)
        (ttl : ℕ)
        → Reached m
        → Reached (on_register key_eq latest m now k a exclusive ttl).0
    unregistered :
        (m : Names K) (k : K) (a : Address) → Reached m → Reached (unregister key_eq m k a).0
    resolved :
        (m : Names K) (k : K) (now : Instant) → Reached m → Reached (on_resolve key_eq m k now).0

  -- Whatever requests a name server has had, accepted or not, no name stands twice in it, and every
  -- shared name has owners, none of them twice.
  pub Reached-IsValid : (m : Names K) → Reached m → IsValid m
  Reached-IsValid m fresh = record { distinct = tt; valid = tt }
  Reached-IsValid m (registered latest n now k a x ttl r) =
      on_register-IsValid key_eq latest n now k a x ttl (Reached-IsValid n r)
  Reached-IsValid m (unregistered n k a r) = unregister-IsValid key_eq n k a (Reached-IsValid n r)
  Reached-IsValid m (resolved n k now r) = on_resolve-IsValid key_eq n k now (Reached-IsValid n r)
