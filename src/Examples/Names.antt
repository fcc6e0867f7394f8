-- ===== src/Examples/Names.antt =====
-- A name server with one exclusive and one shared name, at time 50.
use mm.Shared.{ℕ, ◌≡◌, refl, ◌↔◌, [], ◌∷◌, true, false, arith, ℕ_discrete}
use mm.Shared.Map.{get}
use mm.NameService.{
  Registration, exclusive, shared, ok, Names, sweep_expired, sweep_name, register, unregister,
  on_register,
}
use mm.NameService.Invariant.{IsValid}
use mm.NameService.Ownership.{Admits, register-ok_iff}

abbrev thru : ℕ → Registration
thru t = record { valid_thru = t }

abbrev names : Names ℕ
names = (7, exclusive 1 (thru 40)) ∷ (8, shared ((2, thru 30) ∷ (3, thru 90) ∷ [])) ∷ []

names-IsValid : IsValid names
names-IsValid = record { distinct = omega arith; valid = (tt, ((refl, omega arith), tt)) }

register-ok_iff_example :
    ((register ℕ_discrete names 50 7 4 true 80).1 ≡ ok)
    ↔ Admits (get ℕ_discrete 7 (sweep_expired 50 names)) 4 true
register-ok_iff_example = register-ok_iff ℕ_discrete names 50 7 4 true 80

expired_owner_gives_way : (register ℕ_discrete names 50 7 4 true 80).1 ≡ ok
unfolding register sweep_expired sweep_name get ℕ_discrete
expired_owner_gives_way = refl

abbrev served : Names ℕ
served = (unregister ℕ_discrete (on_register ℕ_discrete 1000 [] 50 7 4 false 30).0 7 4).0
