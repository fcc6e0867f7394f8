-- ===== src/Sup/Scan.antt =====
-- How a loop over the children ends early or goes through: the control flow of `next_action` in
-- components/mm1-sup/src/mixed/strategy/one_for_one.rs and all_for_one.rs, whose bodies `continue`,
-- write the child's status and `return`, or hit `unreachable!`.
use mm.Shared.{List, ◌∷◌, Bool, ◌≡◌, refl, ◌⊎◌, inl, inr}
use mm.Sup.Child.{Action}

-- What the body does at one child of status type `T`.
pub data Verdict (T K : Type 0) : Type 0 where
  skip : Verdict T K
  act : T → Action K → Verdict T K
  unreachable : Verdict T K

-- How the loop over entries of type `E` ends: it returned at one, with the entries written back; it
-- went through, with the flags `all_children_started` and `all_children_stopped`; or it panicked.
pub data Scan (E K : Type 0) : Type 0 where
  acted : List E → Action K → Scan E K
  passed : Bool → Bool → Scan E K
  stuck : Scan E K

-- An entry that the loop left as it was stays in front.
abbrev pub keep : {E K : Type 0} → E → Scan E K → Scan E K
keep e (acted r a) = acted (e ∷ r) a
keep e (passed all_started all_stopped) = passed all_started all_stopped
keep e stuck = stuck

pub Scan-cases :
    {E K : Type 0} (s : Scan E K)
    → ((r : List E) × (a : Action K) × (s ≡ acted r a))
      ⊎ (((b : Bool) × (c : Bool) × (s ≡ passed b c)) ⊎ (s ≡ stuck))
Scan-cases (acted r a) = inl (r, a, refl)
Scan-cases (passed b c) = inr (inl (b, c, refl))
Scan-cases stuck = inr (inr refl)
