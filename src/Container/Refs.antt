-- ===== src/Container/Refs.antt =====
-- core/mm1-node/src/runtime/container.rs: the loop that looks for a vacant watch reference.
use mm.Shared.{
  ℕ, zero, suc, ◌+◌, ◌-◌, ◌≤◌, ◌<◌, ◌≡◌, ◌≢◌, refl, sym, ap, ◌∙◌, List, [], ◌∷◌, none, some,
  ℕ_discrete, length, arith, Option-cases, inl, inr, if◌then◌else◌, leb,
}
use mm.Shared.Map.{get, remove, Distinct, Distinct-remove, get-remove}
use mm.Container.{TakenWatch, find_vacant, succ_ref, max_ref}
use mm.Container.Sets.{WatchRef}

abbrev Refs : Type 0
Refs = List (WatchRef × TakenWatch)

-- How many steps lead from one reference to another.
abbrev pub steps : WatchRef → WatchRef → ℕ
steps a b = if leb a b then b - a else b + max_ref - a

steps-succ :
    (a b : WatchRef) → a < max_ref → b < max_ref → a ≢ b → steps a b ≡ suc (steps (succ_ref a) b)
unfolding succ_ref
steps-succ a b h k n = ground arith

steps_back : (a : WatchRef) → a < max_ref → steps (succ_ref a) a ≡ max_ref - 1
unfolding succ_ref
steps_back a h = ground arith

pub succ_ref-lt : (a : WatchRef) → succ_ref a < max_ref
unfolding succ_ref
succ_ref-lt a = omega arith

-- A reference that the loop does not come to within its fuel makes no difference.
find_vacant-remove :
    (fuel : ℕ) (a b : WatchRef) (taken : Refs)
    → a < max_ref
    → b < max_ref
    → Distinct taken
    → fuel ≤ steps a b
    → find_vacant fuel a (remove ℕ_discrete b taken) ≡ find_vacant fuel a taken
unfolding find_vacant
find_vacant-remove zero a b taken h k d f = refl
find_vacant-remove (suc fuel) a b taken h k d f =
    let differs : b ≢ a = ground arith in
    ground (
      arith,
      get-remove ℕ_discrete b a taken d,
      steps-succ a b h k (λ e. differs (sym e)),
      find_vacant-remove fuel (succ_ref a) b taken (succ_ref-lt a) k d,
    )

length-remove :
    (k : WatchRef) (t : TakenWatch) (taken : Refs)
    → get ℕ_discrete k taken ≡ some t
    → suc (length (remove ℕ_discrete k taken)) ≡ length taken
unfolding get remove
length-remove k t [] h = absurd (cc)
length-remove k t ((j, v) ∷ r) h = ground (arith, length-remove k t r)

-- The reference that the loop yields, from a candidate, within some steps.
abbrev pub IsVacant : Refs → WatchRef → ℕ → WatchRef × WatchRef → Type 0
IsVacant taken candidate fuel x =
    (get ℕ_discrete x.0 taken ≡ none)
    × (x.0 < max_ref)
    × (x.1 ≡ succ_ref x.0)
    × (steps candidate x.0 < fuel)

IsVacant-here :
    (fuel : ℕ) (a : WatchRef) (taken : Refs)
    → a < max_ref
    → get ℕ_discrete a taken ≡ none
    → IsVacant taken a (suc fuel) (a, succ_ref a)
IsVacant-here fuel a taken h e = (e, h, refl, ground arith)

IsVacant-later :
    (fuel : ℕ) (a : WatchRef) (taken : Refs) (x : WatchRef × WatchRef)
    → a < max_ref
    → suc fuel ≤ max_ref
    → Distinct taken
    → IsVacant (remove ℕ_discrete a taken) (succ_ref a) fuel x
    → IsVacant taken a (suc fuel) x
IsVacant-later fuel a taken (r, n) h m d (q, lt, next, near) =
    let other : a ≢ r =
      λ e. absurd (omega (arith, steps_back a h, ap (λ b. steps (succ_ref a) b) e)) in
    (
      ground (arith, get-remove ℕ_discrete a r taken d),
      lt,
      next,
      omega (arith, steps-succ a r h lt other),
    )

-- With distinct references taken, and more fuel than there are of them but at most 2^64, the search from any
-- candidate ends, at a reference that is not taken and that lies fewer steps ahead than there is fuel; the
-- next candidate is its successor.
pub find_vacant-IsVacant :
    (fuel : ℕ) (candidate : WatchRef) (taken : Refs)
    → Distinct taken
    → candidate < max_ref
    → length taken < fuel
    → fuel ≤ max_ref
    → (x : WatchRef × WatchRef) × (find_vacant fuel candidate taken ≡ some x)
      × IsVacant taken candidate fuel x
unfolding find_vacant
find_vacant-IsVacant zero a taken d h l m = absurd (omega arith)
find_vacant-IsVacant (suc fuel) a taken d h l m = elim (Option-cases (get ℕ_discrete a taken)) [
  | inl free ↦ ((a, succ_ref a), rw (free, find_vacant), IsVacant-here fuel a taken h free)
  | inr (t, e) ↦
      let (x, p, later) =
        find_vacant-IsVacant fuel (succ_ref a) (remove ℕ_discrete a taken)
          (Distinct-remove ℕ_discrete a taken d) (succ_ref-lt a)
          (omega (arith, length-remove a t taken e)) (omega arith) in
      let same =
        find_vacant-remove fuel (succ_ref a) a taken (succ_ref-lt a) h d
          (omega (arith, steps_back a h)) in
      (x, rw (e, find_vacant) (sym same ∙ p), IsVacant-later fuel a taken x h m d later)
]
