-- ===== src/Sup/Uniform/Reaping.antt =====
-- Shutting all the children that run down.
use mm.Shared.{
  ◌≡◌, ◌≢◌, refl, List, [], ◌∷◌, map, Option, none, some, Bool, if◌then◌else◌, arith, ℕ_discrete,
  Option-cases, inl, inr, if_pos,
}
use mm.Shared.SlotMap.{SlotMap}
use mm.Shared.Map.{get, remove, Distinct, Lacks, get-remove, Distinct-remove, Lacks-get}
use mm.Sup.Child.{Address}
use mm.Sup.Uniform.{
  ChildStatus, starting, started, stopping, ChildEntry, Children, Error, no_stop, shutdown, Answers,
  running_at, shut_down, reap_loop, reap_started_children,
}
use mm.Sup.Uniform.Indexes.{address_of, IsValid}

-- The addresses of the children that run.
unfoldable pub running : {D K : Type 0} → List (K × ChildEntry D) → List Address
running [] = []
running ((k, e) ∷ r) = elim (running_at e.status) [ none ↦ running r | some a ↦ a ∷ running r ]

-- The first of the addresses that does not stop.
abbrev pub first_failure : (Address → Bool) → List Address → Option Error
first_failure ok [] = none
first_failure ok (a ∷ r) = if ok a then first_failure ok r else some (no_stop a)

running-address_of : (s : ChildStatus) (a : Address) → running_at s ≡ some a → address_of s ≡ some a
running-address_of starting a h = h
running-address_of (started b) a h = h
running-address_of (stopping b) a h = ground arith

module _ {D : Type 0} (slots : SlotMap (ChildEntry D)) where
  abbrev AreListed : List (slots.Key × ChildEntry D) → List (Address × slots.Key) → Type 0
  AreListed l by_address =
      (k : slots.Key) (e : ChildEntry D) (a : Address)
      → get slots.key_eq k l ≡ some e
      → running_at e.status ≡ some a
      → get ℕ_discrete a by_address ≡ some k

  head_of :
      (k : slots.Key) (e : ChildEntry D) (r : List (slots.Key × ChildEntry D))
      → get slots.key_eq k ((k, e) ∷ r) ≡ some e
  unfolding get
  head_of k e r = ground arith

  tail_of :
      (j k : slots.Key) (e f : ChildEntry D) (r : List (slots.Key × ChildEntry D))
      → Lacks k r
      → get slots.key_eq j r ≡ some f
      → (k ≢ j) × (get slots.key_eq j ((k, e) ∷ r) ≡ some f)
  unfolding get
  tail_of j k e f r l h =
      let differs : k ≢ j = λ s. ground (arith, Lacks-get slots.key_eq k r l) in
      (differs, ground arith)

module _ {D : Type 0} (R H : Type 0) (slots : SlotMap (ChildEntry D)) where
  abbrev Reaps :
      (Address → Bool) → List (slots.Key × ChildEntry D) → List (Address × slots.Key) → Type 0
  Reaps ok l by_address =
      (left : List (Address × slots.Key)) × (reap_loop {R = R} {H = H} slots ok l by_address
        ≡ some (left, map (λ a. shutdown a) (running l), first_failure ok (running l)))

  reap_none :
      (ok : Address → Bool) (k : slots.Key) (e : ChildEntry D) (r : List (slots.Key × ChildEntry D))
      (by_address : List (Address × slots.Key))
      → running_at e.status ≡ none
      → Reaps ok r by_address
      → Reaps ok ((k, e) ∷ r) by_address
  unfolding reap_loop running
  reap_none ok k e r by_address n (left, h) = (left, rw (reap_loop, running, n) h)

  reap_some :
      (ok : Address → Bool) (k : slots.Key) (e : ChildEntry D) (r : List (slots.Key × ChildEntry D))
      (by_address : List (Address × slots.Key)) (a : Address)
      → running_at e.status ≡ some a
      → get ℕ_discrete a by_address ≡ some k
      → Reaps ok r (remove ℕ_discrete a by_address)
      → Reaps ok ((k, e) ∷ r) by_address
  unfolding reap_loop shut_down running
  reap_some ok k e r by_address a n g (left, h) =
      (left, rw (reap_loop, running, n, g, if_pos (slots.key_eq k k) refl, h) refl)

  reap_loop-Reaps :
      (ok : Address → Bool) (l : List (slots.Key × ChildEntry D))
      (by_address : List (Address × slots.Key))
      → Distinct l
      → Distinct by_address
      → AreListed slots l by_address
      → Reaps ok l by_address
  unfolding reap_loop running
  reap_loop-Reaps ok [] by_address d u listed = (by_address, refl)
  reap_loop-Reaps ok ((k, e) ∷ r) by_address d u listed =
      elim (Option-cases (running_at e.status)) [
        | inl n ↦ reap_none ok k e r by_address n (
            reap_loop-Reaps ok r by_address d.1 u
              (λ j f b h i. listed j f b (tail_of slots j k e f r d.0 h).1 i))
        | inr (a, n) ↦
            let g = listed k e a (head_of slots k e r) n in
            reap_some ok k e r by_address a n g (
              reap_loop-Reaps ok r (remove ℕ_discrete a by_address) d.1
                (Distinct-remove ℕ_discrete a by_address u)
                (λ j f b h i.
                  let (differs, h') = tail_of slots j k e f r d.0 h in
                  let old = listed j f b h' i in
                  let other : a ≢ b = λ s. differs cc in
                  ground (arith, get-remove ℕ_discrete a b by_address u)))
      ]

  -- Reaping children whose indexes agree does not panic. It shuts all the children that run down, also
  -- after one that does not stop, and answers the first failure; no child is left.
  pub reap_started_children-all :
      (w : Answers) (c : Children slots)
      → IsValid slots c
      → (left : Children slots) × (reap_started_children {R = R} {H = H} slots w c
          ≡ some (
            (left, map (λ a. shutdown a) (running (slots.drain c.primary).1)),
            first_failure w.stops (running (slots.drain c.primary).1),
          ))
        × ((k : slots.Key) → slots.get left.primary k ≡ none)
  unfolding reap_started_children
  reap_started_children-all w c v =
      let (primary, entries) = slots.drain c.primary in
      let (left, h) =
        reap_loop-Reaps w.stops (slots.drain c.primary).1 c.by_address
          (slots.drain-Distinct c.primary) v.distinct
          (λ k e a h i.
            v.listed k e a (ground (arith, slots.get-drain c.primary k))
              (running-address_of e.status a i)) in
      (
        record { primary = (slots.drain c.primary).0; by_address = left },
        rw (reap_started_children, h) refl,
        slots.drain_empty c.primary,
      )
