-- ===== src/Multinode/Waitlist/Order.antt =====
-- components/mm1-multinode/src/actors/multinode_manager.rs: the waiting requests of a name stand together.
use mm.Shared.{
  ◌≡◌, ◌≢◌, refl, ap, ◌∙◌, [], ◌∷◌, none, some, Bool, false, not, ite, All, arith, All-retain,
}
use Prim.Native.Nat.{Ordering}
use mm.Shared.SlotMap.{SlotMap}
use mm.Shared.Ordered.{NameOrder}
use mm.Multinode.Waitlist.{
  WaitlistEntry, Waiters, is_key, has, put, take_out, range_from, skip_none, take_name, waiters_of,
}

module _ {N H K : Type 0} (name_eq : Discrete N) (order : NameOrder N)
    (slots : SlotMap (WaitlistEntry N H K)) (key_before : slots.Key → slots.Key → Bool) where
  open slots use {Key, key_eq}
  open order use {cmp, cmp_eq, cmp_refl, cmp_gt, cmp_lt, cmp_trans}

  abbrev Set : Type 0
  Set = Waiters name_eq cmp slots key_before

  -- The names do not fall along the set.
  abbrev pub Sorted : Set → Type 0
  Sorted [] = Unit {0}
  Sorted ((m, j) ∷ r) = All (λ y. cmp m y.0 ≢ Ordering.gt) r × Sorted r

  le_trans : (a b c : N) → cmp a b ≢ Ordering.gt → cmp b c ≢ Ordering.gt → cmp a c ≢ Ordering.gt
  le_trans a b c h k g = ground (arith, cmp_gt a c g, cmp_eq a b, cmp_trans c a b, cmp_lt c b)

  above-All :
      (a b : N) (r : Set)
      → cmp a b ≢ Ordering.gt
      → All (λ y. cmp b y.0 ≢ Ordering.gt) r
      → All (λ y. cmp a y.0 ≢ Ordering.gt) r
  above-All a b [] h l = tt
  above-All a b (y ∷ r) h l = (le_trans a b y.0 h l.0, above-All a b r h l.1)

  All-put :
      (a n : N) (k : Key) (r : Set)
      → cmp a n ≢ Ordering.gt
      → All (λ y. cmp a y.0 ≢ Ordering.gt) r
      → All (λ y. cmp a y.0 ≢ Ordering.gt) (put name_eq cmp slots key_before n k r)
  unfolding put
  All-put a n k [] h l = (h, tt)
  All-put a n k ((m, j) ∷ r) h l = ground (arith, All-put a n k r h l.1)

  pub Sorted-put :
      (n : N) (k : Key) (r : Set) → Sorted r → Sorted (put name_eq cmp slots key_before n k r)
  unfolding put
  Sorted-put n k [] s = (tt, tt)
  Sorted-put n k ((m, j) ∷ r) s = ground (
    arith,
    Sorted-put n k r s.1,
    λ (h : cmp m n ≢ Ordering.gt). All-put m n k r h s.0,
    λ (h : cmp n m ≢ Ordering.gt). above-All n m r h s.0,
    cmp_gt m n,
    cmp_lt n m,
    cmp_gt n m,
    cmp_eq n m,
    cmp_refl m,
  )

  pub Sorted-take_out :
      (n : N) (k : Key) (r : Set) → Sorted r → Sorted (take_out name_eq cmp slots key_before n k r)
  unfolding take_out
  Sorted-take_out n k [] s = tt
  Sorted-take_out n k ((m, j) ∷ r) s = ground (
    arith,
    Sorted-take_out n k r s.1,
    All-retain (λ y. cmp m y.0 ≢ Ordering.gt)
        (λ x. not (ite (name_eq x.0 n) (is_key name_eq cmp slots key_before x.1 k) false)) r s.0,
  )

  -- Every element has a key.
  abbrev pub Keyed : Set → Type 0
  Keyed = All (λ y. y.1 ≢ none)

  lacking :
      (n : N) (k : Key) (r : Set)
      → All (λ y. y.0 ≢ n) r
      → has name_eq cmp slots key_before n k r ≡ false
  unfolding has
  lacking n k [] l = refl
  lacking n k ((m, j) ∷ r) l = ground (arith, lacking n k r l.1)

  -- What comes after a later name is of a later name.
  passed :
      (m n : N) (r : Set)
      → cmp m n ≡ Ordering.gt
      → All (λ y. cmp m y.0 ≢ Ordering.gt) r
      → All (λ y. y.0 ≢ n) r
  passed m n [] g l = tt
  passed m n ((i, j) ∷ r) g (h, l) = ((λ e. h (ap (cmp m) e ∙ g)), passed m n r g l)

  has-take_name :
      (n : N) (k : Key) (r : Set)
      → Sorted r
      → All (λ y. cmp y.0 n ≢ Ordering.lt) r
      → has name_eq cmp slots key_before n k (take_name name_eq cmp slots key_before n r)
        ≡ has name_eq cmp slots key_before n k r
  unfolding has take_name
  has-take_name n k [] s l = refl
  has-take_name n k ((m, j) ∷ r) s l = elim (name_eq m n) [
    | yes e ↦ ground (arith, has-take_name n k r s.1 l.1)
    | no d ↦
        let later : cmp m n ≡ Ordering.gt = ground (arith, cmp_eq m n) in
        ground (arith, lacking n k r (passed m n r later s.0))
  ]

  -- The range starts at the name.
  from-All :
      (m n : N) (r : Set)
      → cmp m n ≢ Ordering.lt
      → All (λ y. cmp m y.0 ≢ Ordering.gt) r
      → All (λ y. cmp y.0 n ≢ Ordering.lt) r
  from-All m n [] h l = tt
  from-All m n ((i, j) ∷ r) h (g, l) = ((λ e. h (lt_after m i n g e)), from-All m n r h l)
    where
      lt_after : (a b c : N) → cmp a b ≢ Ordering.gt → cmp b c ≡ Ordering.lt → cmp a c ≡ Ordering.lt
      lt_after a b c g e = ground (arith, cmp_trans a b c, cmp_eq a b)

  range_from-All :
      (n : N) (r : Set)
      → Sorted r
      → All (λ y. cmp y.0 n ≢ Ordering.lt) (range_from name_eq cmp slots key_before n r)
  unfolding range_from
  range_from-All n [] s = tt
  range_from-All n ((m, j) ∷ r) s =
      ground (arith, range_from-All n r s.1, λ (h : cmp m n ≢ Ordering.lt). from-All m n r h s.0)

  Sorted-range_from :
      (n : N) (r : Set) → Sorted r → Sorted (range_from name_eq cmp slots key_before n r)
  unfolding range_from
  Sorted-range_from n [] s = tt
  Sorted-range_from n ((m, j) ∷ r) s = ground (arith, Sorted-range_from n r s.1)

  has-range_from :
      (n : N) (k : Key) (r : Set)
      → has name_eq cmp slots key_before n k (range_from name_eq cmp slots key_before n r)
        ≡ has name_eq cmp slots key_before n k r
  unfolding has range_from
  has-range_from n k [] = refl
  has-range_from n k ((m, j) ∷ r) =
      ground (arith, has-range_from n k r, λ (e : m ≡ n). ap (λ a. cmp a n) e, cmp_refl n)

  Keyed-range_from :
      (n : N) (r : Set) → Keyed r → Keyed (range_from name_eq cmp slots key_before n r)
  unfolding range_from
  Keyed-range_from n [] h = tt
  Keyed-range_from n ((m, j) ∷ r) h = ground (arith, Keyed-range_from n r h.1)

  skip_none-Keyed : (r : Set) → Keyed r → skip_none name_eq cmp slots key_before r ≡ r
  unfolding skip_none
  skip_none-Keyed [] h = refl
  skip_none-Keyed ((m, none) ∷ r) h = absurd (h.0 refl)
  skip_none-Keyed ((m, some k) ∷ r) h = refl

  -- The loop comes to every request that waits for the name.
  pub has-waiters_of :
      (n : N) (k : Key) (r : Set)
      → Sorted r
      → Keyed r
      → has name_eq cmp slots key_before n k (waiters_of name_eq cmp slots key_before n r)
        ≡ has name_eq cmp slots key_before n k r
  unfolding waiters_of
  has-waiters_of n k r s h =
      let from = range_from name_eq cmp slots key_before n r in
      rw (skip_none-Keyed from (Keyed-range_from n r h)) (
        has-take_name n k from (Sorted-range_from n r s) (range_from-All n r s)
        ∙ has-range_from n k r)
