-- ===== src/Multinode/Waitlist/Collected.antt =====
-- components/mm1-multinode/src/actors/multinode_manager.rs: which waiters the loop finds for a name.
use mm.Shared.{◌≡◌, ◌≢◌, refl, [], ◌∷◌, Option, none, some, Bool, true, false, All, arith}
use mm.Shared.Ordered.{NameOrder}
use mm.Shared.SlotMap.{SlotMap}
use mm.Multinode.Waitlist.{
  WaitlistEntry, Waiters, Waitlist, has, range_from, skip_none, take_name, waiters_of,
}
use mm.Multinode.Waitlist.Order.{Keyed}
use mm.Multinode.Waitlist.Invariant.{Once}
use mm.Multinode.Waitlist.Hits.{Within}

module _ {N H K : Type 0} (name_eq : Discrete N) (order : NameOrder N)
    (slots : SlotMap (WaitlistEntry N H K)) (key_before : slots.Key → slots.Key → Bool) where
  open slots use {Key, Slots, key_eq, get}
  open order use {cmp}

  abbrev Set : Type 0
  Set = Waiters name_eq cmp slots key_before

  abbrev ListOfWaiting : Type 0
  ListOfWaiting = Waitlist name_eq cmp slots key_before

  pub All-waiters_of :
      (P : N × Option Key → Type 0) (n : N) (r : Set)
      → All P r
      → All P (waiters_of name_eq cmp slots key_before n r)
  unfolding waiters_of
  All-waiters_of P n r h =
      taken (skip_none name_eq cmp slots key_before (range_from name_eq cmp slots key_before n r))
        (skipped (range_from name_eq cmp slots key_before n r) (ranged r h))
    where
      ranged : (s : Set) → All P s → All P (range_from name_eq cmp slots key_before n s)
      ranged [] a = tt
      ranged ((m, j) ∷ s) a = ground (arith, ranged s a.1)

      skipped : (s : Set) → All P s → All P (skip_none name_eq cmp slots key_before s)
      skipped [] a = tt
      skipped ((m, none) ∷ s) a = skipped s a.1
      skipped ((m, some k) ∷ s) a = a

      taken : (s : Set) → All P s → All P (take_name name_eq cmp slots key_before n s)
      taken [] a = tt
      taken ((m, j) ∷ s) a = ground (arith, taken s a.1)

  pub Once-waiters_of :
      (n : N) (r : Set)
      → Once name_eq order slots key_before r
      → Once name_eq order slots key_before (waiters_of name_eq cmp slots key_before n r)
  unfolding waiters_of
  Once-waiters_of n r h =
      taken (skip_none name_eq cmp slots key_before (range_from name_eq cmp slots key_before n r))
        (skipped (range_from name_eq cmp slots key_before n r) (ranged r h))
    where
      ranged :
          (s : Set)
          → Once name_eq order slots key_before s
          → Once name_eq order slots key_before (range_from name_eq cmp slots key_before n s)
      ranged [] a = tt
      ranged ((m, j) ∷ s) a = ground (arith, ranged s a.1)

      skipped :
          (s : Set)
          → Once name_eq order slots key_before s
          → Once name_eq order slots key_before (skip_none name_eq cmp slots key_before s)
      skipped [] a = tt
      skipped ((m, none) ∷ s) a = skipped s a.1
      skipped ((m, some k) ∷ s) a = a

      kept :
          (j : Option Key) (s : Set)
          → All (λ y. y.1 ≢ j) s
          → All (λ y. y.1 ≢ j) (take_name name_eq cmp slots key_before n s)
      kept j [] a = tt
      kept j ((m, i) ∷ s) a = ground (arith, kept j s a.1)

      taken :
          (s : Set)
          → Once name_eq order slots key_before s
          → Once name_eq order slots key_before (take_name name_eq cmp slots key_before n s)
      taken [] a = tt
      taken ((m, j) ∷ s) a = ground (arith, taken s a.1, kept j s a.0)

  pub Within-part :
      (whole r : Set)
      → ((n : N) (k : Key)
          → has name_eq cmp slots key_before n k r ≡ true
          → has name_eq cmp slots key_before n k whole ≡ true)
      → Keyed name_eq order slots key_before r
      → Within name_eq order slots key_before whole r
  unfolding has
  Within-part whole [] sub h = tt
  Within-part whole ((m, none) ∷ r) sub h = absurd (h.0 refl)
  Within-part whole ((m, some k) ∷ r) sub h =
      ((k, refl, sub m k (ground arith)), Within-part whole r (λ n j q. sub n j (ground arith)) h.1)

  -- Only the name is taken.
  pub has_other :
      (n m : N) (k : Key) (r : Set)
      → n ≢ m
      → has name_eq cmp slots key_before m k (waiters_of name_eq cmp slots key_before n r) ≡ false
  unfolding waiters_of has
  has_other n m k r d =
      taken (skip_none name_eq cmp slots key_before (range_from name_eq cmp slots key_before n r))
    where
      taken :
          (s : Set)
          → has name_eq cmp slots key_before m k (take_name name_eq cmp slots key_before n s)
            ≡ false
      taken [] = refl
      taken ((i, j) ∷ s) = ground (arith, taken s)
