-- ===== src/Multinode/Waitlist/Invariant.antt =====
-- components/mm1-multinode/src/actors/multinode_manager.rs: the requests that wait are those of the entries.
use mm.Shared.{
  ◌≡◌, ◌≢◌, refl, [], ◌∷◌, Option, none, some, Bool, true, false, not, ◌||◌, ite, All, arith,
  All-retain, if◌then◌else◌,
}
use mm.Shared.Ordered.{NameOrder}
use mm.Shared.SlotMap.{SlotMap}
use mm.Multinode.Waitlist.{
  WaitlistEntry, Waiters, Waitlist, is_key, has, put, take_out, enter, join,
}
use mm.Multinode.Waitlist.Order.{Sorted, Keyed, Sorted-put, Sorted-take_out}

module _ {N H K : Type 0} (name_eq : Discrete N) (order : NameOrder N)
    (slots : SlotMap (WaitlistEntry N H K)) (key_before : slots.Key → slots.Key → Bool) where
  open slots use {
    Key, Slots, key_eq, get, insert, write, remove, get-insert, insert_fresh, get-write, get-remove,
  }
  open order use {cmp}

  abbrev Set : Type 0
  Set = Waiters name_eq cmp slots key_before

  abbrev ListOfWaiting : Type 0
  ListOfWaiting = Waitlist name_eq cmp slots key_before

  -- No key stands twice in the set.
  abbrev pub Once : Set → Type 0
  Once [] = Unit {0}
  Once (x ∷ r) = All (λ y. y.1 ≢ x.1) r × Once r

  -- The entry under the key is a request for the name.
  unfoldable pub waits : Slots → N → Key → Bool
  waits entries n k = elim (get entries k) [
    | none ↦ false
    | some e ↦ ite (name_eq e.protocol n) true false
  ]

  pub record IsValid (w : ListOfWaiting) : Type 0 where
    pub sorted : Sorted name_eq order slots key_before w.by_protocol
    pub keyed : Keyed name_eq order slots key_before w.by_protocol
    pub once : Once w.by_protocol
    pub agree :
        (n : N) (k : Key) → has name_eq cmp slots key_before n k w.by_protocol ≡ waits w.entries n k
    pub timed : (k : Key) (e : WaitlistEntry N H K) → get w.entries k ≡ some e → e.timer_key ≢ none

  has-put :
      (n m : N) (k j : Key) (r : Set)
      → has name_eq cmp slots key_before m j (put name_eq cmp slots key_before n k r) ≡ (
          ite (name_eq n m) (ite (key_eq k j) true false) false
          || has name_eq cmp slots key_before m j r)
  unfolding has put
  has-put n m k j [] = refl
  has-put n m k j ((i, o) ∷ r) = ground (arith, has-put n m k j r)

  pub has-take_out :
      (n m : N) (k j : Key) (r : Set)
      → has name_eq cmp slots key_before m j (take_out name_eq cmp slots key_before n k r) ≡ (
          if ite (name_eq n m) (ite (key_eq k j) true false) false
          then false
          else has name_eq cmp slots key_before m j r)
  unfolding has take_out
  has-take_out n m k j [] = ground arith
  has-take_out n m k j ((i, none) ∷ r) = ground (arith, has-take_out n m k j r)
  has-take_out n m k j ((i, some o) ∷ r) = ground (arith, has-take_out n m k j r)

  -- A key that stands with no name does not stand in the set.
  unlisted :
      (k : Key) (r : Set)
      → ((n : N) → has name_eq cmp slots key_before n k r ≡ false)
      → All (λ y. y.1 ≢ some k) r
  unfolding has
  unlisted k [] h = tt
  unlisted k ((m, j) ∷ r) h = ((λ e. ground (arith, h m)), unlisted k r (λ n. ground (arith, h n)))

  All-put :
      (P : Option Key → Type 0) (n : N) (k : Key) (r : Set)
      → P (some k)
      → All (λ y. P y.1) r
      → All (λ y. P y.1) (put name_eq cmp slots key_before n k r)
  unfolding put
  All-put P n k [] p h = (p, tt)
  All-put P n k ((m, j) ∷ r) p h = ground (arith, All-put P n k r p h.1)

  Once-put :
      (n : N) (k : Key) (r : Set)
      → All (λ y. y.1 ≢ some k) r
      → Once r
      → Once (put name_eq cmp slots key_before n k r)
  unfolding put
  Once-put n k [] l o = (tt, tt)
  Once-put n k ((m, j) ∷ r) l o =
      ground (arith, Once-put n k r l.1 o.1, λ (d : some k ≢ j). All-put (λ i. i ≢ j) n k r d o.0)

  Once-take_out :
      (n : N) (k : Key) (r : Set) → Once r → Once (take_out name_eq cmp slots key_before n k r)
  unfolding take_out
  Once-take_out n k [] o = tt
  Once-take_out n k ((m, j) ∷ r) o = ground (
    arith,
    Once-take_out n k r o.1,
    All-retain (λ y. y.1 ≢ j)
        (λ x. not (ite (name_eq x.0 n) (is_key name_eq cmp slots key_before x.1 k) false)) r o.0,
  )

  -- The entry and the element of a request go.
  abbrev pub without : ListOfWaiting → Key → WaitlistEntry N H K → ListOfWaiting
  without w k e = record {
    entries = remove w.entries k;
    by_protocol = take_out name_eq cmp slots key_before e.protocol k w.by_protocol;
  }

  pub without-IsValid :
      (w : ListOfWaiting) (k : Key) (e : WaitlistEntry N H K)
      → get w.entries k ≡ some e
      → IsValid w
      → IsValid (without w k e)
  unfolding waits take_out
  without-IsValid w k e h v = record {
    sorted = Sorted-take_out name_eq order slots key_before e.protocol k w.by_protocol v.sorted;
    keyed =
        All-retain (λ y. y.1 ≢ none)
          (λ x.
            not (ite (name_eq x.0 e.protocol) (is_key name_eq cmp slots key_before x.1 k) false))
          w.by_protocol v.keyed;
    once = Once-take_out e.protocol k w.by_protocol v.once;
    agree = λ n j.
        ground (
          arith,
          has-take_out e.protocol n k j w.by_protocol,
          get-remove w.entries k j,
          v.agree n j,
        );
    timed = λ j f q. ground (arith, get-remove w.entries k j, v.timed j f);
  }

  -- A request that has its timer waits.
  pub join-IsValid :
      (w : ListOfWaiting) (n : N) (reply_to : H) (timer : K)
      → IsValid w
      → (w' : ListOfWaiting) × (k : Key) × (join name_eq cmp slots key_before w n reply_to timer
          ≡ some (w', k))
        × (get w.entries k ≡ none)
        × ((j : Key)
            → get w'.entries j
              ≡ ite
                  (key_eq k j)
                  (some (record { protocol = n; reply_to = reply_to; timer_key = some timer }))
                  (get w.entries j))
        × IsValid w'
  unfolding join enter waits
  join-IsValid w n reply_to timer v =
      let fresh : WaitlistEntry N H K = record {
        protocol = n;
        reply_to = reply_to;
        timer_key = none;
      } in
      let timed : WaitlistEntry N H K = record {
        protocol = n;
        reply_to = reply_to;
        timer_key = some timer;
      } in
      let entries = (insert w.entries fresh).0 in
      let k = (insert w.entries fresh).1 in
      let free = insert_fresh w.entries fresh in
      let lacks : (m : N) → has name_eq cmp slots key_before m k w.by_protocol ≡ false =
        λ m. ground (arith, v.agree m k, free) in
      let found : get entries k ≢ none = λ e. ground (arith, get-insert w.entries fresh k) in
      let got : (j : Key)
          → get (write entries k timed) j ≡ ite (key_eq k j) (some timed) (get w.entries j) =
        λ j. ground (arith, get-write entries k timed j found, get-insert w.entries fresh j) in
      (
        record {
          entries = write entries k timed;
          by_protocol = put name_eq cmp slots key_before n k w.by_protocol;
        },
        k,
        rw (lacks n) refl,
        free,
        got,
        record {
          sorted = Sorted-put name_eq order slots key_before n k w.by_protocol v.sorted;
          keyed = All-put (λ j. j ≢ none) n k w.by_protocol (λ e. cc) v.keyed;
          once = Once-put n k w.by_protocol (unlisted k w.by_protocol lacks) v.once;
          agree = λ m j. ground (arith, has-put n m k j w.by_protocol, got j, v.agree m j, free);
          timed = λ j f q. ground (arith, got j, v.timed j f);
        },
      )
