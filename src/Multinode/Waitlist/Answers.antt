-- ===== src/Multinode/Waitlist/Answers.antt =====
-- components/mm1-multinode/src/actors/multinode_manager.rs: who is answered when a protocol is registered.
use mm.Shared.{
  Holds, ◌≡◌, ◌≢◌, sym, ap, subst, ◌∙◌, List, [], ◌∷◌, Option, none, some, Bool, true, false, ite,
  if_pos, if_neg, arith, map, inl, inr,
}
use mm.Shared.Ordered.{NameOrder}
use mm.Shared.SlotMap.{SlotMap}
use mm.Multinode.Waitlist.{WaitlistEntry, Waiters, Waitlist, has, waiters_of, take_waiters}
use mm.Multinode.Waitlist.Order.{has-waiters_of}
use mm.Multinode.Waitlist.Invariant.{IsValid, waits}
use mm.Multinode.Waitlist.Hits.{Taken, take_hits-Taken, request_of}
use mm.Multinode.Waitlist.Collected.{All-waiters_of, Once-waiters_of, Within-part, has_other}

module _ {N H K : Type 0} (name_eq : Discrete N) (order : NameOrder N)
    (slots : SlotMap (WaitlistEntry N H K)) (key_before : slots.Key → slots.Key → Bool) where
  open slots use {Key, Slots, key_eq, get}
  open order use {cmp}

  abbrev Set : Type 0
  Set = Waiters name_eq cmp slots key_before

  abbrev ListOfWaiting : Type 0
  ListOfWaiting = Waitlist name_eq cmp slots key_before

  Holds-map :
      (f : N × Option Key → Option (K × H)) (n : N) (k : Key) (l : Set)
      → has name_eq cmp slots key_before n k l ≡ true
      → Holds (f (n, some k)) (map f l)
  unfolding has
  Holds-map f n k [] h = absurd (cc)
  Holds-map f n k ((m, none) ∷ l) h = inr (Holds-map f n k l (ground arith))
  Holds-map f n k ((m, some j) ∷ l) h = elim (name_eq m n) [
    | no d ↦ inr (Holds-map f n k l (ground arith))
    | yes e ↦ elim (key_eq j k) [
      | no d ↦ inr (Holds-map f n k l (ground arith))
      | yes q ↦ inl (ap f (ground arith))
    ]
  ]

  Holds-some : (x : K × H) (l : List (K × H)) → Holds (some x) (map (λ h. some h) l) → Holds x l
  Holds-some x [] h = elim h [ ]
  Holds-some x (y ∷ l) (inl e) = inl (ground arith)
  Holds-some x (y ∷ l) (inr h) = inr (Holds-some x l h)

  -- What the loop does for a name: each request that waits for it is taken out once, in the order of the
  -- set, with its timer and its header; nobody waits for the name any more, and all others wait as before.
  pub record Answers (w : ListOfWaiting) (n : N) (w' : ListOfWaiting) (hits : List (K × H))
      : Type 0 where
    pub valid : IsValid name_eq order slots key_before w'
    pub told :
        map (λ h. some h) hits
        ≡ map
            (request_of name_eq order slots key_before w.entries)
            (waiters_of name_eq cmp slots key_before n w.by_protocol)
    pub answered :
        (k : Key) (e : WaitlistEntry N H K) (t : K)
        → get w.entries k ≡ some e
        → e.protocol ≡ n
        → e.timer_key ≡ some t
        → Holds (t, e.reply_to) hits
    pub gone :
        (m : N) (k : Key)
        → waits name_eq order slots key_before w'.entries m k
          ≡ ite (name_eq n m) false (waits name_eq order slots key_before w.entries m k)
    pub stays :
        (k : Key) (e : WaitlistEntry N H K)
        → e.protocol ≢ n
        → get w.entries k ≡ some e
        → get w'.entries k ≡ some e
    pub kept :
        (k : Key) (e : WaitlistEntry N H K) → get w'.entries k ≡ some e → get w.entries k ≡ some e

  has_here :
      (w : ListOfWaiting) (k : Key) (e : WaitlistEntry N H K)
      → IsValid name_eq order slots key_before w
      → get w.entries k ≡ some e
      → has name_eq cmp slots key_before e.protocol k w.by_protocol ≡ true
  unfolding waits
  has_here w k e v h = ground (arith, v.agree e.protocol k, h)

  requested :
      (entries : Slots) (n : N) (k : Key) (e : WaitlistEntry N H K) (t : K)
      → get entries k ≡ some e
      → e.timer_key ≡ some t
      → request_of name_eq order slots key_before entries (n, some k) ≡ some (t, e.reply_to)
  requested entries n k e t h q = ground arith

  gone_from :
      (w w' : ListOfWaiting) (n : N) (l : Set) (m : N) (k : Key) (hits : List (K × H))
      → IsValid name_eq order slots key_before w
      → Taken name_eq order slots key_before w l w' hits
      → has name_eq cmp slots key_before m k l
        ≡ ite (name_eq n m) (has name_eq cmp slots key_before m k w.by_protocol) false
      → waits name_eq order slots key_before w'.entries m k
        ≡ ite (name_eq n m) false (waits name_eq order slots key_before w.entries m k)
  gone_from w w' n l m k hits v t o = ground (arith, t.valid.agree m k, t.gone m k, v.agree m k)

  taken_of :
      (n m : N) (k : Key) (r : Set)
      → has name_eq cmp slots key_before n k (waiters_of name_eq cmp slots key_before n r)
        ≡ has name_eq cmp slots key_before n k r
      → has name_eq cmp slots key_before m k (waiters_of name_eq cmp slots key_before n r)
        ≡ ite (name_eq n m) (has name_eq cmp slots key_before m k r) false
  taken_of n m k r h = elim (name_eq n m) [
    | yes e ↦ rw (if_pos (name_eq n m) e) (
        subst
          (λ a.
            has name_eq cmp slots key_before a k (waiters_of name_eq cmp slots key_before n r)
            ≡ has name_eq cmp slots key_before a k r)
          e h)
    | no d ↦ rw (if_neg (name_eq n m) d) (has_other name_eq order slots key_before n m k r d)
  ]

  -- Taking out the requests that wait for a name does not panic.
  pub take_waiters-Answers :
      (w : ListOfWaiting) (n : N)
      → IsValid name_eq order slots key_before w
      → (w' : ListOfWaiting) × (hits : List (K × H)) × (take_waiters name_eq cmp slots key_before w
            n
          ≡ some (w', hits))
        × Answers w n w' hits
  unfolding take_waiters
  take_waiters-Answers w n v =
      let l = waiters_of name_eq cmp slots key_before n w.by_protocol in
      let whole : (k : Key)
          → has name_eq cmp slots key_before n k l
            ≡ has name_eq cmp slots key_before n k w.by_protocol =
        λ k. has-waiters_of name_eq order slots key_before n k w.by_protocol v.sorted v.keyed in
      let within =
        All-waiters_of name_eq order slots key_before
          (λ x.
            (k : Key) × (x.1 ≡ some k)
            × (has name_eq cmp slots key_before x.0 k w.by_protocol ≡ true))
          n w.by_protocol
          (Within-part name_eq order slots key_before w.by_protocol w.by_protocol (λ m k h. h)
            v.keyed) in
      let (w', hits, eq, t) =
        take_hits-Taken name_eq order slots key_before w l v within
          (Once-waiters_of name_eq order slots key_before n w.by_protocol v.once) in
      (
        w',
        hits,
        eq,
        record {
          valid = t.valid;
          told = t.told;
          answered = λ k e timer h p q.
              let here =
                whole k
                ∙ subst (λ m. has name_eq cmp slots key_before m k w.by_protocol ≡ true) p
                    (has_here w k e v h) in
              Holds-some (timer, e.reply_to) hits
                (subst (Holds (some (timer, e.reply_to))) (sym t.told) (
                  subst (λ o. Holds o (map (request_of name_eq order slots key_before w.entries) l))
                    (requested w.entries n k e timer h q)
                    (Holds-map (request_of name_eq order slots key_before w.entries) n k l here)));
          gone = λ m k. gone_from w w' n l m k hits v t (taken_of n m k w.by_protocol (whole k));
          stays = λ k e d h.
              t.stays k e
                (has_other name_eq order slots key_before n e.protocol k w.by_protocol
                  (λ q. d (sym q)))
                h;
          kept = t.kept;
        },
      )
