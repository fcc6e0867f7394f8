-- ===== src/Multinode/Waitlist/Hits.antt =====
-- components/mm1-multinode/src/actors/multinode_manager.rs: the loop that takes the requests of a name out.
use mm.Shared.{
  ◌≡◌, ◌≢◌, refl, List, [], ◌∷◌, Option, none, some, Bool, true, false, All, arith, map,
  if◌then◌else◌, Option-cases, inl, inr,
}
use mm.Shared.SlotMap.{SlotMap}
use mm.Multinode.Waitlist.{WaitlistEntry, Waiters, Waitlist, has, take_out, take_hits}
use mm.Shared.Ordered.{NameOrder}
use mm.Multinode.Waitlist.Invariant.{IsValid, Once, waits, without, without-IsValid, has-take_out}

module _ {N H K : Type 0} (name_eq : Discrete N) (order : NameOrder N)
    (slots : SlotMap (WaitlistEntry N H K)) (key_before : slots.Key → slots.Key → Bool) where
  open slots use {Key, Slots, key_eq, get, remove, get-remove}
  open order use {cmp}

  abbrev Set : Type 0
  Set = Waiters name_eq cmp slots key_before

  abbrev ListOfWaiting : Type 0
  ListOfWaiting = Waitlist name_eq cmp slots key_before

  -- Each of the elements has a key and stands in the set.
  abbrev pub Within : Set → Set → Type 0
  Within set =
      All (λ x. (k : Key) × (x.1 ≡ some k) × (has name_eq cmp slots key_before x.0 k set ≡ true))

  -- The timer and the header of a request that waits.
  abbrev pub request_of : Slots → N × Option Key → Option (K × H)
  request_of entries x = elim x.1 [
    | none ↦ none
    | some k ↦ elim (get entries k) [
      | none ↦ none
      | some e ↦ elim e.timer_key [ none ↦ none | some t ↦ some (t, e.reply_to) ]
    ]
  ]

  -- The elements are gone, with their entries, and all else is as it was.
  pub record Taken (w : ListOfWaiting) (l : Set) (w' : ListOfWaiting) (hits : List (K × H))
      : Type 0 where
    pub valid : IsValid name_eq order slots key_before w'
    pub gone :
        (n : N) (k : Key)
        → has name_eq cmp slots key_before n k w'.by_protocol ≡ (
            if has name_eq cmp slots key_before n k l
            then false
            else has name_eq cmp slots key_before n k w.by_protocol)
    pub told : map (λ h. some h) hits ≡ map (request_of w.entries) l
    pub kept :
        (k : Key) (e : WaitlistEntry N H K) → get w'.entries k ≡ some e → get w.entries k ≡ some e
    pub stays :
        (k : Key) (e : WaitlistEntry N H K)
        → has name_eq cmp slots key_before e.protocol k l ≡ false
        → get w.entries k ≡ some e
        → get w'.entries k ≡ some e

  requests-remove :
      (entries : Slots) (k : Key) (l : Set)
      → All (λ y. y.1 ≢ some k) l
      → map (request_of (remove entries k)) l ≡ map (request_of entries) l
  requests-remove entries k [] a = refl
  requests-remove entries k ((m, none) ∷ l) a = ground (arith, requests-remove entries k l a.1)
  requests-remove entries k ((m, some j) ∷ l) a =
      ground (arith, requests-remove entries k l a.1, get-remove entries k j)

  Within-take_out :
      (n : N) (k : Key) (set l : Set)
      → All (λ y. y.1 ≢ some k) l
      → Within set l
      → Within (take_out name_eq cmp slots key_before n k set) l
  Within-take_out n k set [] a h = tt
  Within-take_out n k set ((m, o) ∷ l) a ((j, e, q), h) = (
    (j, e, ground (arith, has-take_out name_eq order slots key_before n m k j set)),
    Within-take_out n k set l a.1 h,
  )

  -- The entry of an element of the set.
  entry_of :
      (w : ListOfWaiting) (n : N) (k : Key)
      → IsValid name_eq order slots key_before w
      → has name_eq cmp slots key_before n k w.by_protocol ≡ true
      → (e : WaitlistEntry N H K) × (t : K) × (get w.entries k ≡ some e)
        × (e.protocol ≡ n)
        × (e.timer_key ≡ some t)
  unfolding waits
  entry_of w n k v h = elim (Option-cases (get w.entries k)) [
    | inl free ↦ absurd (ground (arith, v.agree n k))
    | inr (e, q) ↦ elim (Option-cases e.timer_key) [
      | inl untimed ↦ absurd (v.timed k e q untimed)
      | inr (t, s) ↦ (e, t, q, ground (arith, v.agree n k), s)
    ]
  ]

  Taken-nil : (w : ListOfWaiting) → IsValid name_eq order slots key_before w → Taken w [] w []
  unfolding has
  Taken-nil w v = record {
    valid = v;
    gone = λ n k. refl;
    told = refl;
    kept = λ k e h. h;
    stays = λ k e l h. h;
  }

  Taken-cons :
      (w w' : ListOfWaiting) (n : N) (k : Key) (e : WaitlistEntry N H K) (t : K) (l : Set)
      (hits : List (K × H))
      → get w.entries k ≡ some e
      → e.protocol ≡ n
      → e.timer_key ≡ some t
      → All (λ y. y.1 ≢ some k) l
      → Taken (without name_eq order slots key_before w k e) l w' hits
      → Taken w ((n, some k) ∷ l) w' ((t, e.reply_to) ∷ hits)
  unfolding has
  Taken-cons w w' n k e t l hits h p q a r = record {
    valid = r.valid;
    gone = λ m j. ground (
      arith,
      r.gone m j,
      has-take_out name_eq order slots key_before e.protocol m k j w.by_protocol,
      p,
    );
    told = ground (arith, r.told, requests-remove w.entries k l a, h, q);
    kept = λ j f g. ground (arith, r.kept j f g, get-remove w.entries k j);
    stays = λ j f b g. ground (arith, r.stays j f, get-remove w.entries k j, h, p);
  }

  pub take_hits-Taken :
      (w : ListOfWaiting) (l : Set)
      → IsValid name_eq order slots key_before w
      → Within w.by_protocol l
      → Once name_eq order slots key_before l
      → (w' : ListOfWaiting) × (hits : List (K × H)) × (take_hits name_eq cmp slots key_before w l
          ≡ some (w', hits))
        × Taken w l w' hits
  unfolding take_hits
  take_hits-Taken w [] v h o = (w, [], refl, Taken-nil w v)
  take_hits-Taken w ((n, none) ∷ l) v ((k, bad, q), h) o = absurd (cc)
  take_hits-Taken w ((n, some i) ∷ l) v ((k, same, q), h) o =
      let (e, t, g, p, s) = entry_of w n i v (ground (arith, q, same)) in
      let (w', hits, eq, taken) =
        take_hits-Taken (without name_eq order slots key_before w i e) l
          (without-IsValid name_eq order slots key_before w i e g v)
          (Within-take_out e.protocol i w.by_protocol l o.0 h) o.1 in
      (
        w',
        (t, e.reply_to) ∷ hits,
        rw (g, take_hits, s, eq) refl,
        Taken-cons w w' n i e t l hits g p s o.0 taken,
      )
