-- ===== src/Timer/Cancelling.antt =====
-- components/mm1-timer/src/v1.rs: `Cancel`, which takes a timer off both indexes.
use mm.Shared.{
  ◌≤◌, ◌≡◌, refl, ◌≢◌, List, [], ◌∷◌, none, Bool, true, false, All, arith, Option-cases, inl, inr,
  if_neg, subst,
}
use mm.Shared.SlotMap.{SlotMap}
use mm.Timer.{Instant, Entry, TimerState, take, cancel}
use mm.Timer.Invariant.{LacksKey, DistinctKeys, Backed, IsSorted, lists, IsValid}

module _ {M : Type 0} (slots : SlotMap (Entry M)) (before : slots.Key → slots.Key → Bool) where
  open slots use {
    Key, Slots, key_eq, empty, get, insert, remove, get-empty, insert_fresh, get-insert, get-remove,
  }

  LacksKey-take :
      (at : Instant) (key k : Key) (r : List (Instant × Key))
      → LacksKey slots before k r
      → LacksKey slots before k (take slots before at key r)
  unfolding take
  LacksKey-take at key k [] h = tt
  LacksKey-take at key k ((u, j) ∷ r) h = ground (arith, LacksKey-take at key k r h.1)

  DistinctKeys-take :
      (at : Instant) (key : Key) (r : List (Instant × Key))
      → DistinctKeys slots before r
      → DistinctKeys slots before (take slots before at key r)
  unfolding take
  DistinctKeys-take at key [] d = tt
  DistinctKeys-take at key ((u, j) ∷ r) d =
      ground (arith, DistinctKeys-take at key r d.1, LacksKey-take at key j r d.0)

  later-take :
      (at : Instant) (key : Key) (r : List (Instant × Key)) (b : Instant)
      → All (λ y. b ≤ y.0) r
      → All (λ y. b ≤ y.0) (take slots before at key r)
  unfolding take
  later-take at key [] b l = tt
  later-take at key ((u, j) ∷ r) b l = ground (arith, later-take at key r b l.1)

  IsSorted-take :
      (at : Instant) (key : Key) (r : List (Instant × Key))
      → IsSorted slots before r
      → IsSorted slots before (take slots before at key r)
  unfolding take
  IsSorted-take at key [] s = tt
  IsSorted-take at key ((u, j) ∷ r) s =
      ground (arith, IsSorted-take at key r s.1, later-take at key r u s.0)

  lists-LacksKey :
      (b : Instant) (k : Key) (r : List (Instant × Key))
      → LacksKey slots before k r
      → lists slots before b k r ≡ false
  lists-LacksKey b k [] l = refl
  lists-LacksKey b k ((u, j) ∷ r) l = ground (arith, lists-LacksKey b k r l.1)

  -- What is taken is off the list, and everything else stays on it.
  take-LacksKey :
      (at : Instant) (key : Key) (r : List (Instant × Key))
      → DistinctKeys slots before r
      → lists slots before at key r ≡ true
      → LacksKey slots before key (take slots before at key r)
  unfolding take
  take-LacksKey at key [] d e = cc
  take-LacksKey at key ((u, j) ∷ r) d e = elim (key_eq j key) [
    | yes p ↦
        let gone : LacksKey slots before key r = subst (λ k. LacksKey slots before k r) p d.0 in
        ground (arith, gone)
    | no p ↦
        rw (if_neg (key_eq j key) p)
          (p, take-LacksKey at key r d.1 (rw (if_neg (key_eq j key) p) at e))
  ]

  lists-take :
      (at : Instant) (key : Key) (b : Instant) (k : Key) (r : List (Instant × Key))
      → key ≢ k
      → lists slots before b k (take slots before at key r) ≡ lists slots before b k r
  unfolding take
  lists-take at key b k [] n = refl
  lists-take at key b k ((u, j) ∷ r) n = ground (arith, lists-take at key b k r n)

  pub Backed-remove :
      (entries : Slots) (key : Key) (r : List (Instant × Key))
      → LacksKey slots before key r
      → Backed slots before entries r
      → Backed slots before (remove entries key) r
  Backed-remove entries key [] l b = tt
  Backed-remove entries key ((u, j) ∷ r) l ((m, h), b) =
      ((m, ground (arith, get-remove entries key j)), Backed-remove entries key r l.1 b)

  Backed-take :
      (entries : Slots) (at : Instant) (key : Key) (r : List (Instant × Key))
      → Backed slots before entries r
      → Backed slots before entries (take slots before at key r)
  unfolding take
  Backed-take entries at key [] b = tt
  Backed-take entries at key ((u, j) ∷ r) b = ground (arith, Backed-take entries at key r b.1)

  -- Cancelling keeps the two indexes in agreement, and the key has no entry any more.
  pub cancel-IsValid :
      (s : TimerState slots before) (key : Key)
      → IsValid slots before s
      → IsValid slots before (cancel slots before s key).0
        × (get (cancel slots before s key).0.entries key ≡ none)
  unfolding cancel
  cancel-IsValid s key v = elim (Option-cases (get s.entries key)) [
    | inl e ↦ rw (e, cancel) (v, e)
    | inr (f, e) ↦
        let gone : LacksKey slots before key (take slots before f.at key s.ordered) =
          take-LacksKey f.at key s.ordered v.distinct (v.listed key f e) in
        rw (e, cancel)
          (
            record {
              distinct = DistinctKeys-take f.at key s.ordered v.distinct;
              sorted = IsSorted-take f.at key s.ordered v.sorted;
              backed =
                  Backed-remove s.entries key (take slots before f.at key s.ordered) gone
                    (Backed-take s.entries f.at key s.ordered v.backed);
              listed = λ k g h. elim (key_eq key k) [
                | yes p ↦ ground (arith, get-remove s.entries key k)
                | no p ↦ ground (
                  arith,
                  get-remove s.entries key k,
                  lists-take f.at key g.at k s.ordered p,
                  v.listed k g,
                )
              ];
            },
            ground (arith, get-remove s.entries key key),
          )
  ]
