-- ===== src/Timer/Invariant.antt =====
-- The two indexes of the timer server agree.
use mm.Shared.{
  ◌≤◌, ◌≡◌, refl, ◌≢◌, List, [], ◌∷◌, none, some, Bool, true, false, ◌==◌, ite, All, arith,
}
use mm.Shared.SlotMap.{SlotMap}
use mm.Timer.{Instant, Entry, TimerState, default, put, schedule}

module _ {M : Type 0} (slots : SlotMap (Entry M)) (before : slots.Key → slots.Key → Bool) where
  open slots use {
    Key, Slots, key_eq, empty, get, insert, remove, get-empty, insert_fresh, get-insert, get-remove,
  }

  abbrev pub LacksKey : Key → List (Instant × Key) → Type 0
  LacksKey key = All (λ x. x.1 ≢ key)

  abbrev pub DistinctKeys : List (Instant × Key) → Type 0
  DistinctKeys [] = Unit {0}
  DistinctKeys (x ∷ r) = LacksKey x.1 r × DistinctKeys r

  -- Every listed key has an entry with the listed expiry.
  abbrev pub IsBacked : Slots → Instant × Key → Type 0
  IsBacked entries x = (m : M) × (get entries x.1 ≡ some (record { at = x.0; message = m }))

  abbrev pub Backed : Slots → List (Instant × Key) → Type 0
  Backed entries = All (IsBacked entries)

  -- The expiries do not fall along the list.
  abbrev pub IsSorted : List (Instant × Key) → Type 0
  IsSorted [] = Unit {0}
  IsSorted (x ∷ r) = All (λ y. x.0 ≤ y.0) r × IsSorted r

  abbrev pub lists : Instant → Key → List (Instant × Key) → Bool
  lists at key [] = false
  lists at key ((u, k) ∷ r) = ite (key_eq k key) (at == u) (lists at key r)

  pub record IsValid (s : TimerState slots before) : Type 0 where
    pub distinct : DistinctKeys s.ordered
    pub sorted : IsSorted s.ordered
    pub backed : Backed s.entries s.ordered
    pub listed : (k : Key) (e : Entry M) → get s.entries k ≡ some e → lists e.at k s.ordered ≡ true

  unlisted-LacksKey :
      (entries : Slots) (key : Key) (r : List (Instant × Key))
      → get entries key ≡ none
      → Backed entries r
      → LacksKey key r
  unlisted-LacksKey entries key [] e b = tt
  unlisted-LacksKey entries key ((u, k) ∷ r) e ((m, h), b) =
      ((λ p. cc), unlisted-LacksKey entries key r e b)

  LacksKey-put :
      (at : Instant) (key k : Key) (r : List (Instant × Key))
      → key ≢ k
      → LacksKey k r
      → LacksKey k (put slots before at key r)
  unfolding put
  LacksKey-put at key k [] n h = (n, tt)
  LacksKey-put at key k ((u, j) ∷ r) n h = ground (arith, LacksKey-put at key k r n h.1)

  DistinctKeys-put :
      (at : Instant) (key : Key) (r : List (Instant × Key))
      → LacksKey key r
      → DistinctKeys r
      → DistinctKeys (put slots before at key r)
  unfolding put
  DistinctKeys-put at key [] l d = (tt, tt)
  DistinctKeys-put at key ((u, j) ∷ r) l d =
      ground
        (arith, DistinctKeys-put at key r l.1 d.1, λ (n : key ≢ j). LacksKey-put at key j r n d.0)

  All-later :
      (a b : Instant) (r : List (Instant × Key))
      → a ≤ b
      → All (λ y. b ≤ y.0) r
      → All (λ y. a ≤ y.0) r
  All-later a b [] h l = tt
  All-later a b (x ∷ r) h l = (omega arith, All-later a b r h l.1)

  later-put :
      (at : Instant) (key : Key) (r : List (Instant × Key)) (b : Instant)
      → b ≤ at
      → All (λ y. b ≤ y.0) r
      → All (λ y. b ≤ y.0) (put slots before at key r)
  unfolding put
  later-put at key [] b h l = (h, tt)
  later-put at key ((u, j) ∷ r) b h l = ground (arith, later-put at key r b h l.1)

  IsSorted-put :
      (at : Instant) (key : Key) (r : List (Instant × Key))
      → IsSorted r
      → IsSorted (put slots before at key r)
  unfolding put
  IsSorted-put at key [] s = (tt, tt)
  IsSorted-put at key ((u, j) ∷ r) s =
      ground (arith, IsSorted-put at key r s.1, later-put at key r u, All-later at u r)

  lists-put :
      (at : Instant) (key : Key) (b : Instant) (k : Key) (r : List (Instant × Key))
      → LacksKey key r
      → lists b k (put slots before at key r) ≡ ite (key_eq key k) (b == at) (lists b k r)
  unfolding put
  lists-put at key b k [] l = refl
  lists-put at key b k ((u, j) ∷ r) l = ground (arith, lists-put at key b k r l.1)

  Backed-insert :
      (entries : Slots) (e : Entry M) (r : List (Instant × Key))
      → LacksKey (insert entries e).1 r
      → Backed entries r
      → Backed (insert entries e).0 r
  Backed-insert entries e [] l b = tt
  Backed-insert entries e ((u, j) ∷ r) l ((m, h), b) =
      ((m, ground (arith, get-insert entries e j)), Backed-insert entries e r l.1 b)

  Backed-put :
      (entries : Slots) (at : Instant) (key : Key) (r : List (Instant × Key))
      → IsBacked entries (at, key)
      → Backed entries r
      → Backed entries (put slots before at key r)
  unfolding put
  Backed-put entries at key [] h b = (h, tt)
  Backed-put entries at key ((u, j) ∷ r) h b = ground (arith, Backed-put entries at key r h b.1)

  pub default-IsValid : IsValid (default slots before)
  unfolding default
  default-IsValid = record {
    distinct = tt;
    sorted = tt;
    backed = tt;
    listed = λ k e h. ground (arith, get-empty k);
  }

  -- Scheduling a message keeps the two indexes in agreement.
  pub schedule-IsValid :
      (s : TimerState slots before) (at : Instant) (message : M)
      → IsValid s
      → IsValid (schedule slots before s at message).0
  unfolding schedule
  schedule-IsValid s at message v =
      let e : Entry M = record { at = at; message = message } in
      let key = (insert s.entries e).1 in
      let new : LacksKey key s.ordered =
        unlisted-LacksKey s.entries key s.ordered (insert_fresh s.entries e) v.backed in
      record {
        distinct = DistinctKeys-put at key s.ordered new v.distinct;
        sorted = IsSorted-put at key s.ordered v.sorted;
        backed =
            Backed-put (insert s.entries e).0 at key s.ordered
              (message, ground (arith, get-insert s.entries e key))
              (Backed-insert s.entries e s.ordered new v.backed);
        listed = λ k f h.
            ground (
              arith,
              get-insert s.entries e k,
              lists-put at key f.at k s.ordered new,
              v.listed k f,
            );
      }
