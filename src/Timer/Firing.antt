-- ===== src/Timer/Firing.antt =====
-- What the timer server sends when its time comes.
use mm.Shared.{
  ◌≤◌, ◌<◌, ◌≡◌, refl, List, [], ◌∷◌, Option, none, some, Bool, ltb, leb, All, arith, retain, map,
  dec_lt, ℕ, zero, suc, true, false, ◌&&◌, ◌++◌, length, ◌⊎◌, inl, inr, Bool-cases,
}
use mm.Shared.SlotMap.{SlotMap}
use mm.Timer.{Instant, Entry, TimerState, Fired, goes_on, ended, after, fire_loop, on_time}
use mm.Timer.Invariant.{IsValid, LacksKey}
use mm.Timer.Cancelling.{Backed-remove}

module _ {M : Type 0} (slots : SlotMap (Entry M)) (before : slots.Key → slots.Key → Bool) where
  open slots use {
    Key, Slots, key_eq, empty, get, insert, remove, get-empty, insert_fresh, get-insert, get-remove,
  }

  abbrev pub due : Instant → List (Instant × Key) → List (Instant × Key)
  due now = retain (λ x. leb x.0 now)

  abbrev pub later : Instant → List (Instant × Key) → List (Instant × Key)
  later now = retain (λ x. ltb now x.0)

  abbrev pub message_of : Slots → Instant × Key → Option M
  message_of entries x = elim (get entries x.1) [ none ↦ none | some e ↦ some e.message ]

  due-none : (now : Instant) (r : List (Instant × Key)) → All (λ y. now < y.0) r → due now r ≡ []
  due-none now [] h = refl
  due-none now (x ∷ r) h = ground (arith, due-none now r h.1)

  later-All : (now : Instant) (r : List (Instant × Key)) → All (λ y. now < y.0) r → later now r ≡ r
  later-All now [] h = refl
  later-All now (x ∷ r) h = ground (arith, later-All now r h.1)

  All-beyond :
      (now b : Instant) (r : List (Instant × Key))
      → now < b
      → All (λ y. b ≤ y.0) r
      → All (λ y. now < y.0) r
  All-beyond now b [] h l = tt
  All-beyond now b (x ∷ r) h l = (omega arith, All-beyond now b r h l.1)

  messages-remove :
      (now : Instant) (entries : Slots) (key : Key) (r : List (Instant × Key))
      → LacksKey slots before key r
      → map (message_of (remove entries key)) (due now r) ≡ map (message_of entries) (due now r)
  messages-remove now entries key [] l = refl
  messages-remove now entries key (x ∷ r) l =
      ground (arith, get-remove entries key x.1, messages-remove now entries key r l.1)

  remove-IsValid :
      (entries : Slots) (at : Instant) (key : Key) (r : List (Instant × Key))
      → IsValid slots before (record { entries = entries; ordered = (at, key) ∷ r })
      → IsValid slots before (record { entries = remove entries key; ordered = r })
  remove-IsValid entries at key r v = record {
    distinct = v.distinct.1;
    sorted = v.sorted.1;
    backed = Backed-remove slots before entries key r v.distinct.0 v.backed.1;
    listed = λ k e h. ground (arith, get-remove entries key k, v.listed k e);
  }

  -- Whether the first sends all succeed.
  abbrev pub first_ok : (ℕ → Bool) → ℕ → Bool
  first_ok ok zero = true
  first_ok ok (suc n) = ok 0 && first_ok (λ i. ok (suc i)) n

  -- The server goes on with the later entries and nothing unsent, or ends at a failing send.
  abbrev pub GoesOn :
      Instant → List (Instant × Key) → Fired (TimerState slots before) M → List M → List M → Type 0
  GoesOn now r f sent unsent =
      (t : TimerState slots before) × (f ≡ goes_on t sent)
      × (unsent ≡ [])
      × (t.ordered ≡ later now r)
      × IsValid slots before t

  abbrev pub Ends : (ℕ → Bool) → Fired (TimerState slots before) M → List M → List M → Type 0
  Ends ok f sent unsent =
      (m : M) × (rest : List M) × (f ≡ ended sent)
      × (unsent ≡ m ∷ rest)
      × (ok (length sent) ≡ false)

  abbrev Fires :
      (ℕ → Bool)
      → Instant
      → Slots
      → List (Instant × Key)
      → Fired (TimerState slots before) M
      → List M × List M
      → Type 0
  Fires ok now entries r f x =
      (map (λ m. some m) (x.0 ++ x.1) ≡ map (message_of entries) (due now r))
      × (first_ok ok (length x.0) ≡ true)
      × (GoesOn now r f x.0 x.1 ⊎ Ends ok f x.0 x.1)

  abbrev Sends : (ℕ → Bool) → Instant → Slots → List (Instant × Key) → Type 0
  Sends ok now entries r =
      (x : List M × List M) × Fires ok now entries r (fire_loop slots before ok now entries r) x

  first-Sends :
      (ok : ℕ → Bool) (now : Instant) (entries : Slots) (at : Instant) (key : Key)
      (r : List (Instant × Key)) (m : M)
      → get entries key ≡ some (record { at = at; message = m })
      → ¬ (now < at)
      → LacksKey slots before key r
      → Sends (λ n. ok (suc n)) now (remove entries key) r
      → Sends ok now entries ((at, key) ∷ r)
  unfolding fire_loop after
  first-Sends ok now entries at key r m h p l ((sent, unsent), (e, f, w)) =
      let removed = messages-remove now entries key r l in
      elim (Bool-cases (ok 0)) [
        | inl q ↦ elim w [
          | inl (t, g, u, k, v) ↦ (
            (m ∷ sent, unsent),
            (ground arith, ground arith, inl (t, ground arith, u, ground arith, v)),
          )
          | inr (lost, rest, g, u, k) ↦ (
            (m ∷ sent, unsent),
            (ground arith, ground arith, inr (lost, rest, ground arith, u, k)),
          )
        ]
        | inr q ↦ (
          ([], m ∷ sent ++ unsent),
          (ground arith, refl, inr (m, sent ++ unsent, ground arith, refl, q)),
        )
      ]

  fire_loop-Sends :
      (ok : ℕ → Bool) (now : Instant) (entries : Slots) (r : List (Instant × Key))
      → IsValid slots before (record { entries = entries; ordered = r })
      → Sends ok now entries r
  unfolding fire_loop
  fire_loop-Sends ok now entries [] v = (
    ([], []),
    (refl, refl, inl (record { entries = entries; ordered = [] }, refl, refl, refl, v)),
  )
  fire_loop-Sends ok now entries ((at, key) ∷ r) v =
      let (m, h) = v.backed.0 in
      let rest =
        fire_loop-Sends (λ n. ok (suc n)) now (remove entries key) r
          (remove-IsValid entries at key r v) in
      elim (dec_lt now at) [
        | yes p ↦
            let beyond = All-beyond now at r p v.sorted.0 in
            let s : TimerState slots before = record {
              entries = entries;
              ordered = (at, key) ∷ r;
            } in
            (
              ([], []),
              (
                ground (arith, due-none now r beyond),
                refl,
                inl (s, ground arith, refl, ground (arith, later-All now r beyond), v),
              ),
            )
        | no p ↦ first-Sends ok now entries at key r m h p v.distinct.0 rest
      ]

  -- From a state whose indexes agree, `on_time` does not panic. It sends the messages of the due
  -- entries in the order of the list of expiries, as long as the sends succeed: if all do, it sends
  -- all of them and goes on with exactly the later entries, in a state whose indexes agree; otherwise
  -- the server ends at the first send that fails, having sent those before it and none after.
  pub on_time-sends :
      (ok : ℕ → Bool) (s : TimerState slots before) (now : Instant)
      → IsValid slots before s
      → (sent : List M) × (unsent : List M) × (map (λ m. some m) (sent ++ unsent)
          ≡ map (message_of s.entries) (due now s.ordered))
        × (first_ok ok (length sent) ≡ true)
        × (GoesOn now s.ordered (on_time slots before ok s now) sent unsent
            ⊎ Ends ok (on_time slots before ok s now) sent unsent)
  unfolding on_time
  on_time-sends ok s now v =
      let ((sent, unsent), (e, f, w)) = fire_loop-Sends ok now s.entries s.ordered v in
      (sent, unsent, e, f, w)
