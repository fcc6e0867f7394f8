-- ===== src/Timer.antt =====
-- components/mm1-timer/src/v1.rs: the timer server. `ordered`, a `BTreeSet` of expiries and keys, is the
-- list of its elements in their order; `before` is the order of the keys, that of the crate `slotmap`.
-- The server's `select!` is a choice of the next event; a reply or a sent message is a result. A reply that
-- fails ends the server by `?`, and so does a failing send: no event comes after it.
pub mod Invariant
pub mod Cancelling
pub mod Firing
pub mod Runs
use mm.Shared.{
  ℕ, suc, ◌≤◌, List, [], ◌∷◌, Option, none, some, Bool, true, false, ltb, leb, ◌==◌, ◌&&◌, ◌||◌,
  if◌then◌else◌, ite, dec_lt,
}
use mm.Shared.SlotMap.{SlotMap}

abbrev pub Instant : Type 0
Instant = ℕ

pub record Entry (M : Type 0) : Type 0 where
  pub at : Instant
  pub message : M

-- What `Event::Time` comes to, with the messages that were sent: the server goes on, it ends because
-- `ctx.send(..).await?` failed, and its state with it, or `expect("should exist")` panics.
pub data Fired (S M : Type 0) : Type 0 where
  goes_on : S → List M → Fired S M
  ended : List M → Fired S M
  panicked : Fired S M

unfoldable pub after : {S M : Type 0} → M → Fired S M → Fired S M
after m (goes_on s sent) = goes_on s (m ∷ sent)
after m (ended sent) = ended (m ∷ sent)
after m panicked = panicked

module _ {M : Type 0} (slots : SlotMap (Entry M)) (before : slots.Key → slots.Key → Bool) where
  open slots use {Key, Slots, key_eq, empty, get, insert, remove}

  pub record TimerState : Type 0 where
    pub entries : Slots
    pub ordered : List (Instant × Key)

  unfoldable pub default : TimerState
  default = record { entries = empty; ordered = [] }

  -- `BTreeSet::insert`.
  unfoldable pub put : Instant → Key → List (Instant × Key) → List (Instant × Key)
  put at key [] = (at, key) ∷ []
  put at key ((u, k) ∷ r) =
      let rest = put at key r in
      if ltb at u
      then (at, key) ∷ (u, k) ∷ r
      else if at == u
      then ite (key_eq k key) ((u, k) ∷ r)
          (if before key k then (at, key) ∷ (u, k) ∷ r else (u, k) ∷ rest)
      else (u, k) ∷ rest

  -- `BTreeSet::remove`.
  unfoldable pub take : Instant → Key → List (Instant × Key) → List (Instant × Key)
  take at key [] = []
  take at key ((u, k) ∷ r) =
      let rest = take at key r in
      ite (key_eq k key) (if at == u then r else (u, k) ∷ rest) ((u, k) ∷ rest)

  -- `Event::Schedule`: the new state and the key of the reply.
  unfoldable pub schedule : TimerState → Instant → M → TimerState × Key
  schedule s at message =
      let (entries, key) = insert s.entries (record { at = at; message = message }) in
      (record { entries = entries; ordered = put at key s.ordered }, key)

  -- `Event::Cancel`: the new state and the message of the reply.
  unfoldable pub cancel : TimerState → Key → TimerState × Option M
  cancel s key = elim (get s.entries key) [
    | none ↦ (s, none)
    | some e ↦ (
      record { entries = remove s.entries key; ordered = take e.at key s.ordered },
      some e.message,
    )
  ]

  -- The `while let` loop of `Event::Time`, over the ordered entries. `ok n` is whether the n-th send
  -- that it comes to succeeds.
  unfoldable pub fire_loop :
      (ℕ → Bool) → Instant → Slots → List (Instant × Key) → Fired TimerState M
  unfolding after
  fire_loop ok now entries [] = goes_on (record { entries = entries; ordered = [] }) []
  fire_loop ok now entries ((at, key) ∷ r) =
      let rest = fire_loop (λ n. ok (suc n)) now (remove entries key) r in
      if ltb now at
      then goes_on (record { entries = entries; ordered = (at, key) ∷ r }) []
      else elim (get entries key) [
        | none ↦ panicked
        | some e ↦ if ok 0 then after e.message rest else ended []
      ]

  unfoldable pub on_time : (ℕ → Bool) → TimerState → Instant → Fired TimerState M
  unfolding fire_loop
  on_time ok s now = fire_loop ok now s.entries s.ordered
