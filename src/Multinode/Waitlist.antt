-- ===== src/Multinode/Waitlist.antt =====
-- components/mm1-multinode/src/actors/multinode_manager.rs: the requests that wait for a protocol. A request has
-- an entry in a slot map, and stands in an ordered set under the name that it waits for. The set is the
-- list of its elements in their order: `cmp` is the order of the names, `key_before` that of the keys, and
-- `None` is the least. `none` is where an assertion or `expect` panics.
pub mod Order
pub mod Invariant
pub mod Hits
pub mod Collected
pub mod Answers
use mm.Shared.{
  List, [], ◌∷◌, Option, none, some, Bool, true, false, not, ◌||◌, if◌then◌else◌, ite, retain,
}
use Prim.Native.Nat.{Ordering}
use mm.Shared.SlotMap.{SlotMap}

pub record WaitlistEntry (N H K : Type 0) : Type 0 where
  pub protocol : N
  pub reply_to : H
  pub timer_key : Option K

module _ {N H K : Type 0} (name_eq : Discrete N) (cmp : N → N → Ordering)
    (slots : SlotMap (WaitlistEntry N H K)) (key_before : slots.Key → slots.Key → Bool) where
  open slots use {Key, Slots, key_eq, get, insert, write, remove}

  abbrev pub Waiters : Type 0
  Waiters = List (N × Option Key)

  pub record Waitlist : Type 0 where
    pub entries : Slots
    pub by_protocol : Waiters

  abbrev pub is_key : Option Key → Key → Bool
  is_key none k = false
  is_key (some j) k = ite (key_eq j k) true false

  -- The element `(name, Some(key))`.
  unfoldable pub has : N → Key → Waiters → Bool
  has n k [] = false
  has n k ((m, j) ∷ r) = ite (name_eq m n) (is_key j k) false || has n k r

  abbrev pub comes_first : Key → Option Key → Bool
  comes_first k none = false
  comes_first k (some j) = key_before k j

  -- `BTreeSet::insert` of an element that is not there.
  unfoldable pub put : N → Key → Waiters → Waiters
  put n k [] = (n, some k) ∷ []
  put n k ((m, j) ∷ r) =
      let later = (m, j) ∷ put n k r in
      elim (cmp n m) [
        | Ordering.lt ↦ (n, some k) ∷ (m, j) ∷ r
        | Ordering.eq ↦ if comes_first k j then (n, some k) ∷ (m, j) ∷ r else later
        | Ordering.gt ↦ later
      ]

  -- `BTreeSet::remove`.
  unfoldable pub take_out : N → Key → Waiters → Waiters
  take_out n k = retain (λ x. not (ite (name_eq x.0 n) (is_key x.1 k) false))

  -- `range((name, None)..)`.
  unfoldable pub range_from : N → Waiters → Waiters
  range_from n [] = []
  range_from n ((m, j) ∷ r) = elim (cmp m n) [ Ordering.lt ↦ range_from n r | _ ↦ (m, j) ∷ r ]

  -- `skip_while(|(_, k)| k.is_none())`.
  unfoldable pub skip_none : Waiters → Waiters
  skip_none [] = []
  skip_none ((m, none) ∷ r) = skip_none r
  skip_none ((m, some k) ∷ r) = (m, some k) ∷ r

  -- `take_while(|(n, _)| n == &name)`.
  unfoldable pub take_name : N → Waiters → Waiters
  take_name n [] = []
  take_name n ((m, j) ∷ r) = ite (name_eq m n) ((m, j) ∷ take_name n r) []

  -- The elements that the `while let` loop comes to, one after the other.
  unfoldable pub waiters_of : N → Waiters → Waiters
  unfolding range_from skip_none take_name
  waiters_of n set = take_name n (skip_none (range_from n set))

  -- The loop over them: what is left, and the timer and the header of each request.
  unfoldable pub take_hits : Waitlist → Waiters → Option (Waitlist × List (K × H))
  unfolding take_out
  take_hits w [] = some (w, [])
  take_hits w ((m, none) ∷ r) = none
  take_hits w ((m, some k) ∷ r) = elim (get w.entries k) [
    | none ↦ none
    | some e ↦ elim e.timer_key [
      | none ↦ none
      | some t ↦
          elim (take_hits
            (record {
              entries = remove w.entries k;
              by_protocol = take_out e.protocol k w.by_protocol;
            })
            r) [ none ↦ none | some (w', hits) ↦ some (w', (t, e.reply_to) ∷ hits) ]
    ]
  ]

  unfoldable pub take_waiters : Waitlist → N → Option (Waitlist × List (K × H))
  unfolding take_hits waiters_of
  take_waiters w n = take_hits w (waiters_of n w.by_protocol)

  -- A request is entered, its timer is scheduled, and it waits.
  unfoldable pub enter : Waitlist → N → H → Slots × Key
  enter w n reply_to =
      insert w.entries (record { protocol = n; reply_to = reply_to; timer_key = none })

  unfoldable pub join : Waitlist → N → H → K → Option (Waitlist × Key)
  unfolding enter put has
  join w n reply_to timer =
      let (entries, key) = enter w n reply_to in
      if has n key w.by_protocol
      then none
      else some (
        record {
          entries =
              write entries key
                (record { protocol = n; reply_to = reply_to; timer_key = some timer });
          by_protocol = put n key w.by_protocol;
        },
        key,
      )

  -- The time of an entry has come.
  unfoldable pub leave : Waitlist → Key → WaitlistEntry N H K → Option Waitlist
  unfolding take_out has
  leave w key e =
      if has e.protocol key w.by_protocol
      then some (record {
        entries = remove w.entries key;
        by_protocol = take_out e.protocol key w.by_protocol;
      })
      else none
