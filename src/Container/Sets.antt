-- ===== src/Container/Sets.antt =====
-- core/mm1-node/src/runtime/container.rs: the sets that a job entry holds. A `HashSet` of addresses is a list
-- without order; a `BTreeSet` of addresses and watch references is the list of its elements in their order.
use mm.Shared.{
  ℕ, ◌≡◌, refl, Option, none, some, List, [], ◌∷◌, Bool, true, false, ◌==◌, ltb, not, if◌then◌else◌,
  ◌&&◌, ◌||◌, any, retain, ℕ_discrete, arith,
}
use mm.Shared.Map.{get, remove, get-remove, Distinct, Distinct-remove}

abbrev pub Address : Type 0
Address = ℕ

abbrev pub WatchRef : Type 0
WatchRef = ℕ

-- Whom a fork watches, or who watches it, with the reference of the watch.
abbrev pub Watches : Type 0
Watches = List (Address × WatchRef)

-- `HashSet::contains`, `HashSet::insert` and `HashSet::remove`.
unfoldable pub contains : Address → List Address → Bool
contains a [] = false
contains a (b ∷ r) = b == a || contains a r

unfoldable pub include : Address → List Address → List Address
include a r = if contains a r then r else a ∷ r

unfoldable pub exclude : Address → List Address → List Address
exclude a = retain (λ b. not (b == a))

-- Membership of a `BTreeSet`, `BTreeSet::insert` and `BTreeSet::remove`.
unfoldable pub has : Address → WatchRef → Watches → Bool
has a w [] = false
has a w ((b, v) ∷ r) = b == a && v == w || has a w r

unfoldable pub put : Address → WatchRef → Watches → Watches
put a w [] = (a, w) ∷ []
put a w ((b, v) ∷ r) =
    let rest = (b, v) ∷ put a w r in
    if b == a && v == w
    then (b, v) ∷ r
    else if ltb a b || a == b && ltb w v
    then (a, w) ∷ (b, v) ∷ r
    else rest

unfoldable pub drop : Address → WatchRef → Watches → Watches
drop a w = retain (λ x. not (x.0 == a && x.1 == w))

-- The elements in the range `(peer, WatchRef::MIN)..=(peer, WatchRef::MAX)`, and the others.
abbrev pub of_peer : Address → Watches → Watches
of_peer peer = retain (λ x. x.0 == peer)

abbrev pub of_others : Address → Watches → Watches
of_others peer = retain (λ x. not (x.0 == peer))

-- The `filter_map` that leaves one of each run of equal peers.
unfoldable pub peers_after : Option Address → Watches → List Address
peers_after prev [] = []
peers_after prev ((p, w) ∷ r) =
    let rest = peers_after (some p) r in
    if elim prev [ none ↦ false | some q ↦ q == p ] then rest else p ∷ rest

unfoldable pub peers_of : Watches → List Address
unfolding peers_after
peers_of = peers_after none

contains_eq :
    (a b : Address) (r : List Address)
    → contains a r ≡ true
    → contains b r ≡ (a == b || contains b r)
unfolding contains
contains_eq a b [] h = absurd (cc)
contains_eq a b (c ∷ r) h = ground (arith, contains_eq a b r)

pub contains-include :
    (a b : Address) (r : List Address) → contains b (include a r) ≡ (a == b || contains b r)
unfolding contains include
contains-include a b r = ground (arith, contains_eq a b r)

pub contains-exclude :
    (a b : Address) (r : List Address)
    → contains b (exclude a r) ≡ (if a == b then false else contains b r)
unfolding contains exclude
contains-exclude a b [] = ground arith
contains-exclude a b (c ∷ r) = ground (arith, contains-exclude a b r)

pub has-put :
    (a : Address) (w : WatchRef) (b : Address) (v : WatchRef) (r : Watches)
    → has b v (put a w r) ≡ (a == b && w == v || has b v r)
unfolding has put
has-put a w b v [] = refl
has-put a w b v ((c, u) ∷ r) = ground (arith, has-put a w b v r)

pub has-drop :
    (a : Address) (w : WatchRef) (b : Address) (v : WatchRef) (r : Watches)
    → has b v (drop a w r) ≡ (if a == b && w == v then false else has b v r)
unfolding has drop
has-drop a w b v [] = ground arith
has-drop a w b v ((c, u) ∷ r) = ground (arith, has-drop a w b v r)

pub has-of_others :
    (p b : Address) (v : WatchRef) (r : Watches)
    → has b v (of_others p r) ≡ (if b == p then false else has b v r)
unfolding has
has-of_others p b v [] = ground arith
has-of_others p b v ((c, u) ∷ r) = ground (arith, has-of_others p b v r)

pub has-of_peer :
    (p b : Address) (v : WatchRef) (r : Watches)
    → has b v (of_peer p r) ≡ (if b == p then has b v r else false)
unfolding has
has-of_peer p b v [] = ground arith
has-of_peer p b v ((c, u) ∷ r) = ground (arith, has-of_peer p b v r)

-- A watch with the reference is in the set.
abbrev pub has_ref : WatchRef → Watches → Bool
has_ref w = any (λ x. x.1 == w)

pub has-has_ref : (a : Address) (w : WatchRef) (r : Watches) → has a w r ≡ true → has_ref w r ≡ true
unfolding has
has-has_ref a w [] h = cc
has-has_ref a w ((b, v) ∷ r) h = ground (arith, has-has_ref a w r)

pub has_ref-has :
    (w : WatchRef) (r : Watches) → has_ref w r ≡ true → (a : Address) × (has a w r ≡ true)
unfolding has
has_ref-has w [] h = absurd (cc)
has_ref-has w ((b, v) ∷ r) h = elim (ℕ_discrete v w) [
  | yes e ↦ (b, ground arith)
  | no n ↦ let (a, k) = has_ref-has w r (ground arith) in (a, ground arith)
]

module _ {V : Type 0} where
  -- The references of the watches are given back.
  unfoldable pub drop_refs : Watches → List (WatchRef × V) → List (WatchRef × V)
  drop_refs [] taken = taken
  drop_refs ((a, w) ∷ r) taken = drop_refs r (remove ℕ_discrete w taken)

  pub Distinct-drop_refs :
      (r : Watches) (taken : List (WatchRef × V)) → Distinct taken → Distinct (drop_refs r taken)
  unfolding drop_refs
  Distinct-drop_refs [] taken d = d
  Distinct-drop_refs ((a, w) ∷ r) taken d =
      Distinct-drop_refs r (remove ℕ_discrete w taken) (Distinct-remove ℕ_discrete w taken d)

  pub get-drop_refs :
      (v : WatchRef) (r : Watches) (taken : List (WatchRef × V))
      → Distinct taken
      → get ℕ_discrete v (drop_refs r taken)
        ≡ (if has_ref v r then none else get ℕ_discrete v taken)
  unfolding drop_refs
  get-drop_refs v [] taken d = refl
  get-drop_refs v ((a, w) ∷ r) taken d = ground (
    arith,
    get-drop_refs v r (remove ℕ_discrete w taken) (Distinct-remove ℕ_discrete w taken d),
    get-remove ℕ_discrete w v taken d,
  )
