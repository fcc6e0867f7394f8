-- ===== src/Config/Networks.antt =====
-- core/mm1-node/src/config.rs: the local networks of a valid configuration.
use mm.Shared.{
  ◌<◌, ◌^◌, ◌≡◌, refl, sym, ◌∙◌, List, [], ◌∷◌, map, retain, length, some, All, arith, Bool-cases,
  inl, inr,
}
use mm.Shared.Ordered.{NameOrder}
use mm.Subnet.{NetAddress, AddressRange, from_net, cmp}
use mm.Subnet.Sorted.{Disjoint}
use mm.Config.Overlaps.{IsFree, AreDisjoint}
use mm.Config.Validation.{
  DefLocalSubnet, Mm1NodeConfig, is_auto, address_auto, addresses_bind, valid, try_from,
}
use mm.Config.Validity.{try_from-Decides}

Disjoint-sym : (a b : AddressRange) → Disjoint a b → Disjoint b a
unfolding cmp
Disjoint-sym a b d = ground arith

addresses_bind-no_auto :
    (l : List DefLocalSubnet)
    → length (retain is_auto l) ≡ 0
    → addresses_bind l ≡ map (λ d. d.net) l
unfolding addresses_bind
addresses_bind-no_auto [] h = refl
addresses_bind-no_auto (d ∷ l) h = ground (arith, addresses_bind-no_auto l)

addresses_bind-IsFree :
    (n : NetAddress) (l : List DefLocalSubnet)
    → IsFree n (map (λ d. d.net) l)
    → IsFree n (addresses_bind l)
unfolding addresses_bind
addresses_bind-IsFree n [] f = tt
addresses_bind-IsFree n (d ∷ l) (h, f) = elim (Bool-cases (is_auto d)) [
  | inl e ↦ rw (addresses_bind, e) (addresses_bind-IsFree n l f)
  | inr e ↦ rw (addresses_bind, e) (h, addresses_bind-IsFree n l f)
]

addresses_bind-AreDisjoint :
    (l : List DefLocalSubnet) → AreDisjoint (map (λ d. d.net) l) → AreDisjoint (addresses_bind l)
unfolding addresses_bind
addresses_bind-AreDisjoint [] d = tt
addresses_bind-AreDisjoint (x ∷ l) (f, d) = elim (Bool-cases (is_auto x)) [
  | inl e ↦ rw (addresses_bind, e) (addresses_bind-AreDisjoint l d)
  | inr e ↦ rw (addresses_bind, e) (addresses_bind-IsFree x.net l f, addresses_bind-AreDisjoint l d)
]

address_auto-free :
    (b : NetAddress) (l : List DefLocalSubnet) (n : NetAddress)
    → address_auto l ≡ some n
    → IsFree b (map (λ d. d.net) l)
    → Disjoint (from_net b) (from_net n)
unfolding address_auto
address_auto-free b [] n e f = absurd (cc)
address_auto-free b (x ∷ l) n e (h, f) = elim (Bool-cases (is_auto x)) [
  | inl p ↦ rw (some_inj (rw (address_auto, p) at e)) at h
  | inr p ↦ address_auto-free b l n (rw (address_auto, p) at e) f
]
  where
    some_inj : {A : Type 0} {a b : A} → some a ≡ some b → a ≡ b
    some_inj e = cc

-- The automatic network, and that it is apart from those to bind.
abbrev pub Parts : List DefLocalSubnet → Type 0
Parts l =
    (n : NetAddress) × (address_auto l ≡ some n)
    × IsFree n (addresses_bind l)
    × AreDisjoint (addresses_bind l)

one_auto-Parts :
    (l : List DefLocalSubnet)
    → length (retain is_auto l) ≡ 1
    → AreDisjoint (map (λ d. d.net) l)
    → Parts l
unfolding address_auto addresses_bind
one_auto-Parts [] h d = absurd (omega (arith, h))
one_auto-Parts (x ∷ l) h (f, d) = elim (Bool-cases (is_auto x)) [
  | inl e ↦
      rw (address_auto, addresses_bind, e)
        (x.net, refl, addresses_bind-IsFree x.net l f, addresses_bind-AreDisjoint l d)
  | inr e ↦
      let (n, a, free, apart) = one_auto-Parts l (ground (arith, h, e)) d in
      rw (address_auto, addresses_bind, e)
        (
          n,
          a,
          (Disjoint-sym (from_net x.net) (from_net n) (address_auto-free x.net l n a f), free),
          (addresses_bind-IsFree x.net l f, apart),
        )
]

-- A configuration with networks below 2^64 that the validation accepts has its automatic network, so
-- the `expect` of `local_subnet_address_auto` does not fail; it overlaps none of the networks to
-- bind, and they do not overlap each other.
pub try_from-Parts :
    {S : Type 0} (name_eq : Discrete S) (order : NameOrder S) (c d : Mm1NodeConfig S)
    → All (λ n. n.address < 2 ^ 64) (map (λ x. x.net) c.local_subnets)
    → try_from name_eq order c ≡ some (valid d)
    → Parts d.local_subnets
try_from-Parts name_eq order c d below h = elim (try_from-Decides name_eq order c below) [
  | inl (v, e) ↦ rw (accepted (sym e ∙ h)) at (one_auto-Parts c.local_subnets v.one_auto v.disjoint)
  | inr (v, x, l, e) ↦ absurd (cc)
]
  where
    accepted : {S : Type 0} {c d : Mm1NodeConfig S} → some (valid c) ≡ some (valid d) → c ≡ d
    accepted e = cc
