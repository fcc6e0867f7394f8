-- ===== src/NodeRegistry/Lookup.antt =====
-- The registered subnets lie apart, and a lookup finds the one that an address lies in.
use mm.Shared.{
  ◌≤◌, ◌<◌, ◌^◌, ◌≡◌, ◌↔◌, refl, sym, ap, ◌∙◌, subst, List, [], ◌∷◌, Option, none, some, Bool, true,
  false, ◌&&◌, leb, if◌then◌else◌, All, arith, Option-cases, inl, inr,
}
use mm.Shared.Ordered.{find, put, delete}
use mm.Subnet.{Address, NetAddress, AddressRange, from_address, from_net, cmp}
use mm.Subnet.Bits.{from_net-le}
use mm.Subnet.Ranges.{IsRange, cmp_iff}
use mm.Subnet.Sorted.{IsSorted, Apart, find-Apart, put-IsSorted}
use mm.NodeRegistry.{register, unregister, lookup}
use Prim.Native.Nat.{Ordering}

abbrev pub is_in : Address → AddressRange → Bool
is_in x r = leb r.lo x && leb x r.hi

cmp_point :
    (k : AddressRange) (x : Address)
    → IsRange k
    → (cmp k (from_address x) ≡ Ordering.lt → k.hi < x)
      × (cmp k (from_address x) ≡ Ordering.gt → x < k.lo)
      × (cmp k (from_address x) ≡ Ordering.eq → is_in x k ≡ true)
unfolding cmp from_address
cmp_point k x h = (ground arith, ground arith, ground arith)

module _ {V : Type 0} where
  -- The node of a range that the address lies in, whatever the order.
  unfoldable pub owner : Address → List (AddressRange × V) → Option V
  owner x [] = none
  owner x ((k, v) ∷ r) = if is_in x k then some v else owner x r

  owner_below :
      (x : Address) (k : AddressRange) (r : List (AddressRange × V))
      → x ≤ k.hi
      → All (λ e. k.hi < e.0.lo) r
      → owner x r ≡ none
  unfolding owner
  owner_below x k [] h a = refl
  owner_below x k ((j, v) ∷ r) h a = ground (arith, owner_below x k r h a.1)

  -- In a registry of subnets that lie apart, a lookup finds the node of the subnet that the address lies in,
  -- and nothing if it lies in none.
  pub lookup-owner :
      (r : List (AddressRange × V)) (x : Address) → IsSorted r → lookup r x ≡ owner x r
  unfolding lookup find owner
  lookup-owner [] x a = refl
  lookup-owner ((k, v) ∷ r) x (h, l, a) =
      ground (arith, lookup-owner r x a, cmp_point k x h, owner_below x k r)

  owner-put :
      (k : AddressRange) (v : V) (m : List (AddressRange × V)) (x : Address)
      → IsRange k
      → IsSorted m
      → Apart k m
      → owner x (put cmp k v m) ≡ (if is_in x k then some v else owner x m)
  unfolding owner put cmp
  owner-put k v [] x h s a = refl
  owner-put k v ((j, w) ∷ m) x h (i, b, s) (n, a) = ground (arith, owner-put k v m x h s a)

  All-delete :
      (P : AddressRange → Type 0) (k : AddressRange) (m : List (AddressRange × V))
      → All (λ e. P e.0) m
      → All (λ e. P e.0) (delete cmp k m)
  unfolding delete
  All-delete P k [] a = tt
  All-delete P k ((j, w) ∷ m) a = ground (arith, All-delete P k m a.1)

  delete-IsSorted :
      (k : AddressRange) (m : List (AddressRange × V)) → IsSorted m → IsSorted (delete cmp k m)
  unfolding delete
  delete-IsSorted k [] s = tt
  delete-IsSorted k ((j, w) ∷ m) (h, b, s) =
      ground (arith, delete-IsSorted k m s, All-delete (λ e. j.hi < e.lo) k m b)

  -- A range that is found overlaps, and belongs to the node that is found with it.
  find-owner :
      (k j : AddressRange) (w : V) (m : List (AddressRange × V)) (x : Address)
      → IsRange k
      → IsSorted m
      → find cmp k m ≡ some (j, w)
      → (cmp j k ≡ Ordering.eq) × IsRange j × (is_in x j ≡ true → owner x m ≡ some w)
  unfolding find owner
  find-owner k j w [] x h s e = absurd (ground arith)
  find-owner k j w ((i, u) ∷ m) x h (p, b, s) e =
      ground (arith, find-owner k j w m x h s, owner_below x i m)

  Apart-owner :
      (k : AddressRange) (m : List (AddressRange × V)) (x : Address)
      → IsRange k
      → IsSorted m
      → Apart k m
      → is_in x k ≡ true
      → owner x m ≡ none
  unfolding owner cmp
  Apart-owner k [] x h s a e = refl
  Apart-owner k ((j, w) ∷ m) x h (i, b, s) (n, a) e = ground (arith, Apart-owner k m x h s a e)

  refused :
      (r : List (AddressRange × V)) (n : NetAddress) (v : V) (e : AddressRange × V)
      → find cmp (from_net n) r ≡ some e
      → register r n v ≡ (r, some v)
  unfolding register
  refused r n v e f = rw (register, f) refl

  taken :
      (r : List (AddressRange × V)) (n : NetAddress) (v : V)
      → find cmp (from_net n) r ≡ none
      → register r n v ≡ (put cmp (from_net n) v r, none)
  unfolding register
  taken r n v f = rw (register, f) refl

  register-IsSorted :
      (r : List (AddressRange × V)) (n : NetAddress) (v : V)
      → n.address < 2 ^ 64
      → IsSorted r
      → IsSorted (register r n v).0
  register-IsSorted r n v h s = elim (Option-cases (find cmp (from_net n) r)) [
    | inl f ↦ rw (taken r n v f) (
        put-IsSorted (from_net n) v r (from_net-le n h) s
          (find-Apart (from_net n) r (from_net-le n h) s f))
    | inr (e, f) ↦ rw (refused r n v e f) s
  ]

  -- After a subnet is registered in a registry of subnets that lie apart, a lookup of any of its addresses
  -- finds its node, and a lookup of any other address finds what it found before.
  pub register-lookup :
      (r r' : List (AddressRange × V)) (n : NetAddress) (v : V) (x : Address)
      → n.address < 2 ^ 64
      → IsSorted r
      → register r n v ≡ (r', none)
      → lookup r' x ≡ (if is_in x (from_net n) then some v else lookup r x)
  register-lookup r r' n v x h s e = elim (Option-cases (find cmp (from_net n) r)) [
    | inl f ↦
        let b = from_net-le n h in
        let a = find-Apart (from_net n) r b s f in
        let same : put cmp (from_net n) v r ≡ r' = ap (λ q. q.0) (sym (taken r n v f) ∙ e) in
        subst (λ q. lookup q x ≡ (if is_in x (from_net n) then some v else lookup r x)) same
          (lookup-owner (put cmp (from_net n) v r) x (put-IsSorted (from_net n) v r b s a)
            ∙ owner-put (from_net n) v r x b s a
            ∙ ap (λ o. if is_in x (from_net n) then some v else o) (sym (lookup-owner r x s)))
    | inr (d, f) ↦
        let same : some v ≡ none = ap (λ q. q.1) (sym (refused r n v d f) ∙ e) in
        absurd (ground arith)
  ]

  kept :
      (r : List (AddressRange × V)) (n : NetAddress)
      → find cmp (from_net n) r ≡ none
      → unregister r n ≡ (r, false)
  unfolding unregister
  kept r n f = rw (unregister, f) refl

  dropped :
      (r : List (AddressRange × V)) (n : NetAddress) (k : AddressRange) (w : V)
      → find cmp (from_net n) r ≡ some (k, w)
      → cmp k (from_net n) ≡ Ordering.eq
      → unregister r n ≡ (delete cmp (from_net n) r, true)
  unfolding unregister
  dropped r n k w f e = rw (unregister, f, e) refl

  unregister-IsSorted :
      (r : List (AddressRange × V)) (n : NetAddress)
      → n.address < 2 ^ 64
      → IsSorted r
      → IsSorted (unregister r n).0
  unregister-IsSorted r n h s = elim (Option-cases (find cmp (from_net n) r)) [
    | inl f ↦ rw (kept r n f) s
    | inr ((k, w), f) ↦
        let (e, _, _) = find-owner (from_net n) k w r 0 (from_net-le n h) s f in
        rw (dropped r n k w f e) (delete-IsSorted (from_net n) r s)
  ]

  -- From a registry of subnets that lie apart, `unregister` of a network with an address below 2^64
  -- removes something exactly when some address of the network lies in a registered subnet, be it
  -- that network or not.
  pub unregister-true_iff :
      (r : List (AddressRange × V)) (n : NetAddress)
      → n.address < 2 ^ 64
      → IsSorted r
      → ((unregister r n).1 ≡ true)
        ↔ ((x : Address) × (w : V) × (is_in x (from_net n) ≡ true) × (lookup r x ≡ some w))
  unregister-true_iff r n h s =
      let b = from_net-le n h in
      elim (Option-cases (find cmp (from_net n) r)) [
        | inl f ↦ (
          λ e. absurd (let g = ap (λ q. q.1) (kept r n f) in ground arith),
          λ (x, w, i, l). absurd (
              let none_there =
                Apart-owner (from_net n) r x b s (find-Apart (from_net n) r b s f) i in
              let l' = lookup-owner r x s in ground arith),
        )
        | inr ((k, w), f) ↦
            let (e, p, _) = find-owner (from_net n) k w r 0 b s f in
            (
              λ t.
                  let (x, c, d, c', d') = (cmp_iff k (from_net n) p b).2.0 e in
                  let at : is_in x k ≡ true = ground arith in
                  (
                    x,
                    w,
                    ground arith,
                    lookup-owner r x s ∙ (find-owner (from_net n) k w r x b s f).2 at,
                  ),
              λ t. ap (λ q. q.1) (dropped r n k w f e),
            )
      ]

  pub data Reach : List (AddressRange × V) → Type 0 where
    fresh : Reach []
    registered :
        (r : List (AddressRange × V)) (n : NetAddress) (v : V)
        → n.address < 2 ^ 64
        → Reach r
        → Reach (register r n v).0
    unregistered :
        (r : List (AddressRange × V)) (n : NetAddress)
        → n.address < 2 ^ 64
        → Reach r
        → Reach (unregister r n).0

  pub Reach-IsSorted : (r : List (AddressRange × V)) → Reach r → IsSorted r
  Reach-IsSorted r fresh = tt
  Reach-IsSorted r (registered q n v h d) = register-IsSorted q n v h (Reach-IsSorted q d)
  Reach-IsSorted r (unregistered q n h d) = unregister-IsSorted q n h (Reach-IsSorted q d)

  -- Whatever networks with addresses below 2^64 are registered and unregistered, the subnets of the
  -- registry lie apart, and a lookup in the ordered map finds what a search of all of them for the
  -- address finds.
  pub Reach-lookup :
      (r : List (AddressRange × V)) (x : Address) → Reach r → IsSorted r × (lookup r x ≡ owner x r)
  Reach-lookup r x d = let s = Reach-IsSorted r d in (s, lookup-owner r x s)
