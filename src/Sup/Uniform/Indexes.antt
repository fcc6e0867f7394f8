-- ===== src/Sup/Uniform/Indexes.antt =====
-- The two indexes of the uniform supervisor agree.
use mm.Shared.{◌≡◌, ◌≢◌, Option, none, some, arith, ℕ_discrete}
use mm.Shared.SlotMap.{SlotMap}
use mm.Shared.Map.{
  get, insert, remove, Distinct, get-insert, get-remove, Distinct-insert, Distinct-remove,
}
use mm.Sup.Child.{Address}
use mm.Sup.Uniform.{
  ChildStatus, starting, started, stopping, ChildEntry, Children, no_children, drop_child,
}

abbrev pub address_of : ChildStatus → Option Address
address_of starting = none
address_of (started a) = some a
address_of (stopping a) = some a

module _ {D : Type 0} (slots : SlotMap (ChildEntry D)) where
  -- An address that is listed leads to a child with the address, and a child with an address is
  -- listed under it.
  pub record IsValid (c : Children slots) : Type 0 where
    pub distinct : Distinct c.by_address
    pub found :
        (a : Address) (k : slots.Key)
        → get ℕ_discrete a c.by_address ≡ some k
        → (e : ChildEntry D) × (slots.get c.primary k ≡ some e) × (address_of e.status ≡ some a)
    pub listed :
        (k : slots.Key) (e : ChildEntry D) (a : Address)
        → slots.get c.primary k ≡ some e
        → address_of e.status ≡ some a
        → get ℕ_discrete a c.by_address ≡ some k

  pub no_children-IsValid : IsValid (no_children slots)
  unfolding no_children get
  no_children-IsValid = record {
    distinct = tt;
    found = λ a k h. ground arith;
    listed = λ k e a h i. ground (arith, slots.get-empty k);
  }

  -- A new child has no address.
  pub insert-IsValid :
      (c : Children slots) (e : ChildEntry D)
      → IsValid c
      → address_of e.status ≡ none
      → IsValid (record { primary = (slots.insert c.primary e).0; by_address = c.by_address })
  insert-IsValid c e v h = record {
    distinct = v.distinct;
    found = λ a k i.
        let (f, g, j) = v.found a k i in
        (f, ground (arith, slots.get-insert c.primary e k, slots.insert_fresh c.primary e), j);
    listed = λ k f a i j. ground (arith, slots.get-insert c.primary e k, v.listed k f a);
  }

  -- A child that keeps its address.
  pub write-IsValid :
      (c : Children slots) (k : slots.Key) (e f : ChildEntry D)
      → IsValid c
      → slots.get c.primary k ≡ some e
      → address_of f.status ≡ address_of e.status
      → IsValid (record { primary = slots.write c.primary k f; by_address = c.by_address })
  write-IsValid c k e f v h same =
      let there : slots.get c.primary k ≢ none = λ n. cc in
      record {
        distinct = v.distinct;
        found = λ a j i.
            let (g, p, q) = v.found a j i in
            elim (slots.key_eq k j) [
              | yes t ↦ (f, ground (arith, slots.get-write c.primary k f j there), cc)
              | no n ↦ (g, ground (arith, slots.get-write c.primary k f j there), q)
            ];
        listed = λ j g a i q.
            ground (arith, slots.get-write c.primary k f j there, v.listed j g a, v.listed k e a);
      }

  -- A child that gets its address.
  pub started-IsValid :
      (c : Children slots) (k : slots.Key) (a : Address) (e f : ChildEntry D)
      → IsValid c
      → slots.get c.primary k ≡ some e
      → address_of e.status ≡ none
      → get ℕ_discrete a c.by_address ≡ none
      → address_of f.status ≡ some a
      → IsValid (record {
        primary = slots.write c.primary k f;
        by_address = insert ℕ_discrete a k c.by_address;
      })
  started-IsValid c k a e f v h no_address new at =
      let there : slots.get c.primary k ≢ none = λ n. cc in
      let listing = λ (b : Address). get-insert ℕ_discrete a b k c.by_address in
      record {
        distinct = Distinct-insert ℕ_discrete a k c.by_address v.distinct;
        found = λ b j i. elim (ℕ_discrete a b) [
          | yes t ↦
              let same : k ≡ j = ground (arith, listing b) in
              (f, ground (arith, slots.get-write c.primary k f j there), cc)
          | no n ↦
              let (g, p, q) = v.found b j (ground (arith, listing b)) in
              let other : k ≢ j = λ s. cc in
              (g, ground (arith, slots.get-write c.primary k f j there), q)
        ];
        listed = λ j g b i q. elim (slots.key_eq k j) [
          | yes t ↦
              let same : f ≡ g = ground (arith, slots.get-write c.primary k f j there) in
              let at_a : a ≡ b = cc in ground (arith, listing b)
          | no n ↦
              let old = v.listed j g b (ground (arith, slots.get-write c.primary k f j there)) q in
              let other : a ≢ b = λ s. cc in ground (arith, listing b)
        ];
      }

  -- A child without an address goes.
  pub drop_child-IsValid :
      (c : Children slots) (k : slots.Key) (e : ChildEntry D)
      → IsValid c
      → slots.get c.primary k ≡ some e
      → address_of e.status ≡ none
      → IsValid (drop_child slots c k)
  unfolding drop_child
  drop_child-IsValid c k e v h no_address = record {
    distinct = v.distinct;
    found = λ a j i.
        let (g, p, q) = v.found a j i in
        let other : k ≢ j = λ s. cc in (g, ground (arith, slots.get-remove c.primary k j), q);
    listed = λ j g a i q. ground (arith, slots.get-remove c.primary k j, v.listed j g a);
  }

  abbrev pub unlist : Children slots → Address → Children slots
  unlist c a = record { primary = c.primary; by_address = remove ℕ_discrete a c.by_address }

  -- A child goes, and its address with it.
  pub exited-IsValid :
      (c : Children slots) (k : slots.Key) (a : Address)
      → IsValid c
      → get ℕ_discrete a c.by_address ≡ some k
      → IsValid (drop_child slots (unlist c a) k)
  unfolding drop_child
  exited-IsValid c k a v h =
      let unlisted = λ (b : Address). get-remove ℕ_discrete a b c.by_address v.distinct in
      let (e, there, at) = v.found a k h in
      record {
        distinct = Distinct-remove ℕ_discrete a c.by_address v.distinct;
        found = λ b j i.
            let kept : get ℕ_discrete b c.by_address ≡ some j = ground (arith, unlisted b) in
            let (g, p, q) = v.found b j kept in
            let differs : a ≢ b = ground (arith, unlisted b) in
            let other : k ≢ j = λ s. differs cc in
            (g, ground (arith, slots.get-remove c.primary k j), q);
        listed = λ j g b i q.
            let other : k ≢ j = ground (arith, slots.get-remove c.primary k j) in
            let old = v.listed j g b (ground (arith, slots.get-remove c.primary k j)) q in
            let differs : a ≢ b = λ s. other cc in ground (arith, unlisted b);
      }

  -- A child that is started again has no address until it runs.
  pub restarted-IsValid :
      (c : Children slots) (k : slots.Key) (a : Address) (f : ChildEntry D)
      → IsValid c
      → get ℕ_discrete a c.by_address ≡ some k
      → address_of f.status ≡ none
      → IsValid (record {
        primary = slots.write c.primary k f;
        by_address = remove ℕ_discrete a c.by_address;
      })
  restarted-IsValid c k a f v h no_address =
      let unlisted = λ (b : Address). get-remove ℕ_discrete a b c.by_address v.distinct in
      let (e, at_k, at) = v.found a k h in
      let there : slots.get c.primary k ≢ none = λ n. cc in
      record {
        distinct = Distinct-remove ℕ_discrete a c.by_address v.distinct;
        found = λ b j i.
            let kept : get ℕ_discrete b c.by_address ≡ some j = ground (arith, unlisted b) in
            let (g, p, q) = v.found b j kept in
            let differs : a ≢ b = ground (arith, unlisted b) in
            let other : k ≢ j = λ s. differs cc in
            (g, ground (arith, slots.get-write c.primary k f j there), q);
        listed = λ j g b i q.
            let other : k ≢ j = λ s. ground (arith, slots.get-write c.primary k f j there) in
            let old = v.listed j g b (ground (arith, slots.get-write c.primary k f j there)) q in
            let differs : a ≢ b = λ s. other cc in ground (arith, unlisted b);
      }
