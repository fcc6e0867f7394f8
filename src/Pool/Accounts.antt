-- ===== src/Pool/Accounts.antt =====
-- Each operation of the pool, and the addresses that its tries cover.
use mm.Shared.{ℕ, ◌+◌, ◌≤◌, ◌≡◌, refl, sym, ap, subst, arith, Option, none, some, true}
use mm.Subnet.{NetMask}
use mm.Pool.{Shared, Lease, zeros_of, lease, lease_coalesced, lease_of, drop_lease}
use mm.Pool.Trie.{Node, absent, leaf, fork, shr, acquire, drain_into}
use mm.Pool.Trie.Covers.{inside, covers, IsBlock, IsTrie, IsCompact}
use mm.Pool.Trie.Release.{release-Gains}
use mm.Pool.Trie.Split.{Yields}
use mm.Pool.Trie.Acquire.{acquire-Acquires}
use mm.Pool.Trie.Room.{IsCovered, IsCovered-HasRoom}

-- No address stands in both tries.
abbrev AreApart : Node → Node → Type 0
AreApart t u = (x : ℕ) → covers t x + covers u x ≤ 1

inside-1 : (a k x : ℕ) → shr k x ≡ shr k a → inside a k x ≡ 1
inside-1 a k x e = ground arith

-- Draining a trie into another moves all of what it covers.
pub drain_into-covers :
    (t u : Node)
    → IsTrie t
    → IsTrie u
    → AreApart t u
    → (u' : Node) × (drain_into t u ≡ some u')
      × IsTrie u'
      × ((x : ℕ) → covers u' x ≡ covers t x + covers u x)
      × (IsCompact u → IsCompact u')
unfolding drain_into covers
drain_into-covers absent u g h a = (u, refl, h, (λ x. omega arith), (λ c. c))
drain_into-covers (leaf p s) u g h a =
    let (u', e, r) = release-Gains u p s h g (λ x e. omega (arith, a x, inside-1 p s x e)) in
    (u', rw (drain_into, e) refl, r.trie, (λ x. omega (arith, r.gained x)), r.compact)
drain_into-covers (fork p s z o) u g h a =
    let (v, e, gv, cv, kv) = drain_into-covers z u g.4 h (λ x. omega (arith, a x)) in
    let (w, f, gw, cw, kw) = drain_into-covers o v g.5 gv (λ x. omega (arith, a x, cv x)) in
    (w, rw (drain_into, e, f) refl, gw, (λ x. omega (arith, cv x, cw x)), (λ c. kw (kv c)))

-- The tries of a pool that is not locked.
pub record IsPool (s : Shared) : Type 0 where
  pub main_trie : IsTrie s.main
  pub used_trie : IsTrie s.used
  pub apart : AreApart s.main s.used
  pub main_compact : IsCompact s.main
  pub used_compact : IsCompact s.used

abbrev pub free : Shared → ℕ → ℕ
free s x = covers s.main x + covers s.used x

abbrev pub held : Lease → ℕ → ℕ
held l x = inside l.net_address.address (zeros_of l.net_address.mask) x

abbrev pub IsLease : Lease → Type 0
IsLease l = IsBlock l.net_address.address (zeros_of l.net_address.mask)

-- What a request comes to: without a lease the free addresses are the same, and no block of the mask is
-- all free; with one it holds a block of the mask that was asked for, which was free and is not any more.
abbrev pub Grants : Shared → NetMask → Shared → Option Lease → Type 0
Grants s m s' none =
    ((x : ℕ) → free s' x ≡ free s x) × ((a : ℕ) → ¬ IsCovered (free s) (zeros_of m) a)
Grants s m s' (some l) =
    IsLease l
    × (l.net_address.mask ≡ m)
    × (l.pooled ≡ true)
    × ((x : ℕ) → free s x ≡ free s' x + held l x)

abbrev pub Leases : Shared → NetMask → Option (Shared × Option Lease) → Type 0
Leases s m r =
    (s' : Shared) × (out : Option Lease) × (r ≡ some (s', out)) × IsPool s' × Grants s m s' out

coalesced-end :
    (s : Shared) (m : NetMask) (u main : Node) (out : Option ℕ)
    → IsPool s
    → drain_into s.used s.main ≡ some u
    → IsTrie u
    → IsCompact u
    → ((x : ℕ) → covers u x ≡ covers s.used x + covers s.main x)
    → acquire u (zeros_of m) ≡ some (main, out)
    → Yields u (zeros_of m) main out
    → Leases s m (lease_coalesced s m)
unfolding lease_coalesced covers
coalesced-end s m u main none v e g k c f (same, no_room) = (
  record { main = main; used = absent },
  none,
  rw (lease_coalesced, e, f) refl,
  record {
    main_trie = subst IsTrie (sym same) g;
    used_trie = tt;
    apart = λ x. omega (arith, v.apart x, c x, ap (λ n. covers n x) same);
    main_compact = subst IsCompact (sym same) k;
    used_compact = tt;
  },
  (
    (λ x. omega (arith, c x, ap (λ n. covers n x) same)),
    λ a h. no_room (IsCovered-HasRoom u (zeros_of m) a g k (λ x i. omega (arith, h x i, c x))),
  ),
)
coalesced-end s m u main (some a) v e g k c f (b, g', y, h) = (
  record { main = main; used = absent },
  some (lease_of m a),
  rw (lease_coalesced, e, f) refl,
  record {
    main_trie = g';
    used_trie = tt;
    apart = λ x. omega (arith, v.apart x, c x, y x);
    main_compact = h k;
    used_compact = tt;
  },
  (b, refl, refl, (λ x. omega (arith, c x, y x))),
)

coalesced-Leases : (s : Shared) (m : NetMask) → IsPool s → Leases s m (lease_coalesced s m)
coalesced-Leases s m v =
    let (u, e, g, c, k) =
      drain_into-covers s.used s.main v.used_trie v.main_trie (λ x. omega (arith, v.apart x)) in
    let (main, out, f, st, y) = acquire-Acquires u (zeros_of m) g in
    coalesced-end s m u main out v e g (k v.main_compact) c f y

lease-end :
    (s : Shared) (m : NetMask) (main used : Node) (out out' : Option ℕ)
    → IsPool s
    → acquire s.main (zeros_of m) ≡ some (main, out)
    → Yields s.main (zeros_of m) main out
    → acquire s.used (zeros_of m) ≡ some (used, out')
    → Yields s.used (zeros_of m) used out'
    → Leases s m (lease s m)
unfolding lease
lease-end s m main used (some a) out' v e (b, g, y, h) f z = (
  record { main = main; used = s.used },
  some (lease_of m a),
  rw (lease, e) refl,
  record {
    main_trie = g;
    used_trie = v.used_trie;
    apart = λ x. omega (arith, v.apart x, y x);
    main_compact = h v.main_compact;
    used_compact = v.used_compact;
  },
  (b, refl, refl, (λ x. omega (arith, y x))),
)
lease-end s m main used none (some a) v e (same, no_room) f (b, g, y, h) = (
  record { main = used; used = main },
  some (lease_of m a),
  rw (lease, e, f) refl,
  record {
    main_trie = g;
    used_trie = subst IsTrie (sym same) v.main_trie;
    apart = λ x. omega (arith, v.apart x, y x, ap (λ n. covers n x) same);
    main_compact = h v.used_compact;
    used_compact = subst IsCompact (sym same) v.main_compact;
  },
  (b, refl, refl, (λ x. omega (arith, y x, ap (λ n. covers n x) same))),
)
lease-end s m main used none none v e (same, no_room) f (same', no_room') =
    rw (lease, e, f, same, same') (coalesced-Leases s m v)

-- A request to a well-formed pool does not panic: a lease is an aligned block of the mask that was
-- asked for, which was free, and nothing else changes; without a lease nothing changes, and no
-- aligned block of that size has all its addresses free.
pub lease-Leases : (s : Shared) (m : NetMask) → IsPool s → Leases s m (lease s m)
lease-Leases s m v =
    let (main, out, e, st, y) = acquire-Acquires s.main (zeros_of m) v.main_trie in
    let (used, out', f, st', z) = acquire-Acquires s.used (zeros_of m) v.used_trie in
    lease-end s m main used out out' v e y f z

-- Dropping a lease of addresses that are not free never panics, and frees them.
pub drop_lease-frees :
    (s : Shared) (l : Lease)
    → IsPool s
    → IsLease l
    → l.pooled ≡ true
    → ((x : ℕ) → free s x + held l x ≤ 1)
    → (s' : Shared) × (drop_lease s l ≡ some s')
      × IsPool s'
      × ((x : ℕ) → free s' x ≡ free s x + held l x)
unfolding drop_lease
drop_lease-frees s l v b p f =
    let a = l.net_address.address in
    let k = zeros_of l.net_address.mask in
    let (t, e, r) =
      release-Gains s.used a k v.used_trie b (λ x e. omega (arith, f x, inside-1 a k x e)) in
    (
      record { main = s.main; used = t },
      rw (drop_lease, p, e) refl,
      record {
        main_trie = v.main_trie;
        used_trie = r.trie;
        apart = λ x. omega (arith, f x, r.gained x);
        main_compact = v.main_compact;
        used_compact = r.compact v.used_compact;
      },
      (λ x. omega (arith, r.gained x)),
    )

pub same_answer : {A : Type 0} (r : Option A) (a b : A) → r ≡ some a → r ≡ some b → a ≡ b
same_answer r a b e f = cc

-- The facts on a request hold of whatever it answered.
pub answered :
    (s : Shared) (m : NetMask) (s' : Shared) (out : Option Lease)
    → IsPool s
    → lease s m ≡ some (s', out)
    → IsPool s' × Grants s m s' out
answered s m s' out v e =
    let (r, o, f, w, g) = lease-Leases s m v in
    subst (λ (q : Shared × Option Lease). IsPool q.0 × Grants s m q.0 q.1)
      (same_answer (lease s m) (r, o) (s', out) f e) (w, g)

-- A lease that a well-formed pool granted can be dropped at once without a panic, and the free addresses
-- of the pool, well formed again, are what they were before the request.
pub lease-drop_lease :
    (s s' : Shared) (m : NetMask) (l : Lease)
    → IsPool s
    → lease s m ≡ some (s', some l)
    → (s'' : Shared) × (drop_lease s' l ≡ some s'') × IsPool s'' × ((x : ℕ) → free s'' x ≡ free s x)
lease-drop_lease s s' m l v e =
    let (w, (b, _, p, y)) = answered s m s' (some l) v e in
    let (r, f, u, z) = drop_lease-frees s' l w b p (λ x. omega (arith, y x, v.apart x)) in
    (r, f, u, λ x. omega (arith, y x, z x))
