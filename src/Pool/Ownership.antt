-- ===== src/Pool/Ownership.antt =====
-- A pool and the leases that are out: who has an address of the network.
use mm.Shared.{
  ℕ, ◌+◌, ◌^◌, ◌≤◌, ◌<◌, ◌≡◌, refl, ap, subst, arith, List, [], ◌∷◌, ◌++◌, none, some, true, All,
}
use mm.Subnet.{NetAddress, NetMask}
use mm.Pool.{Shared, Lease, zeros_of, new, trie_new, lease, drop_lease}
use mm.Pool.Trie.{leaf, absent, clear, release}
use mm.Pool.Trie.Shifts.{clear-lt, clear-clear}
use mm.Pool.Trie.Covers.{inside, covers}
use mm.Pool.Accounts.{IsPool, free, held, IsLease, same_answer, answered, drop_lease-frees}

pub record System : Type 0 where
  pub shared : Shared
  pub leases : List Lease

pub data Step : System → System → Type 0 where
  grant :
      (t : System) (m : NetMask) (s : Shared) (l : Lease)
      → lease t.shared m ≡ some (s, some l)
      → Step t (record { shared = s; leases = l ∷ t.leases })
  refuse :
      (t : System) (m : NetMask) (s : Shared)
      → lease t.shared m ≡ some (s, none)
      → Step t (record { shared = s; leases = t.leases })
  drop :
      (before after : List Lease) (l : Lease) (r s : Shared)
      → drop_lease r l ≡ some s
      → Step
          (record { shared = r; leases = before ++ l ∷ after })
          (record { shared = s; leases = before ++ after })

pub data Reach (t : System) : System → Type 0 where
  here : Reach t t
  next : {u w : System} → Reach t u → Step u w → Reach t w

-- How many of the leases hold an address.
abbrev pub holders : List Lease → ℕ → ℕ
holders [] x = 0
holders (l ∷ ls) x = held l x + holders ls x

abbrev IsOut : Lease → Type 0
IsOut l = IsLease l × (l.pooled ≡ true)

inside-le : (p k x : ℕ) → inside p k x ≤ 1
inside-le p k x = ground arith

-- The tries are well formed, and every address of the network is free in one trie or held by one lease.
pub record IsAccounted (n : NetAddress) (t : System) : Type 0 where
  pub pool : IsPool t.shared
  pub out : All IsOut t.leases
  pub once :
      (x : ℕ)
      → free t.shared x + holders t.leases x
        ≡ inside (clear (zeros_of n.mask) n.address) (zeros_of n.mask) x

holders-split :
    (before after : List Lease) (l : Lease) (x : ℕ)
    → holders (before ++ l ∷ after) x ≡ held l x + holders (before ++ after) x
holders-split [] after l x = refl
holders-split (b ∷ before) after l x = omega (arith, holders-split before after l x)

All-split :
    (before after : List Lease) (l : Lease)
    → All IsOut (before ++ l ∷ after)
    → IsOut l × All IsOut (before ++ after)
All-split [] after l h = h
All-split (b ∷ before) after l (p, h) = let (q, r) = All-split before after l h in (q, (p, r))

Step-IsAccounted : (n : NetAddress) {t u : System} → IsAccounted n t → Step t u → IsAccounted n u
Step-IsAccounted n v (grant t m s l e) =
    let (w, (b, _, p, y)) = answered t.shared m s (some l) v.pool e in
    record { pool = w; out = ((b, p), v.out); once = λ x. omega (arith, v.once x, y x) }
Step-IsAccounted n v (refuse t m s e) =
    let (w, (y, _)) = answered t.shared m s none v.pool e in
    record { pool = w; out = v.out; once = λ x. omega (arith, v.once x, y x) }
Step-IsAccounted n v (drop before after l r s e) =
    let ((b, p), rest) = All-split before after l v.out in
    let split = holders-split before after l in
    let (s', f, w, y) = drop_lease-frees r l v.pool b p (λ x. omega (
      arith,
      v.once x,
      split x,
      inside-le (clear (zeros_of n.mask) n.address) (zeros_of n.mask) x,
    )) in
    let same = same_answer (drop_lease r l) s' s f e in
    record {
      pool = subst IsPool same w;
      out = rest;
      once = λ x. omega (arith, v.once x, split x, y x, ap (λ q. free q x) same);
    }

abbrev pub start : Shared → System
start s = record { shared = s; leases = [] }

new-IsAccounted :
    (n : NetAddress) (s : Shared) → n.address < 2 ^ 64 → new n ≡ some s → IsAccounted n (start s)
unfolding new trie_new release covers
new-IsAccounted n s h e =
    let a = clear (zeros_of n.mask) n.address in
    let first : Shared = record { main = leaf a (zeros_of n.mask); used = absent } in
    subst (λ q. IsAccounted n (start q)) (same_answer (new n) first s refl e)
      (record {
        pool = record {
          main_trie = (
            omega arith,
            clear-lt (zeros_of n.mask) 64 n.address h,
            clear-clear (zeros_of n.mask) n.address,
          );
          used_trie = tt;
          apart = λ x. omega (arith, inside-le a (zeros_of n.mask) x);
          main_compact = tt;
          used_compact = tt;
        };
        out = tt;
        once = λ x. omega arith;
      })

-- Whatever is requested and dropped in whatever order, starting from a new pool for a network with an
-- address below 2^64, every address of the network is free in one of the tries or held by one lease
-- that is out, never both, and no other address is.
pub Reach-IsAccounted :
    (n : NetAddress) (s : Shared) {t : System}
    → n.address < 2 ^ 64
    → new n ≡ some s
    → Reach (start s) t
    → IsAccounted n t
Reach-IsAccounted n s h e here = new-IsAccounted n s h e
Reach-IsAccounted n s h e (next r st) = Step-IsAccounted n (Reach-IsAccounted n s h e r) st
