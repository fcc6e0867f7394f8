-- ===== src/Config/Overlaps.antt =====
-- Disjoint networks, and what the test makes of them.
use mm.Shared.{
  ℕ, zero, suc, ◌-◌, ◌≤◌, leb, true, ◌<◌, ◌^◌, ◌≡◌, ◌≢◌, ◌↔◌, refl, sym, ◌∙◌, List, [], ◌∷◌, Option,
  none, some, All, arith, Option-cases, inl, inr,
}
use Prim.Native.Nat.{Ordering}
use mm.Shared.Ordered.{find, put}
use mm.Subnet.{
  NetAddress, AddressRange, from_net, to_net, cmp, leading_ones, try_from, bit_not, bit_xor,
}
use mm.Subnet.Bits.{from_net-le}
use mm.Subnet.Ranges.{IsRange}
use mm.Subnet.Sorted.{Disjoint, IsSorted, Apart, find-Apart, Apart-find, All-put, put-IsSorted}
use mm.Config.{Nets, report, overlapping_nets, overlapping_local_nets}

-- The network's range is disjoint from those of a list.
abbrev pub IsFree : NetAddress → List NetAddress → Type 0
IsFree n = All (λ o. Disjoint (from_net n) (from_net o))

-- No two networks of the list, by their places, overlap.
abbrev pub AreDisjoint : List NetAddress → Type 0
AreDisjoint [] = Unit {0}
AreDisjoint (n ∷ l) = IsFree n l × AreDisjoint l

-- Every network of a list is apart from the set.
abbrev AllApart : Nets → List NetAddress → Type 0
AllApart m = All (λ n. Apart (from_net n) m)

put-All :
    (P : AddressRange × Unit {0} → Type 0) (r : AddressRange) (m : Nets)
    → Apart r m
    → All P (put cmp r tt m)
    → P (r, tt) × All P m
unfolding put
put-All P r [] a (p, t) = (p, tt)
put-All P r (x ∷ m) (n, a) h = placed (put-All P r m a) (cmp x.0 r) refl h
  where
    placed :
        (All P (put cmp r tt m) → P (r, tt) × All P m)
        → (o : Ordering) → cmp x.0 r ≡ o
        → All P (elim o [
          | Ordering.lt ↦ x ∷ put cmp r tt m
          | Ordering.eq ↦ (x.0, tt) ∷ m
          | Ordering.gt ↦ (r, tt) ∷ x ∷ m
        ])
        → P (r, tt) × All P (x ∷ m)
    placed t Ordering.lt e (q, h) = ((t h).0, (q, (t h).1))
    placed t Ordering.eq e h = absurd (n e)
    placed t Ordering.gt e (p, (q, h)) = (p, (q, h))

AllApart-put :
    (n : NetAddress) (m : Nets) (l : List NetAddress)
    → AllApart m l
    → IsFree n l
    → AllApart (put cmp (from_net n) tt m) l
AllApart-put n m [] a f = tt
AllApart-put n m (o ∷ l) (b, a) (g, f) =
    (All-put (λ e. Disjoint e (from_net o)) (from_net n) tt m g b, AllApart-put n m l a f)

put-AllApart :
    (n : NetAddress) (m : Nets) (l : List NetAddress)
    → Apart (from_net n) m
    → AllApart (put cmp (from_net n) tt m) l
    → AllApart m l × IsFree n l
put-AllApart n m [] b a = (tt, tt)
put-AllApart n m (o ∷ l) b (c, a) =
    let (g, d) = put-All (λ e. Disjoint e.0 (from_net o)) (from_net n) m b c in
    let (a', f) = put-AllApart n m l b a in ((d, a'), (g, f))

overlapping_nets-free :
    (m : Nets) (n : NetAddress) (l : List NetAddress)
    → find cmp (from_net n) m ≡ none
    → overlapping_nets m (n ∷ l) ≡ overlapping_nets (put cmp (from_net n) tt m) l
unfolding overlapping_nets
overlapping_nets-free m n l f = rw (overlapping_nets, f) refl

overlapping_nets-found :
    (m : Nets) (n : NetAddress) (l : List NetAddress) (range : AddressRange)
    → find cmp (from_net n) m ≡ some (range, tt)
    → overlapping_nets m (n ∷ l) ≡ report n (to_net range) (overlapping_nets m l)
unfolding overlapping_nets
overlapping_nets-found m n l range f = rw (overlapping_nets, f) refl

report-ne-nil :
    (n : NetAddress) (that : Option NetAddress) (rest : Option (List (NetAddress × NetAddress)))
    → report n that rest ≢ some []
unfolding report
report-ne-nil n none rest = λ e. cc
report-ne-nil n (some that) none = λ e. cc
report-ne-nil n (some that) (some c) = λ e. ground arith

overlapping_nets-none :
    (m : Nets) (n : NetAddress) (l : List NetAddress)
    → overlapping_nets m (n ∷ l) ≡ some []
    → (find cmp (from_net n) m ≡ none) × (overlapping_nets (put cmp (from_net n) tt m) l ≡ some [])
overlapping_nets-none m n l e = elim (Option-cases (find cmp (from_net n) m)) [
  | inl f ↦ (f, sym (overlapping_nets-free m n l f) ∙ e)
  | inr ((range, u), f) ↦ absurd (
      report-ne-nil n (to_net range) (overlapping_nets m l)
        (sym (overlapping_nets-found m n l range f) ∙ e))
]

sound :
    (m : Nets) (l : List NetAddress)
    → All (λ n. IsRange (from_net n)) l
    → IsSorted m
    → overlapping_nets m l ≡ some []
    → AllApart m l × AreDisjoint l
sound m [] h s e = (tt, tt)
sound m (n ∷ l) (k, h) s e =
    let (f, e') = overlapping_nets-none m n l e in
    let b = find-Apart (from_net n) m k s f in
    let (a, d) = sound (put cmp (from_net n) tt m) l h (put-IsSorted (from_net n) tt m k s b) e' in
    let (a', g) = put-AllApart n m l b a in ((b, a'), (g, d))

complete :
    (m : Nets) (l : List NetAddress) → AllApart m l → AreDisjoint l → overlapping_nets m l ≡ some []
unfolding overlapping_nets
complete m [] a d = refl
complete m (n ∷ l) (b, a) (f, d) =
    rw (overlapping_nets, Apart-find (from_net n) m b)
      (complete (put cmp (from_net n) tt m) l (AllApart-put n m l a f) d)

AllApart-nil : (l : List NetAddress) → AllApart [] l
AllApart-nil [] = tt
AllApart-nil (n ∷ l) = (tt, AllApart-nil l)

All-IsRange :
    (l : List NetAddress) → All (λ n. n.address < 2 ^ 64) l → All (λ n. IsRange (from_net n)) l
All-IsRange [] h = tt
All-IsRange (n ∷ l) (b, h) = (from_net-le n b, All-IsRange l h)

leading_ones-le : (w a : ℕ) → leading_ones w a ≤ w
unfolding leading_ones
leading_ones-le zero a = omega arith
leading_ones-le (suc w) a = ground (arith, leading_ones-le w (a - 2 ^ w))

le-leb : (a b : ℕ) → a ≤ b → leb a b ≡ true
le-leb a b h = ground arith

to_net-some : (r : AddressRange) → (n : NetAddress) × (to_net r ≡ some n)
unfolding to_net try_from
to_net-some r =
    let m = leading_ones 64 (bit_not (bit_xor 64 r.lo r.hi)) in
    let le : leb m 64 ≡ true = le-leb m 64 (leading_ones-le 64 (bit_not (bit_xor 64 r.lo r.hi))) in
    (record { address = r.lo; mask = m }, rw (to_net, try_from, le) refl)

overlapping_nets-some :
    (m : Nets) (l : List NetAddress)
    → (c : List (NetAddress × NetAddress)) × (overlapping_nets m l ≡ some c)
unfolding overlapping_nets report
overlapping_nets-some m [] = ([], refl)
overlapping_nets-some m (n ∷ l) = elim (Option-cases (find cmp (from_net n) m)) [
  | inl f ↦
      let (c, e) = overlapping_nets-some (put cmp (from_net n) tt m) l in
      (c, overlapping_nets-free m n l f ∙ e)
  | inr ((range, u), f) ↦
      let (c, e) = overlapping_nets-some m l in
      let (that, g) = to_net-some range in
      ((n, that) ∷ c, overlapping_nets-found m n l range f ∙ rw (g, e) refl)
]

-- The test does not panic.
pub overlapping_local_nets-some :
    (l : List NetAddress)
    → (c : List (NetAddress × NetAddress)) × (overlapping_local_nets l ≡ some c)
unfolding overlapping_local_nets
overlapping_local_nets-some l = overlapping_nets-some [] l

-- For networks with addresses below 2^64, the test reports no conflict, and does not panic, exactly when
-- no two of the networks have ranges that `cmp` finds equal.
pub overlapping_local_nets-AreDisjoint :
    (l : List NetAddress)
    → All (λ n. n.address < 2 ^ 64) l
    → (overlapping_local_nets l ≡ some []) ↔ AreDisjoint l
unfolding overlapping_local_nets
overlapping_local_nets-AreDisjoint l h =
    ((λ e. (sound [] l (All-IsRange l h) tt e).1), λ d. complete [] l (AllApart-nil l) d)
