-- ===== src/Subnet/Sorted.antt =====
-- Ranges that lie apart, as the keys of an ordered map.
use mm.Shared.{◌<◌, ◌≡◌, ◌≢◌, refl, List, [], ◌∷◌, none, All, arith}
use Prim.Native.Nat.{Ordering}
use mm.Shared.Ordered.{find, put}
use mm.Subnet.{AddressRange, cmp}
use mm.Subnet.Ranges.{IsRange, cmp_iff}

abbrev pub Disjoint : AddressRange → AddressRange → Type 0
Disjoint a b = cmp a b ≢ Ordering.eq

module _ {V : Type 0} where
  -- The ranges of the set lie one before the other.
  abbrev pub IsSorted : List (AddressRange × V) → Type 0
  IsSorted [] = Unit {0}
  IsSorted (e ∷ m) = IsRange e.0 × All (λ f. e.0.hi < f.0.lo) m × IsSorted m

  abbrev pub Apart : AddressRange → List (AddressRange × V) → Type 0
  Apart r = All (λ e. Disjoint e.0 r)

  above-Apart :
      (r : AddressRange) (m : List (AddressRange × V)) (x : AddressRange)
      → IsRange x
      → r.hi < x.lo
      → All (λ f. x.hi < f.0.lo) m
      → IsSorted m
      → IsRange r
      → Apart r m
  unfolding cmp
  above-Apart r [] x h k a s l = tt
  above-Apart r (e ∷ m) x h k (b, a) (c, d, s) l = (ground arith, above-Apart r m x h k a s l)

  pub find-Apart :
      (r : AddressRange) (m : List (AddressRange × V))
      → IsRange r
      → IsSorted m
      → find cmp r m ≡ none
      → Apart r m
  unfolding find cmp
  find-Apart r [] h s e = tt
  find-Apart r (x ∷ m) h (a, b, s) e = ground (arith, above-Apart r m x.0 a, find-Apart r m h s)

  pub Apart-find :
      (r : AddressRange) (m : List (AddressRange × V)) → Apart r m → find cmp r m ≡ none
  unfolding find
  Apart-find r [] a = refl
  Apart-find r (x ∷ m) (n, a) = ground (arith, Apart-find r m a)

  -- What holds of a new range and of the set holds of the set with it.
  pub All-put :
      (P : AddressRange → Type 0) (r : AddressRange) (v : V) (m : List (AddressRange × V))
      → P r
      → All (λ e. P e.0) m
      → All (λ e. P e.0) (put cmp r v m)
  unfolding put
  All-put P r v [] p a = (p, tt)
  All-put P r v (x ∷ m) p (q, a) = placed (All-put P r v m p a) (cmp x.0 r)
    where
      placed :
          All (λ e. P e.0) (put cmp r v m)
          → (o : Ordering)
          → All
              (λ e. P e.0)
              (elim o [
                | Ordering.lt ↦ x ∷ put cmp r v m
                | Ordering.eq ↦ (x.0, v) ∷ m
                | Ordering.gt ↦ (r, v) ∷ x ∷ m
              ])
      placed t Ordering.lt = (q, t)
      placed t Ordering.eq = (q, a)
      placed t Ordering.gt = (p, (q, a))

  pub All-above :
      (r x : AddressRange) (m : List (AddressRange × V))
      → r.hi < x.lo
      → IsRange x
      → All (λ f. x.hi < f.0.lo) m
      → All (λ f. r.hi < f.0.lo) m
  All-above r x [] h k a = tt
  All-above r x (e ∷ m) h k (b, a) = (omega arith, All-above r x m h k a)

  pub put-IsSorted :
      (r : AddressRange) (v : V) (m : List (AddressRange × V))
      → IsRange r
      → IsSorted m
      → Apart r m
      → IsSorted (put cmp r v m)
  unfolding put
  put-IsSorted r v [] h s a = (h, tt, tt)
  put-IsSorted r v (x ∷ m) h (k, b, s) (n, a) = placed (put-IsSorted r v m h s a) (cmp x.0 r) refl
    where
      placed :
          IsSorted (put cmp r v m)
          → (o : Ordering) → cmp x.0 r ≡ o
          → IsSorted (elim o [
            | Ordering.lt ↦ x ∷ put cmp r v m
            | Ordering.eq ↦ (x.0, v) ∷ m
            | Ordering.gt ↦ (r, v) ∷ x ∷ m
          ])
      placed t Ordering.lt e =
          (k, All-put (λ f. x.0.hi < f.lo) r v m ((cmp_iff x.0 r k h).0.0 e) b, t)
      placed t Ordering.eq e = absurd (n e)
      placed t Ordering.gt e =
          let below = (cmp_iff x.0 r k h).1.0 e in
          (h, (below, All-above r x.0 m below k b), (k, b, s))
