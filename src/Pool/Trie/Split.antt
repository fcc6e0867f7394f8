-- ===== src/Pool/Trie/Split.antt =====
-- What is left of a leaf, part of which is acquired.
use mm.Shared.{
  ℕ, zero, suc, ◌+◌, ◌-◌, ◌*◌, ◌/◌, ◌%◌, ◌^◌, ◌≤◌, ◌<◌, ◌≡◌, ◌⊎◌, refl, sym, ap, ◌∙◌, subst, arith,
  Option, none, some,
}
use mm.Subnet.{bit_or}
use mm.Subnet.Bits.{bit_or-0}
use mm.Pool.Trie.{Node, absent, leaf, fork, shr, clear, left_over_loop}
use mm.Pool.Trie.Shifts.{shr-half}
use mm.Pool.Trie.Covers.{inside, covers, IsBlock, IsWithin, IsTrie, IsFullLeaf, IsCompact}

-- Setting the bit `i` of a number whose bits up to it are zeros.
record SetsBit (w i p : ℕ) : Type 0 where
  pub sum : bit_or w p (2 ^ i) ≡ p + 2 ^ i
  pub lt : p + 2 ^ i < 2 ^ w
  pub cleared : clear i (p + 2 ^ i) ≡ p + 2 ^ i
  pub next : shr i (p + 2 ^ i) ≡ suc (shr i p)
  pub even : shr i p % 2 ≡ 0

bit_or-SetsBit : (i w p : ℕ) → i < w → p < 2 ^ w → clear (suc i) p ≡ p → SetsBit w i p
unfolding bit_or shr clear
bit_or-SetsBit i zero p l h e = absurd (omega arith)
bit_or-SetsBit zero (suc w) p l h e = record {
  sum = ground (arith, bit_or-0 w (p / 2));
  lt = omega arith;
  cleared = omega arith;
  next = omega arith;
  even = omega arith;
}
bit_or-SetsBit (suc i) (suc w) p l h e =
    let r = bit_or-SetsBit i w (p / 2) (omega arith) (omega arith) (omega arith) in
    let half : (p + 2 ^ suc i) / 2 ≡ p / 2 + 2 ^ i = omega arith in
    let half_bit : 2 ^ suc i / 2 ≡ 2 ^ i = omega arith in
    record {
      sum = ground (arith, ap (bit_or w (p / 2)) half_bit, r.sum);
      lt = omega (arith, r.lt);
      cleared = omega (arith, ap (clear i) half, r.cleared);
      next = omega (arith, shr-half i (p + 2 ^ suc i), ap (shr i) half, r.next, shr-half i p);
      even = omega (arith, r.even, shr-half i p);
    }

pub clear-less : (i k p : ℕ) → i ≤ k → clear k p ≡ p → clear i p ≡ p
unfolding clear
clear-less zero k p h e = refl
clear-less (suc i) zero p h e = absurd (omega arith)
clear-less (suc i) (suc k) p h e = omega (arith, clear-less i k (p / 2) (omega arith) (omega arith))

-- The other half of the block `p` of `i + 1` zeros.
abbrev other : ℕ → ℕ → ℕ
other p i = bit_or 64 p (2 ^ i)

halves_meet :
    (p i q x : ℕ)
    → shr i p ≡ 2 * shr (suc i) p
    → shr i q ≡ suc (2 * shr (suc i) p)
    → inside p (suc i) x ≡ inside p i x + inside q i x
unfolding shr
halves_meet p i q x e f = ground arith

record Halves (p i : ℕ) : Type 0 where
  pub block : IsBlock (other p i) i
  pub low : shr i p ≡ 2 * shr (suc i) p
  pub high : shr i (other p i) ≡ suc (2 * shr (suc i) p)
  pub joined : (x : ℕ) → inside p (suc i) x ≡ inside p i x + inside (other p i) i x

IsBlock-Halves : (p s i : ℕ) → IsBlock p s → i < s → Halves p i
unfolding shr
IsBlock-Halves p s i b l =
    let r = bit_or-SetsBit i 64 p (omega arith) b.1 (clear-less (suc i) s p l b.2) in
    let q = sym r.sum in
    let low : shr i p ≡ 2 * shr (suc i) p = omega (arith, r.even) in
    let high : shr i (other p i) ≡ suc (2 * shr (suc i) p) =
      ap (shr i) r.sum ∙ omega (arith, r.next, r.even) in
    record {
      block = (omega arith, omega (arith, r.sum, r.lt), ap (clear i) r.sum ∙ r.cleared ∙ q);
      low = low;
      high = high;
      joined = λ x. halves_meet p i (other p i) x low high;
    }

-- What a leaf comes to: a trie within the first `i` bits of the leaf's block that covers all but the
-- block that was taken.
pub record Leaves (p k i : ℕ) (l : Node) : Type 0 where
  pub trie : IsTrie l
  pub within : IsWithin (shr i p) i l
  pub rest : (x : ℕ) → inside p i x ≡ covers l x + inside p k x
  pub compact : IsCompact l
  pub partial : ¬ IsFullLeaf l i

left_over_loop-Leaves :
    (n i p k s : ℕ) (l : Node)
    → IsBlock p s
    → i + n ≡ s
    → Leaves p k i l
    → Leaves p k s (left_over_loop n i p l)
unfolding left_over_loop covers
left_over_loop-Leaves zero i p k s l b e r = subst (λ j. Leaves p k j l) (omega arith) r
left_over_loop-Leaves (suc n) i p k s l b e r =
    let h = IsBlock-Halves p s i b (omega arith) in
    let pred : i ≡ suc i - 1 = omega arith in
    let low = subst (λ v. IsWithin v i l) h.low r.within in
    let high : IsWithin (suc (2 * shr (suc i) p)) i (leaf (other p i) i) = (omega arith, h.high) in
    left_over_loop-Leaves n (suc i) p k s (fork p (suc i) l (leaf (other p i) i)) b (omega arith)
      (record {
        trie = (
          (omega arith, b.1, clear-less (suc i) s p (omega arith) b.2),
          omega arith,
          subst (λ j. IsWithin (2 * shr (suc i) p) j l) pred low,
          subst (λ j. IsWithin (suc (2 * shr (suc i) p)) j (leaf (other p i) i)) pred high,
          r.trie,
          h.block,
        );
        within = (omega arith, refl);
        rest = λ x. omega (arith, h.joined x, r.rest x);
        compact = ((λ f. r.partial (subst (IsFullLeaf l) (omega arith) f.0)), r.compact, tt);
        partial = λ f. f;
      })

halved : (p k : ℕ) → shr (suc k) p ≡ shr k p / 2
unfolding shr
halved p k = refl

single : (p k x : ℕ) → covers (leaf p k) x ≡ inside p k x
unfolding covers
single p k x = refl

-- A leaf has at least `k` zeros.
abbrev pub HasRoom : Node → ℕ → Type 0
HasRoom absent k = ⊥
HasRoom (leaf p s) k = k ≤ s
HasRoom (fork p s z o) k = HasRoom z k ⊎ HasRoom o k

-- A node is gone, or lies where the one before it did.
abbrev pub Stays : Node → Node → Type 0
Stays t t' = (t' ≡ absent) ⊎ ((v j : ℕ) → IsWithin v j t → IsWithin v j t')

-- What `acquire` comes to: without an answer the trie is the same and no leaf has room; with one, the
-- trie covers all but the block that was taken, which it covered.
abbrev pub Yields : Node → ℕ → Node → Option ℕ → Type 0
Yields t k t' none = (t' ≡ t) × ¬ HasRoom t k
Yields t k t' (some a) =
    IsBlock a k
    × IsTrie t'
    × ((x : ℕ) → covers t x ≡ covers t' x + inside a k x)
    × (IsCompact t → IsCompact t')

pub split_leaf :
    (p s k : ℕ)
    → IsBlock p s
    → k < s
    → Leaves p k s (left_over_loop (s - suc k) (suc k) p (leaf (other p k) k))
split_leaf p s k b l =
    let h = IsBlock-Halves p s k b l in
    left_over_loop-Leaves (s - suc k) (suc k) p k s (leaf (other p k) k) b (omega arith) (record {
      trie = h.block;
      within = (omega arith, omega (arith, h.high, halved (other p k) k));
      rest = λ x. omega (arith, h.joined x, single (other p k) k x);
      compact = tt;
      partial = λ f. omega (arith, f);
    })
