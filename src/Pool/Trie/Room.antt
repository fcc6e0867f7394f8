-- ===== src/Pool/Trie/Room.antt =====
-- A compact trie that covers a whole block has a leaf that is as large as the block.
use mm.Shared.{
  ℕ, zero, suc, ◌+◌, ◌-◌, ◌*◌, ◌/◌, ◌≤◌, ◌<◌, ◌≡◌, ◌≢◌, ◌⊎◌, inl, inr, refl, sym, ◌∙◌, dec_lt,
  arith, ℕ_discrete,
}
use mm.Pool.Trie.{Node, absent, leaf, fork, shr}
use mm.Pool.Trie.Shifts.{shr_mono, shr-pred}
use mm.Pool.Trie.Covers.{
  inside, covers, IsWithin, IsTrie, IsFullLeaf, IsCompact, covers-outside, covers-within,
}
use mm.Pool.Trie.Split.{HasRoom}
use mm.Pool.Trie.Acquire.{HasRoom-le}

-- Every address of the block of `a` with `k` zeros is free.
abbrev pub IsCovered : (ℕ → ℕ) → ℕ → ℕ → Type 0
IsCovered f k a = (x : ℕ) → shr k x ≡ shr k a → 1 ≤ f x

shr-surjective : (k y : ℕ) → (x : ℕ) × (shr k x ≡ y)
unfolding shr
shr-surjective zero y = (y, refl)
shr-surjective (suc k) y = let (x, e) = shr-surjective k (2 * y) in (x, omega (arith, e))

-- A block has addresses outside of any smaller one.
address_besides : (s k a q : ℕ) → s < k → (x : ℕ) × (shr k x ≡ shr k a) × (shr s x ≢ q)
unfolding shr
address_besides s k a q l = elim (ℕ_discrete (shr s a) q) [
  | no n ↦ (a, refl, n)
  | yes e ↦
      let (x, f) = shr-surjective s (4 * (shr s a / 2) + 1 - shr s a) in
      (x, shr_mono (suc s) k x a (omega arith) (omega (arith, f)), λ g. omega (arith, f))
]

inside-same : (p s x : ℕ) → 1 ≤ inside p s x → shr s x ≡ shr s p
inside-same p s x h = ground arith

leaf-room : (p s k a : ℕ) → IsCovered (covers (leaf p s)) k a → s < k → ⊥
unfolding covers
leaf-room p s k a f l =
    let (x, e, n) = address_besides s k a (shr s p) l in n (inside-same p s x (f x e))

HasRoom-IsFullLeaf : (t : Node) (v j : ℕ) → IsTrie t → IsWithin v j t → HasRoom t j → IsFullLeaf t j
HasRoom-IsFullLeaf absent v j g w h = h
HasRoom-IsFullLeaf (leaf p s) v j g w h = omega (arith, h, w.0)
HasRoom-IsFullLeaf (fork p s z o) v j g w (inl h) =
    omega (arith, HasRoom-le z _ (s - 1) j g.4 g.2 h, g.1, w.0)
HasRoom-IsFullLeaf (fork p s z o) v j g w (inr h) =
    omega (arith, HasRoom-le o _ (s - 1) j g.5 g.3 h, g.1, w.0)

-- An address that one half covers is not in the other.
zero_only :
    (p s x : ℕ) (z o : Node)
    → IsTrie (fork p s z o)
    → shr (s - 1) x ≡ 2 * shr s p
    → covers (fork p s z o) x ≡ covers z x
unfolding covers
zero_only p s x z o g e =
    omega (arith, covers-outside o (suc (2 * shr s p)) (s - 1) x g.5 g.3 (λ f. omega arith))

one_only :
    (p s x : ℕ) (z o : Node)
    → IsTrie (fork p s z o)
    → shr (s - 1) x ≡ suc (2 * shr s p)
    → covers (fork p s z o) x ≡ covers o x
unfolding covers
one_only p s x z o g e =
    omega (arith, covers-outside z (2 * shr s p) (s - 1) x g.4 g.2 (λ f. omega arith))

which_half :
    (p s x : ℕ) (z o : Node)
    → IsTrie (fork p s z o)
    → 1 ≤ covers (fork p s z o) x
    → (shr (s - 1) x ≡ 2 * shr s p) ⊎ (shr (s - 1) x ≡ suc (2 * shr s p))
unfolding covers
which_half p s x z o g h = elim (dec_lt 0 (covers z x)) [
  | yes l ↦ inl (covers-within z (2 * shr s p) (s - 1) x g.4 g.2 (omega arith))
  | no n ↦ inr (covers-within o (suc (2 * shr s p)) (s - 1) x g.5 g.3 (omega arith))
]

-- A fork in a covered block covers each of its halves.
half-IsCovered :
    (p s k a v : ℕ) (z o t : Node)
    → IsTrie (fork p s z o)
    → IsCovered (covers (fork p s z o)) k a
    → s ≤ k
    → v / 2 ≡ shr s p
    → ((x : ℕ) → shr (s - 1) x ≡ v → covers (fork p s z o) x ≡ covers t x)
    → (b : ℕ) × IsCovered (covers t) (s - 1) b
half-IsCovered p s k a v z o t g f l e c =
    let (b, i) = shr-surjective (s - 1) v in
    let below : shr s a ≡ shr s p = elim (which_half p s a z o g (f a refl)) [
      | inl h ↦ omega (arith, shr-pred s a g.1)
      | inr h ↦ omega (arith, shr-pred s a g.1)
    ] in
    (
      b,
      λ x h.
          let at : shr s x ≡ shr s p = omega (arith, shr-pred s x g.1) in
          omega (arith, c x (h ∙ i), f x (shr_mono s k x a l (at ∙ sym below))),
    )

-- The trie is the one place that a block can come from: if every address of the block of `a` is covered
-- by a compact trie, one leaf of the trie holds as many addresses as the block or more.
pub IsCovered-HasRoom :
    (t : Node) (k a : ℕ) → IsTrie t → IsCompact t → IsCovered (covers t) k a → HasRoom t k
unfolding covers
IsCovered-HasRoom absent k a g c f = absurd (omega (arith, f a refl))
IsCovered-HasRoom (leaf p s) k a g c f = elim (dec_lt s k) [
  | yes l ↦ absurd (leaf-room p s k a f l)
  | no n ↦ omega arith
]
IsCovered-HasRoom (fork p s z o) k a g c f = elim (dec_lt k s) [
  | yes l ↦ elim (which_half p s a z o g (f a refl)) [
    | inl e ↦ inl (
        IsCovered-HasRoom z k a g.4 c.1 (λ x h.
          omega (arith, f x h, zero_only p s x z o g (shr_mono k (s - 1) x a (omega arith) h ∙ e))))
    | inr e ↦ inr (
        IsCovered-HasRoom o k a g.5 c.2 (λ x h.
          omega (arith, f x h, one_only p s x z o g (shr_mono k (s - 1) x a (omega arith) h ∙ e))))
  ]
  | no n ↦
      let (b, fz) =
        half-IsCovered p s k a (2 * shr s p) z o z g f (omega arith) (omega arith)
          (λ x e. zero_only p s x z o g e) in
      let (d, fo) =
        half-IsCovered p s k a (suc (2 * shr s p)) z o o g f (omega arith) (omega arith)
          (λ x e. one_only p s x z o g e) in
      absurd (
        c.0 (
          HasRoom-IsFullLeaf z _ (s - 1) g.4 g.2 (IsCovered-HasRoom z (s - 1) b g.4 c.1 fz),
          HasRoom-IsFullLeaf o _ (s - 1) g.5 g.3 (IsCovered-HasRoom o (s - 1) d g.5 c.2 fo),
        ))
]
