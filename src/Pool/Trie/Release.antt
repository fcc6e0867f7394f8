-- ===== src/Pool/Trie/Release.antt =====
-- Releasing a block into a trie that does not cover any of it.
use mm.Shared.{
  ℕ, ◌-◌, ◌%◌, ◌≤◌, ◌<◌, ◌≡◌, ◌≢◌, refl, sym, ◌∙◌, subst, ℕ_discrete, arith, ◌==◌, Option, some,
  Bool, true, false, Bool-cases, ==-ne, ==-eq, inl, inr,
}
use mm.Pool.Trie.{
  Node, absent, leaf, fork, shr, clear, ancestor_zeros, common_ancestor, splits_low, released,
  split_node, descend, release,
}
use mm.Pool.Trie.Shifts.{
  shr_mono, shr-pred, ancestor_zeros-le, ancestor_zeros-agree, ancestor_zeros-differ,
}
use mm.Pool.Trie.Covers.{covers, IsBlock, IsTrie, covers-some, covers-within}
use mm.Pool.Trie.Halves.{Gains, maybe_compact_lem}
use mm.Pool.Trie.Segments.{IsSegment, leaf-IsSegment, fork-IsSegment, split_node-Gains}

-- The branch that goes down.
descend-Gains :
    (p s : ℕ) (z o z' o' : Node) (a k : ℕ) (rz ro : Option (Node × Bool))
    → IsTrie (fork p s z o)
    → k < s
    → shr s a ≡ shr s p
    → rz ≡ some (z', true)
    → Gains z z' a k
    → ro ≡ some (o', true)
    → Gains o o' a k
    → (t' : Node) × (descend p s z o a rz ro ≡ some (t', true)) × Gains (fork p s z o) t' a k
unfolding descend splits_low released covers
descend-Gains p s z o z' o' a k rz ro g l e ez gz eo go =
    let half = shr-pred s a (omega arith) in
    elim (Bool-cases (shr (s - 1) a % 2 == 0)) [
      | inl low ↦
          let w = gz.within _ (s - 1) g.2 (omega arith) (ground (arith, half)) in
          let (t', et, gt, cov, w', comp) =
            maybe_compact_lem p s z' o (g.0, g.1, w, g.3, gz.trie, g.5) in
          (
            t',
            rw (low, ez, et) refl,
            record {
              trie = gt;
              within = λ v j w h i. w' v j w.0 w.1;
              gained = λ x. omega (arith, cov x, gz.gained x);
              compact = λ h. comp (gz.compact h.1) h.2;
            },
          )
      | inr high ↦
          let w = go.within _ (s - 1) g.3 (omega arith) (ground (arith, half)) in
          let (t', et, gt, cov, w', comp) =
            maybe_compact_lem p s z o' (g.0, g.1, g.2, w, g.4, go.trie) in
          (
            t',
            rw (high, eo, et) refl,
            record {
              trie = gt;
              within = λ v j w h i. w' v j w.0 w.1;
              gained = λ x. omega (arith, cov x, go.gained x);
              compact = λ h. comp h.1 (go.compact h.2);
            },
          )
    ]

-- No address of the block is covered.
abbrev pub IsFreeOf : Node → ℕ → ℕ → Type 0
IsFreeOf t a k = (x : ℕ) → shr k x ≡ shr k a → covers t x ≡ 0

-- The segment of a node that covers none of the block is not within it.
segment_beyond :
    (t : Node) (p s a k : ℕ)
    → IsSegment t p s
    → IsTrie t
    → IsBlock p s
    → IsBlock a k
    → IsFreeOf t a k
    → ancestor_zeros p s a k ≢ k
segment_beyond t p s a k seg g bp ba f e =
    let w = seg.up (shr s p) s (omega arith) refl in
    let (x, c) = covers-some t (shr s p) s g w in
    let low : s ≤ k = omega (arith, ancestor_zeros-le p s a k bp.0 ba.0) in
    let same : shr k x ≡ shr k p = shr_mono s k x p low (covers-within t (shr s p) s x g w c) in
    let agree : shr k p ≡ shr k a =
      subst (λ i. shr i p ≡ shr i a) e (ancestor_zeros-agree p s a k bp.1 ba.1) in
    omega (arith, f x (same ∙ agree), c)

split_off :
    (t : Node) (p s a k : ℕ)
    → IsSegment t p s
    → IsTrie t
    → IsBlock p s
    → IsBlock a k
    → ancestor_zeros p s a k ≢ k
    → ancestor_zeros p s a k ≢ s
    → (t' : Node) × (split_node t a k (clear (ancestor_zeros p s a k) p, ancestor_zeros p s a k)
        ≡ some (t', true))
      × Gains t t' a k
split_off t p s a k seg g bp ba nk ns =
    let le = ancestor_zeros-le p s a k bp.0 ba.0 in
    split_node-Gains t p s a k (ancestor_zeros p s a k) seg g bp ba le.2 (omega arith) (omega arith)
      (ancestor_zeros-agree p s a k bp.1 ba.1)
      (ancestor_zeros-differ p s a k bp.1 ba.1 (omega arith) (omega arith))

-- Releasing a block, none of which the trie covers, does not panic and answers true: the trie that
-- comes of it is well formed and covers what it covered before and the block.
pub release-Gains :
    (t : Node) (a k : ℕ)
    → IsTrie t
    → IsBlock a k
    → IsFreeOf t a k
    → (t' : Node) × (release t a k ≡ some (t', true)) × Gains t t' a k
unfolding release common_ancestor covers
release-Gains absent a k g b f = (
  leaf a k,
  refl,
  record { trie = b; within = λ v j w. absurd w; gained = λ x. omega arith; compact = λ h. tt },
)
release-Gains (leaf p s) a k g b f =
    let seg = leaf-IsSegment p s in
    let nk = segment_beyond (leaf p s) p s a k seg g g b f in
    let le = ancestor_zeros-le p s a k g.0 b.0 in
    let agree = ancestor_zeros-agree p s a k g.1 b.1 in
    let ns : ancestor_zeros p s a k ≢ s = λ e.
      (let same : shr s p ≡ shr s a = subst (λ i. shr i p ≡ shr i a) e agree in
        ground (arith, f a refl)) in
    let tk : (ancestor_zeros p s a k == k) ≡ false = ==-ne _ _ nk in
    let t0 : (ancestor_zeros p s a k == 0) ≡ false = ==-ne _ _ (λ e. nk (omega arith)) in
    let ts : (ancestor_zeros p s a k == s) ≡ false = ==-ne _ _ ns in
    rw (release, t0, tk, ts) (split_off (leaf p s) p s a k seg g g b nk ns)
release-Gains (fork p s z o) a k g b f =
    let seg = fork-IsSegment p s z o in
    let nk = segment_beyond (fork p s z o) p s a k seg g g.0 b f in
    let le = ancestor_zeros-le p s a k g.0.0 b.0 in
    let agree = ancestor_zeros-agree p s a k g.0.1 b.1 in
    let tk : (ancestor_zeros p s a k == k) ≡ false = ==-ne _ _ nk in
    let t0 : (ancestor_zeros p s a k == 0) ≡ false = ==-ne _ _ (λ e. nk (omega arith)) in
    elim (ℕ_discrete (ancestor_zeros p s a k) s) [
      | yes e ↦
          let same : shr s p ≡ shr s a = subst (λ i. shr i p ≡ shr i a) e agree in
          let ts : (ancestor_zeros p s a k == s) ≡ true = ==-eq _ _ e in
          let (z', ez, gz) = release-Gains z a k g.4 b (λ x e. omega (arith, f x e)) in
          let (o', eo, go) = release-Gains o a k g.5 b (λ x e. omega (arith, f x e)) in
          rw (release, t0, tk, ts)
            (descend-Gains p s z o z' o' a k (release z a k) (release o a k) g (omega arith)
              (sym same) ez gz eo go)
      | no ns ↦
          let ts : (ancestor_zeros p s a k == s) ≡ false = ==-ne _ _ ns in
          rw (release, t0, tk, ts) (split_off (fork p s z o) p s a k seg g g.0 b nk ns)
    ]
