-- ===== src/Pool/Trie/Segments.antt =====
-- libs/mm1-address/src/pool/trie.rs: the node that `release` puts in the place of one outside of the block.
use mm.Shared.{
  ℕ, suc, ◌+◌, ◌-◌, ◌*◌, ◌%◌, ◌≤◌, ◌<◌, ◌≡◌, ◌≢◌, refl, sym, ◌∙◌, subst, dec_lt, arith, ◌==◌, some,
  true, Bool-cases, inl, inr,
}
use mm.Pool.Trie.{Node, leaf, fork, shr, clear, splits_low, maybe_compact, released, split_node}
use mm.Pool.Trie.Shifts.{shr_mono, shr-pred, shr-clear, clear-lt, clear-clear}
use mm.Pool.Trie.Covers.{inside, covers, IsBlock, IsWithin, IsTrie, IsCompact}
use mm.Pool.Trie.Halves.{Gains, maybe_compact_lem}

-- The node with the segment `p`, `s`.
pub record IsSegment (t : Node) (p s : ℕ) : Type 0 where
  pub up : (v j : ℕ) → s ≤ j → shr j p ≡ v → IsWithin v j t
  pub down : (v j : ℕ) → IsWithin v j t → (s ≤ j) × (shr j p ≡ v)

pub leaf-IsSegment : (p s : ℕ) → IsSegment (leaf p s) p s
leaf-IsSegment p s = record { up = λ v j h e. (h, e); down = λ v j w. w }

pub fork-IsSegment : (p s : ℕ) (z o : Node) → IsSegment (fork p s z o) p s
fork-IsSegment p s z o = record { up = λ v j h e. (h, e); down = λ v j w. w }

-- The segment of the common ancestor holds all the larger blocks that hold both.
ancestor_below :
    (t : Node) (p s a k c v j : ℕ)
    → IsSegment t p s
    → shr (c - 1) p ≢ shr (c - 1) a
    → IsWithin v j t
    → k ≤ j
    → shr j a ≡ v
    → (c ≤ j) × (shr j (clear c p) ≡ v)
ancestor_below t p s a k c v j seg n w h e =
    let (l, f) = seg.down v j w in
    let above : c ≤ j = elim (dec_lt j c) [
      | yes b ↦ absurd (n (shr_mono j (c - 1) p a (omega arith) (f ∙ sym e)))
      | no b ↦ omega arith
    ] in
    (above, shr_mono c j (clear c p) p above (shr-clear c p) ∙ f)

-- Two tries below their common ancestor.
joined-Gains :
    (t : Node) (p s a k c : ℕ) (z o : Node)
    → IsSegment t p s
    → IsBlock p s
    → c ≤ 64
    → 1 ≤ c
    → shr (c - 1) p ≢ shr (c - 1) a
    → IsWithin (2 * shr c p) (c - 1) z
    → IsWithin (suc (2 * shr c p)) (c - 1) o
    → IsTrie z
    → IsTrie o
    → ((x : ℕ) → covers z x + covers o x ≡ covers t x + inside a k x)
    → (IsCompact t → IsCompact z × IsCompact o)
    → (t' : Node) × (released (maybe_compact (fork (clear c p) c z o)) true ≡ some (t', true))
      × Gains t t' a k
unfolding released
joined-Gains t p s a k c z o seg b m l n wz wo gz go sum halves =
    let g : IsTrie (fork (clear c p) c z o) = (
      (m, clear-lt c 64 p b.1, clear-clear c p),
      l,
      subst (λ v. IsWithin (2 * v) (c - 1) z) (sym (shr-clear c p)) wz,
      subst (λ v. IsWithin (suc (2 * v)) (c - 1) o) (sym (shr-clear c p)) wo,
      gz,
      go,
    ) in
    let (t', e, g', cov, w', comp) = maybe_compact_lem (clear c p) c z o g in
    (
      t',
      rw e refl,
      record {
        trie = g';
        within = λ v j w h e.
            let (above, f) = ancestor_below t p s a k c v j seg n w h e in w' v j above f;
        gained = λ x. cov x ∙ sum x;
        compact = λ h. let (cz, co) = halves h in comp cz co;
      },
    )

-- The node that takes the place of one that shares no more than an ancestor with the block.
pub split_node-Gains :
    (t : Node) (p s a k c : ℕ)
    → IsSegment t p s
    → IsTrie t
    → IsBlock p s
    → IsBlock a k
    → c ≤ 64
    → s < c
    → k < c
    → shr c p ≡ shr c a
    → shr (c - 1) p ≢ shr (c - 1) a
    → (t' : Node) × (split_node t a k (clear c p, c) ≡ some (t', true)) × Gains t t' a k
unfolding split_node splits_low covers
split_node-Gains t p s a k c seg g bp ba m ls lk e n =
    let half_p = shr-pred c p (omega arith) in
    let half_a = shr-pred c a (omega arith) in
    elim (Bool-cases (shr (c - 1) a % 2 == 0)) [
      | inl low ↦ rw low (
          joined-Gains t p s a k c (leaf a k) t seg bp m (omega arith) n
            (omega arith, ground (arith, half_p, half_a))
            (seg.up _ (c - 1) (omega arith) (ground (arith, half_p, half_a))) ba g
            (λ x. omega arith) (λ h. (tt, h)))
      | inr high ↦ rw high (
          joined-Gains t p s a k c t (leaf a k) seg bp m (omega arith) n
            (seg.up _ (c - 1) (omega arith) (ground (arith, half_p, half_a)))
            (omega arith, ground (arith, half_p, half_a)) g ba (λ x. omega arith) (λ h. (h, tt)))
    ]
