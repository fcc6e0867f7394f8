-- ===== src/Pool/Trie/Halves.antt =====
-- libs/mm1-address/src/pool/trie.rs: `maybe_compact`, which joins the two halves of a node.
use mm.Shared.{
  ℕ, suc, ◌+◌, ◌-◌, ◌*◌, ◌≤◌, ◌≡◌, refl, sym, ap, ◌∙◌, arith, ◌&&◌, ◌==◌, some, true, false,
  Bool-cases, inl, inr, min,
}
use mm.Pool.Trie.{Node, absent, leaf, fork, shr, maybe_compact}
use mm.Pool.Trie.Shifts.{shr-pred}
use mm.Pool.Trie.Covers.{inside, covers, IsWithin, IsTrie, IsCompact}

-- What a trie comes to when a block that was not covered is released: within the same larger block
-- as before, it covers the block as well.
pub record Gains (t t' : Node) (a k : ℕ) : Type 0 where
  pub trie : IsTrie t'
  pub within : (v j : ℕ) → IsWithin v j t → k ≤ j → shr j a ≡ v → IsWithin v j t'
  pub gained : (x : ℕ) → covers t' x ≡ covers t x + inside a k x
  pub compact : IsCompact t → IsCompact t'

halves_join :
    (p k zp op x : ℕ)
    → 1 ≤ k
    → shr (k - 1) zp ≡ 2 * shr k p
    → shr (k - 1) op ≡ suc (2 * shr k p)
    → inside p k x ≡ inside zp (k - 1) x + inside op (k - 1) x
halves_join p k zp op x h e f = ground (arith, shr-pred k x h)

full_halves :
    (zs os k : ℕ)
    → zs ≤ k - 1
    → os ≤ k - 1
    → 1 ≤ k
    → k ≤ 64
    → (min (suc zs) 64 == k) && (min (suc os) 64 == k) ≡ true
    → (zs ≡ k - 1) × (os ≡ k - 1)
full_halves zs os k h i l m e = ground arith

not_full :
    (zs os k : ℕ)
    → 1 ≤ k
    → k ≤ 64
    → (min (suc zs) 64 == k) && (min (suc os) 64 == k) ≡ false
    → zs ≡ k - 1
    → os ≡ k - 1
    → ⊥
not_full zs os k l m e f g = ground arith

-- Two halves are joined if both are full leaves.
pub maybe_compact_lem :
    (p k : ℕ) (z o : Node)
    → IsTrie (fork p k z o)
    → (t : Node) × (maybe_compact (fork p k z o) ≡ some t)
      × IsTrie t
      × ((x : ℕ) → covers t x ≡ covers z x + covers o x)
      × ((v j : ℕ) → k ≤ j → shr j p ≡ v → IsWithin v j t)
      × (IsCompact z → IsCompact o → IsCompact t)
unfolding maybe_compact covers
maybe_compact_lem p k absent o g = absurd g.2
maybe_compact_lem p k (leaf zp zs) absent g = absurd g.3
maybe_compact_lem p k (leaf zp zs) (leaf op os) g =
    elim (Bool-cases ((min (suc zs) 64 == k) && (min (suc os) 64 == k))) [
      | inl e ↦ (
        leaf p k,
        rw e refl,
        g.0,
        (λ x.
            let (ez, eo) = full_halves zs os k g.2.0 g.3.0 g.1 g.0.0 e in
            halves_join p k zp op x g.1 g.2.1 g.3.1
            ∙ ap (λ i. inside zp i x + inside op (k - 1) x) (sym ez)
            ∙ ap (λ i. inside zp zs x + inside op i x) (sym eo)),
        (λ v j h e. (h, e)),
        λ c d. tt,
      )
      | inr e ↦ (
        fork p k (leaf zp zs) (leaf op os),
        rw e refl,
        g,
        (λ x. refl),
        (λ v j h e. (h, e)),
        λ c d. ((λ f. not_full zs os k g.1 g.0.0 e f.0 f.1), c, d),
      )
    ]
maybe_compact_lem p k (leaf zp zs) (fork op os oz oo) g = (
  fork p k (leaf zp zs) (fork op os oz oo),
  refl,
  g,
  (λ x. refl),
  (λ v j h e. (h, e)),
  λ c d. ((λ f. f.1), c, d),
)
maybe_compact_lem p k (fork zp zs zz zo) absent g = absurd g.3
maybe_compact_lem p k (fork zp zs zz zo) (leaf op os) g = (
  fork p k (fork zp zs zz zo) (leaf op os),
  refl,
  g,
  (λ x. refl),
  (λ v j h e. (h, e)),
  λ c d. ((λ f. f.0), c, d),
)
maybe_compact_lem p k (fork zp zs zz zo) (fork op os oz oo) g = (
  fork p k (fork zp zs zz zo) (fork op os oz oo),
  refl,
  g,
  (λ x. refl),
  (λ v j h e. (h, e)),
  λ c d. ((λ f. f.0), c, d),
)
