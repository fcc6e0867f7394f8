-- ===== src/Pool/Trie/Covers.antt =====
-- What a trie of the address pool stands for: how many of its leaves hold an address.
use mm.Shared.{
  ℕ, suc, ◌+◌, ◌-◌, ◌*◌, ◌^◌, ◌≤◌, ◌<◌, ◌≡◌, ◌≢◌, refl, sym, ◌∙◌, ℕ_discrete, subst, arith, ◌==◌,
  if◌then◌else◌,
}
use mm.Pool.Trie.{Node, absent, leaf, fork, shr, clear}
use mm.Pool.Trie.Shifts.{shr_mono, shr-pred}

-- 1 if the address lies in the block, else 0.
abbrev pub inside : ℕ → ℕ → ℕ → ℕ
inside p k x = if shr k x == shr k p then 1 else 0

unfoldable pub covers : Node → ℕ → ℕ
covers absent x = 0
covers (leaf p k) x = inside p k x
covers (fork p k z o) x = covers z x + covers o x

-- A block: its address has no bit outside of the mask.
abbrev pub IsBlock : ℕ → ℕ → Type 0
IsBlock p k = (k ≤ 64) × (p < 2 ^ 64) × (clear k p ≡ p)

-- The node is there, and its segment lies in the block of `2 ^ j` addresses with the number `v`.
abbrev pub IsWithin : ℕ → ℕ → Node → Type 0
IsWithin v j absent = ⊥
IsWithin v j (leaf p k) = (k ≤ j) × (shr j p ≡ v)
IsWithin v j (fork p k z o) = (k ≤ j) × (shr j p ≡ v)

-- Every segment is a block, and the halves of a fork are there and lie in the halves of its segment.
abbrev pub IsTrie : Node → Type 0
IsTrie absent = Unit {0}
IsTrie (leaf p k) = IsBlock p k
IsTrie (fork p k z o) =
    IsBlock p k
    × (1 ≤ k)
    × IsWithin (2 * shr k p) (k - 1) z
    × IsWithin (suc (2 * shr k p)) (k - 1) o
    × IsTrie z
    × IsTrie o

pub covers-outside :
    (t : Node) (v j x : ℕ) → IsTrie t → IsWithin v j t → shr j x ≢ v → covers t x ≡ 0
unfolding covers
covers-outside absent v j x g w n = refl
covers-outside (leaf p k) v j x g w n = ground (arith, shr_mono k j x p w.0)
covers-outside (fork p k z o) v j x (b, l, wz, wo, gz, go) w n =
    let other : shr k x ≢ shr k p = λ e. n (shr_mono k j x p w.0 e ∙ w.1) in
    let half = shr-pred k x l in
    omega (
      arith,
      covers-outside z (2 * shr k p) (k - 1) x gz wz (λ e. other (omega arith)),
      covers-outside o (suc (2 * shr k p)) (k - 1) x go wo (λ e. other (omega arith)),
    )

-- A node that is there has a free address.
pub covers-some : (t : Node) (v j : ℕ) → IsTrie t → IsWithin v j t → (x : ℕ) × (1 ≤ covers t x)
unfolding covers
covers-some absent v j g w = absurd w
covers-some (leaf p k) v j g w = (p, ground arith)
covers-some (fork p k z o) v j (b, l, wz, wo, gz, go) w =
    let (x, c) = covers-some z (2 * shr k p) (k - 1) gz wz in (x, omega arith)

-- It lies in the node's segment.
pub covers-within :
    (t : Node) (v j x : ℕ) → IsTrie t → IsWithin v j t → 1 ≤ covers t x → shr j x ≡ v
covers-within t v j x g w h = elim (ℕ_discrete (shr j x) v) [
  | yes e ↦ e
  | no n ↦ absurd (omega (arith, covers-outside t v j x g w n))
]

abbrev pub IsFullLeaf : Node → ℕ → Type 0
IsFullLeaf absent j = ⊥
IsFullLeaf (leaf p k) j = k ≡ j
IsFullLeaf (fork p k z o) j = ⊥

-- The halves of no fork are both full leaves, which would be one leaf.
abbrev pub IsCompact : Node → Type 0
IsCompact absent = Unit {0}
IsCompact (leaf p k) = Unit {0}
IsCompact (fork p k z o) =
    ¬ (IsFullLeaf z (k - 1) × IsFullLeaf o (k - 1)) × IsCompact z × IsCompact o

-- The leaves of a trie do not overlap.
pub covers-le-1 : (t : Node) (x : ℕ) → IsTrie t → covers t x ≤ 1
unfolding covers
covers-le-1 absent x g = omega arith
covers-le-1 (leaf p k) x g = ground arith
covers-le-1 (fork p k z o) x (b, l, wz, wo, gz, go) =
    elim (ℕ_discrete (shr (k - 1) x) (2 * shr k p)) [
      | yes e ↦ omega (
        arith,
        covers-le-1 z x gz,
        covers-outside o (suc (2 * shr k p)) (k - 1) x go wo (λ f. omega arith),
      )
      | no n ↦ omega (arith, covers-le-1 o x go, covers-outside z (2 * shr k p) (k - 1) x gz wz n)
    ]

pub IsFullLeaf-covers :
    (t : Node) (v j x : ℕ) → IsFullLeaf t j → IsWithin v j t → shr j x ≡ v → covers t x ≡ 1
unfolding covers
IsFullLeaf-covers absent v j x f w e = absurd f
IsFullLeaf-covers (leaf p k) v j x f w e =
    let same : shr k x ≡ shr k p = subst (λ i. shr i x ≡ shr i p) (sym f) (e ∙ sym w.1) in
    ground arith
IsFullLeaf-covers (fork p k z o) v j x f w e = absurd f
