-- ===== src/Pool/Trie/Acquire.antt =====
-- Acquiring a block from a trie.
use mm.Shared.{
  ℕ, suc, ◌+◌, ◌-◌, ◌^◌, ◌≤◌, ◌<◌, ◌≡◌, inl, inr, refl, sym, ap, ◌∙◌, subst, dec_lt, arith, ==-ne,
  ==-eq, ltb_ge, ltb_lt, Option, none, some, ℕ_discrete,
}
use mm.Subnet.{bit_or}
use mm.Pool.Trie.{Node, absent, leaf, fork, shr, left_over_loop, acquire}
use mm.Pool.Trie.Shifts.{shr_mono}
use mm.Pool.Trie.Covers.{
  inside, covers, IsBlock, IsWithin, IsTrie, IsFullLeaf, IsCompact, covers-within, covers-le-1,
  IsFullLeaf-covers,
}
use mm.Pool.Trie.Split.{HasRoom, Stays, Yields, split_leaf, clear-less}
use mm.Pool.Trie.Settle.{IsThere, within-IsThere, settle-both, settle-Settled}

pub HasRoom-le : (t : Node) (v j k : ℕ) → IsTrie t → IsWithin v j t → HasRoom t k → k ≤ j
HasRoom-le absent v j k g w h = absurd h
HasRoom-le (leaf p s) v j k g w h = omega (arith, w.0, h)
HasRoom-le (fork p s z o) v j k g w (inl h) = omega (arith, w.0, HasRoom-le z _ (s - 1) k g.4 g.2 h)
HasRoom-le (fork p s z o) v j k g w (inr h) = omega (arith, w.0, HasRoom-le o _ (s - 1) k g.5 g.3 h)

-- A node that lost a block is no full leaf.
taken_not_full :
    (t t' : Node) (v j a k : ℕ)
    → IsTrie t
    → IsWithin v j t
    → Stays t t'
    → ((x : ℕ) → covers t x ≡ covers t' x + inside a k x)
    → ¬ IsFullLeaf t' j
taken_not_full t t' v j a k g w (inl e) c f = subst (λ n. IsFullLeaf n j) e f
taken_not_full t t' v j a k g w (inr st) c f =
    let own : inside a k a ≡ 1 = ground arith in
    let lies = covers-within t v j a g w (omega (arith, c a, own)) in
    omega (arith, c a, own, covers-le-1 t a g, IsFullLeaf-covers t' v j a f (st v j w) lies)

abbrev pub Acquires : Node → ℕ → Type 0
Acquires t k =
    (t' : Node) × (out : Option ℕ) × (acquire t k ≡ some (t', out)) × Stays t t' × Yields t k t' out

fork-Acquires :
    (p s k : ℕ) (z o z' o' : Node) (out out' : Option ℕ)
    → IsTrie (fork p s z o)
    → k < s
    → acquire z k ≡ some (z', out)
    → Stays z z'
    → Yields z k z' out
    → acquire o k ≡ some (o', out')
    → Stays o o'
    → Yields o k o' out'
    → Acquires (fork p s z o) k
unfolding acquire covers
fork-Acquires p s k z o z' o' (some a) out' g l ez sz (b, gz, cz, comp) eo so yo =
    let r =
      settle-Settled p s z o z' o (some a) g gz g.5 sz (inr (λ v j w. w))
        (inr (within-IsThere _ _ o g.3)) in
    (
      r.trie,
      some a,
      rw (acquire, ltb_ge s k (omega arith), ==-ne s k (λ e. omega arith), ez) r.result,
      inr (λ v j w. r.stays v j w.0 w.1),
      (
        b,
        r.valid,
        (λ x. omega (arith, r.total x, cz x)),
        λ h. r.compact (comp h.1) h.2 (λ f. taken_not_full z z' _ (s - 1) a k g.4 g.2 sz cz f.0),
      ),
    )
fork-Acquires p s k z o z' o' none (some a) g l ez sz (uz, nz) eo so (b, go, co, comp) =
    let gz = subst IsTrie (sym uz) g.4 in
    let r =
      settle-Settled p s z o z' o' (some a) g gz go sz so
        (inl (subst IsThere (sym uz) (within-IsThere _ _ z g.2))) in
    (
      r.trie,
      some a,
      rw (acquire, ltb_ge s k (omega arith), ==-ne s k (λ e. omega arith), ez, eo) r.result,
      inr (λ v j w. r.stays v j w.0 w.1),
      (
        b,
        r.valid,
        (λ x. omega (arith, r.total x, co x, ap (λ n. covers n x) uz)),
        λ h.
            r.compact (subst IsCompact (sym uz) h.1) (comp h.2)
              (λ f. taken_not_full o o' _ (s - 1) a k g.5 g.3 so co f.1),
      ),
    )
fork-Acquires p s k z o z' o' none none g l ez sz (uz, nz) eo so (uo, no_room) = (
  fork p s z o,
  none,
  rw (acquire, ltb_ge s k (omega arith), ==-ne s k (λ e. omega arith), ez, eo, uz, uo)
      (settle-both p s z o none (within-IsThere _ _ z g.2) (within-IsThere _ _ o g.3)),
  inr (λ v j w. w),
  (refl, λ h. elim h [ inl r ↦ nz r | inr r ↦ no_room r ]),
)

IsWithin-widen :
    (t : Node) (p i v j : ℕ) → IsWithin (shr i p) i t → i ≤ j → shr j p ≡ v → IsWithin v j t
IsWithin-widen absent p i v j w h e = w
IsWithin-widen (leaf q k) p i v j w h e = (omega (arith, w.0), shr_mono i j q p h w.1 ∙ e)
IsWithin-widen (fork q k z o) p i v j w h e = (omega (arith, w.0), shr_mono i j q p h w.1 ∙ e)

leaf-Acquires : (p s k : ℕ) → IsTrie (leaf p s) → Acquires (leaf p s) k
unfolding acquire covers
leaf-Acquires p s k g = elim (dec_lt s k) [
  | yes l ↦ (
    leaf p s,
    none,
    rw (acquire, ltb_lt s k l) refl,
    inr (λ v j w. w),
    (refl, λ h. omega (arith, h)),
  )
  | no n ↦ elim (ℕ_discrete s k) [
    | yes e ↦ (
      absent,
      some p,
      rw (acquire, ltb_ge s k (omega arith), ==-eq s k e) refl,
      inl refl,
      (
        subst (IsBlock p) e g,
        tt,
        (λ x. subst (λ i. inside p s x ≡ 0 + inside p i x) e (omega arith)),
        λ h. tt,
      ),
    )
    | no ne ↦
        let r = split_leaf p s k g (omega arith) in
        (
          left_over_loop (s - suc k) (suc k) p (leaf (bit_or 64 p (2 ^ k)) k),
          some p,
          rw (acquire, ltb_ge s k (omega arith), ==-ne s k ne) refl,
          inr (λ v j w. IsWithin-widen _ p s v j r.within w.0 w.1),
          (
            (omega (arith, g.0), g.1, clear-less k s p (omega arith) g.2),
            r.trie,
            r.rest,
            λ h. r.compact,
          ),
        )
  ]
]

small_fork : (p s k : ℕ) (z o : Node) → s ≤ k → acquire (fork p s z o) k ≡ some (fork p s z o, none)
unfolding acquire
small_fork p s k z o h = elim (ℕ_discrete s k) [
  | yes e ↦ rw (acquire, ltb_ge s k (omega arith), ==-eq s k e) refl
  | no n ↦ rw (acquire, ltb_lt s k (omega arith)) refl
]

-- Acquiring a block from a well-formed trie does not panic. Either it fails, the trie is the same and
-- none of its leaves is as large as the block, or it answers a block of the size that was asked for, and
-- the trie left, well formed too, covers exactly what it covered before without that block.
pub acquire-Acquires : (t : Node) (k : ℕ) → IsTrie t → Acquires t k
unfolding acquire
acquire-Acquires absent k g = (absent, none, refl, inl refl, (refl, λ h. h))
acquire-Acquires (leaf p s) k g = leaf-Acquires p s k g
acquire-Acquires (fork p s z o) k g = elim (dec_lt k s) [
  | yes l ↦
      let (z', out, ez, sz, yz) = acquire-Acquires z k g.4 in
      let (o', out', eo, so, yo) = acquire-Acquires o k g.5 in
      fork-Acquires p s k z o z' o' out out' g l ez sz yz eo so yo
  | no n ↦
      let small : ¬ HasRoom (fork p s z o) k = λ h. elim h [
        | inl r ↦ omega (arith, HasRoom-le z _ (s - 1) k g.4 g.2 r, g.1)
        | inr r ↦ omega (arith, HasRoom-le o _ (s - 1) k g.5 g.3 r, g.1)
      ] in
      (fork p s z o, none, small_fork p s k z o (omega arith), inr (λ v j w. w), (refl, small))
]
