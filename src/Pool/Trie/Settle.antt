-- ===== src/Pool/Trie/Settle.antt =====
-- libs/mm1-address/src/pool/trie.rs: what `acquire` leaves of a node when its halves have been searched.
use mm.Shared.{ℕ, ◌+◌, ◌-◌, ◌/◌, ◌≤◌, ◌≡◌, ◌⊎◌, inl, inr, refl, ap, ◌∙◌, subst, arith, Option, some}
use mm.Pool.Trie.{Node, absent, leaf, fork, shr, settle}
use mm.Pool.Trie.Shifts.{shr_mono, shr-pred}
use mm.Pool.Trie.Covers.{covers, IsWithin, IsTrie, IsFullLeaf, IsCompact}
use mm.Pool.Trie.Split.{Stays}

abbrev pub IsThere : Node → Type 0
IsThere absent = ⊥
IsThere (leaf p k) = Unit {0}
IsThere (fork p k z o) = Unit {0}

pub within-IsThere : (v j : ℕ) (t : Node) → IsWithin v j t → IsThere t
within-IsThere v j absent w = w
within-IsThere v j (leaf p k) w = tt
within-IsThere v j (fork p k z o) w = tt

pub settle-both :
    (p s : ℕ) (z o : Node) (out : Option ℕ)
    → IsThere z
    → IsThere o
    → settle p s z o out ≡ some (fork p s z o, out)
unfolding settle
settle-both p s absent o out h i = absurd h
settle-both p s (leaf a b) absent out h i = absurd i
settle-both p s (leaf a b) (leaf c d) out h i = refl
settle-both p s (leaf a b) (fork c d e f) out h i = refl
settle-both p s (fork a b g j) absent out h i = absurd i
settle-both p s (fork a b g j) (leaf c d) out h i = refl
settle-both p s (fork a b g j) (fork c d e f) out h i = refl

settle-zero :
    (p s : ℕ) (z : Node) (out : Option ℕ) → IsThere z → settle p s z absent out ≡ some (z, out)
unfolding settle
settle-zero p s absent out h = absurd h
settle-zero p s (leaf a b) out h = refl
settle-zero p s (fork a b c d) out h = refl

settle-one :
    (p s : ℕ) (o : Node) (out : Option ℕ) → IsThere o → settle p s absent o out ≡ some (o, out)
unfolding settle
settle-one p s absent out h = absurd h
settle-one p s (leaf a b) out h = refl
settle-one p s (fork a b c d) out h = refl

-- A node in a half of a segment lies in every block that the segment lies in.
half-IsWithin :
    (t : Node) (p s u v j : ℕ)
    → 1 ≤ s
    → s ≤ j
    → shr j p ≡ v
    → u / 2 ≡ shr s p
    → IsWithin u (s - 1) t
    → IsWithin v j t
half-IsWithin absent p s u v j l h e f w = w
half-IsWithin (leaf q k) p s u v j l h e f w =
    (omega (arith, w.0), shr_mono s j q p h (shr-pred s q l ∙ ap (λ x. x / 2) w.1 ∙ f) ∙ e)
half-IsWithin (fork q k z o) p s u v j l h e f w =
    (omega (arith, w.0), shr_mono s j q p h (shr-pred s q l ∙ ap (λ x. x / 2) w.1 ∙ f) ∙ e)

-- The trie that a fork comes to.
pub record Settled (p s : ℕ) (z o z' o' : Node) (out : Option ℕ) : Type 0 where
  pub trie : Node
  pub result : settle p s z' o' out ≡ some (trie, out)
  pub valid : IsTrie trie
  pub total : (x : ℕ) → covers trie x ≡ covers z' x + covers o' x
  pub compact :
      IsCompact z'
      → IsCompact o'
      → ¬ (IsFullLeaf z' (s - 1) × IsFullLeaf o' (s - 1))
      → IsCompact trie
  pub stays : (v j : ℕ) → s ≤ j → shr j p ≡ v → IsWithin v j trie

pub settle-Settled :
    (p s : ℕ) (z o z' o' : Node) (out : Option ℕ)
    → IsTrie (fork p s z o)
    → IsTrie z'
    → IsTrie o'
    → Stays z z'
    → Stays o o'
    → IsThere z' ⊎ IsThere o'
    → Settled p s z o z' o' out
unfolding covers
settle-Settled p s z o z' o' out g gz go (inl e) (inl f) (inl t) = absurd (subst IsThere e t)
settle-Settled p s z o z' o' out g gz go (inl e) (inl f) (inr t) = absurd (subst IsThere f t)
settle-Settled p s z o z' o' out g gz go (inl e) (inr w) t =
    let wo = w _ (s - 1) g.3 in
    record {
      trie = o';
      result = rw e (settle-one p s o' out (within-IsThere _ _ o' wo));
      valid = go;
      total = λ x. omega (arith, ap (λ n. covers n x) e);
      compact = λ h i n. i;
      stays = λ v j h i. half-IsWithin o' p s _ v j g.1 h i (omega arith) wo;
    }
settle-Settled p s z o z' o' out g gz go (inr w) (inl e) t =
    let wz = w _ (s - 1) g.2 in
    record {
      trie = z';
      result = rw e (settle-zero p s z' out (within-IsThere _ _ z' wz));
      valid = gz;
      total = λ x. omega (arith, ap (λ n. covers n x) e);
      compact = λ h i n. h;
      stays = λ v j h i. half-IsWithin z' p s _ v j g.1 h i (omega arith) wz;
    }
settle-Settled p s z o z' o' out g gz go (inr w) (inr u) t =
    let wz = w _ (s - 1) g.2 in
    let wo = u _ (s - 1) g.3 in
    record {
      trie = fork p s z' o';
      result = settle-both p s z' o' out (within-IsThere _ _ z' wz) (within-IsThere _ _ o' wo);
      valid = (g.0, g.1, wz, wo, gz, go);
      total = λ x. refl;
      compact = λ h i n. (n, h, i);
      stays = λ v j h i. (h, i);
    }
