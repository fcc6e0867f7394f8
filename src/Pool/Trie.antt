-- ===== src/Pool/Trie.antt =====
-- libs/mm1-address/src/pool/trie.rs: the free blocks of a pool as a binary trie. A mask is the number of
-- zeros that it ends in, 0 to 64, which is all that `assert_valid_mask` lets a mask be: `lm & rm` has the
-- more zeros of the two, and `mask << 1` one more. `Option<Box<Node>>` is one data type, and a `Node` its
-- constructors `leaf` and `fork`. A failing `assert!`, `expect` or `panic!` is the result `none`;
-- the assertions of debug builds, `check_invariants` among them, are left out.
pub mod Shifts
pub mod Covers
pub mod Halves
pub mod Segments
pub mod Release
pub mod Split
pub mod Settle
pub mod Acquire
pub mod Room
use mm.Shared.{
  ℕ, zero, suc, ◌+◌, ◌-◌, ◌*◌, ◌/◌, ◌%◌, ◌^◌, Option, none, some, Bool, true, false, ◌&&◌, ltb,
  ◌==◌, if◌then◌else◌, min,
}
use Prim.Native.Nat.{max}
use mm.Subnet.{bit_or, bit_xor}

pub data Node : Type 0 where
  absent : Node
  leaf : ℕ → ℕ → Node
  fork : ℕ → ℕ → Node → Node → Node

-- `x >> k`
unfoldable pub shr : ℕ → ℕ → ℕ
shr zero x = x
shr (suc k) x = shr k x / 2

-- `x & mask`, for the mask that ends in `k` zeros.
unfoldable pub clear : ℕ → ℕ → ℕ
clear zero x = x
clear (suc k) x = 2 * clear k (x / 2)

-- Of a number of `w` bits.
unfoldable pub leading_zeros : ℕ → ℕ → ℕ
leading_zeros zero x = 0
leading_zeros (suc w) x = let rest = leading_zeros w x in if ltb x (2 ^ w) then suc rest else 0

-- The zeros of `cm` in `common_ancestor`.
unfoldable pub ancestor_zeros : ℕ → ℕ → ℕ → ℕ → ℕ
unfolding clear leading_zeros bit_xor
ancestor_zeros la lz ra rz =
    let m = max lz rz in max (64 - leading_zeros 64 (bit_xor 64 (clear m la) (clear m ra))) m

unfoldable pub common_ancestor : ℕ → ℕ → ℕ → ℕ → ℕ × ℕ
unfolding ancestor_zeros clear
common_ancestor la lz ra rz = let c = ancestor_zeros la lz ra rz in (clear c la, c)

-- `split_bit == 0`
unfoldable pub splits_low : ℕ → ℕ → Bool
unfolding shr
splits_low addr c = shr (c - 1) addr % 2 == 0

unfoldable pub maybe_compact : Node → Option Node
maybe_compact (fork p s absent o) = none
maybe_compact (fork p s z absent) = none
maybe_compact (fork p s (leaf zp zs) (leaf op os)) =
    if (min (suc zs) 64 == s) && (min (suc os) 64 == s)
    then some (leaf p s)
    else some (fork p s (leaf zp zs) (leaf op os))
maybe_compact n = some n

unfoldable pub released : Option Node → Bool → Option (Node × Bool)
released none b = none
released (some n) b = some (n, b)

-- The branch that puts the node and the new leaf below their common ancestor.
unfoldable pub split_node : Node → ℕ → ℕ → ℕ × ℕ → Option (Node × Bool)
unfolding maybe_compact splits_low released
split_node sibling addr k (ca, c) =
    released
      (maybe_compact (
        if splits_low addr c
        then fork ca c (leaf addr k) sibling
        else fork ca c sibling (leaf addr k)))
      true

-- The branch that goes down into the half of the address, with what it comes to in either half.
unfoldable pub descend :
    ℕ → ℕ → Node → Node → ℕ → Option (Node × Bool) → Option (Node × Bool) → Option (Node × Bool)
unfolding maybe_compact splits_low released
descend p s z o addr rz ro =
    if splits_low addr s
    then elim rz [ none ↦ none | some (z', b) ↦ released (maybe_compact (fork p s z' o)) b ]
    else elim ro [ none ↦ none | some (o', b) ↦ released (maybe_compact (fork p s z o')) b ]

-- `dfs` of `Pool::release`.
unfoldable pub release : Node → ℕ → ℕ → Option (Node × Bool)
unfolding common_ancestor split_node descend
release absent addr k = some (leaf addr k, true)
release (leaf p s) addr k =
    let (ca, c) = common_ancestor p s addr k in
    if c == 0
    then none
    else if c == k
    then some (leaf p s, false)
    else if c == s
    then some (leaf p s, false)
    else split_node (leaf p s) addr k (ca, c)
release (fork p s z o) addr k =
    let rz = release z addr k in
    let ro = release o addr k in
    let (ca, c) = common_ancestor p s addr k in
    if c == 0
    then none
    else if c == k
    then some (fork p s z o, false)
    else if c == s
    then descend p s z o addr rz ro
    else split_node (fork p s z o) addr k (ca, c)

-- The loop of `Pool::acquire` that wraps what is left of a leaf, `n` rounds from bit `i` on.
unfoldable pub left_over_loop : ℕ → ℕ → ℕ → Node → Node
unfolding bit_or
left_over_loop zero i p l = l
left_over_loop (suc n) i p l =
    left_over_loop n (suc i) p (fork p (suc i) l (leaf (bit_or 64 p (2 ^ i)) i))

-- What `replace_with_opt` makes of a fork whose halves have been tried.
unfoldable pub settle : ℕ → ℕ → Node → Node → Option ℕ → Option (Node × Option ℕ)
settle p s absent absent out = none
settle p s z absent out = some (z, out)
settle p s absent o out = some (o, out)
settle p s z o out = some (fork p s z o, out)

-- `dfs` of `Pool::acquire`.
unfoldable pub acquire : Node → ℕ → Option (Node × Option ℕ)
unfolding left_over_loop settle bit_or
acquire absent k = some (absent, none)
acquire (leaf p s) k =
    if ltb s k
    then some (leaf p s, none)
    else if s == k
    then some (absent, some p)
    else some (left_over_loop (s - suc k) (suc k) p (leaf (bit_or 64 p (2 ^ k)) k), some p)
acquire (fork p s z o) k =
    let rz = acquire z k in
    let ro = acquire o k in
    if ltb s k
    then some (fork p s z o, none)
    else if s == k
    then some (fork p s z o, none)
    else elim rz [
      | none ↦ none
      | some (z', some a) ↦ settle p s z' o (some a)
      | some (z', none) ↦ elim ro [ none ↦ none | some (o', out) ↦ settle p s z' o' out ]
    ]

-- `dfs` of `Pool::drain_into`: the trie that takes the blocks.
unfoldable pub drain_into : Node → Node → Option Node
unfolding release
drain_into absent other = some other
drain_into (leaf p s) other = elim (release other p s) [ none ↦ none | some (t, b) ↦ some t ]
drain_into (fork p s z o) other = elim (drain_into z other) [
  | none ↦ none
  | some t ↦ drain_into o t
]
