-- ===== src/Pool/Trie/Shifts.antt =====
-- Shifts, masks and the length of a common prefix.
use mm.Shared.{
  ℕ, zero, suc, ◌-◌, ◌*◌, ◌/◌, ◌^◌, ◌≤◌, ◌<◌, ◌≡◌, ◌≢◌, ◌↔◌, refl, sym, ap, ◌∙◌, subst, ℕ_discrete,
  dec_lt, arith,
}
use Prim.Native.Nat.{max}
use mm.Subnet.{bit_xor}
use mm.Pool.Trie.{shr, clear, leading_zeros, ancestor_zeros}

pub shr-half : (k x : ℕ) → shr k (x / 2) ≡ shr k x / 2
unfolding shr
shr-half zero x = refl
shr-half (suc k) x = ap (λ y. y / 2) (shr-half k x)

pub shr-pred : (k x : ℕ) → 1 ≤ k → shr k x ≡ shr (k - 1) x / 2
unfolding shr
shr-pred zero x h = absurd (omega arith)
shr-pred (suc k) x h = ap (λ j. shr j x / 2) (omega arith)

-- Numbers that agree from a bit on agree from any higher one on.
pub shr_mono : (j k x y : ℕ) → j ≤ k → shr j x ≡ shr j y → shr k x ≡ shr k y
unfolding shr
shr_mono zero zero x y h e = e
shr_mono (suc j) zero x y h e = absurd (omega arith)
shr_mono j (suc k) x y h e = elim (ℕ_discrete j (suc k)) [
  | yes same ↦ subst (λ i. shr i x ≡ shr i y) same e
  | no less ↦ ap (λ z. z / 2) (shr_mono j k x y (omega arith) e)
]

pub shr-clear : (k x : ℕ) → shr k (clear k x) ≡ shr k x
unfolding shr clear
shr-clear zero x = refl
shr-clear (suc k) x =
    sym (shr-half k (2 * clear k (x / 2)))
    ∙ ap (shr k) (omega arith)
    ∙ shr-clear k (x / 2)
    ∙ shr-half k x

pub clear-lt : (k w x : ℕ) → x < 2 ^ w → clear k x < 2 ^ w
unfolding clear
clear-lt zero w x h = h
clear-lt (suc k) zero x h = ground (arith, clear-lt k 0 (x / 2))
clear-lt (suc k) (suc w) x h = omega (arith, clear-lt k w (x / 2) (omega arith))

pub clear-clear : (k x : ℕ) → clear k (clear k x) ≡ clear k x
unfolding clear
clear-clear zero x = refl
clear-clear (suc k) x =
    ap (λ y. 2 * clear k y) (omega arith) ∙ ap (λ y. 2 * y) (clear-clear k (x / 2))

shr-eq-0 : (w x : ℕ) → x < 2 ^ w → shr w x ≡ 0
unfolding shr
shr-eq-0 zero x h = omega arith
shr-eq-0 (suc w) x h = sym (shr-half w x) ∙ shr-eq-0 w (x / 2) (omega arith)

shr-eq-1 : (w x : ℕ) → 2 ^ w ≤ x → x < 2 * 2 ^ w → shr w x ≡ 1
unfolding shr
shr-eq-1 zero x l h = omega arith
shr-eq-1 (suc w) x l h = sym (shr-half w x) ∙ shr-eq-1 w (x / 2) (omega arith) (omega arith)

bit_xor-half : (w x y : ℕ) → bit_xor (suc w) x y / 2 ≡ bit_xor w (x / 2) (y / 2)
unfolding bit_xor
bit_xor-half w x y = ground arith

bit_xor-lt : (w x y : ℕ) → bit_xor w x y < 2 ^ w
unfolding bit_xor
bit_xor-lt zero x y = omega arith
bit_xor-lt (suc w) x y = ground (arith, bit_xor-lt w (x / 2) (y / 2))

bit_xor-0_iff : (w x y : ℕ) → x < 2 ^ w → y < 2 ^ w → (bit_xor w x y ≡ 0) ↔ (x ≡ y)
unfolding bit_xor
bit_xor-0_iff zero x y h k = ground arith
bit_xor-0_iff (suc w) x y h k = ground (arith, bit_xor-0_iff w (x / 2) (y / 2))

shr-bit_xor_iff :
    (j w x y : ℕ) → x < 2 ^ w → y < 2 ^ w → (shr j (bit_xor w x y) ≡ 0) ↔ (shr j x ≡ shr j y)
unfolding shr
shr-bit_xor_iff zero w x y h k = bit_xor-0_iff w x y h k
shr-bit_xor_iff (suc j) zero x y h k =
    ground (arith, shr-half j x, shr-half j y, shr-half j 0, shr-bit_xor_iff j 0 (x / 2) (y / 2))
shr-bit_xor_iff (suc j) (suc w) x y h k = ground (
  arith,
  shr-half j x,
  shr-half j y,
  shr-half j (bit_xor (suc w) x y),
  ap (shr j) (bit_xor-half w x y),
  shr-bit_xor_iff j w (x / 2) (y / 2),
)

-- All the bits from `e` on are zeros, and the one below is not.
abbrev IsTop : ℕ → ℕ → Type 0
IsTop e d = (shr e d ≡ 0) × (1 ≤ e → shr (e - 1) d ≡ 1)

leading_zeros-suc : (w d : ℕ) → d < 2 ^ w → leading_zeros (suc w) d ≡ suc (leading_zeros w d)
unfolding leading_zeros
leading_zeros-suc w d h = ground arith

leading_zeros-0 : (w d : ℕ) → 2 ^ w ≤ d → leading_zeros (suc w) d ≡ 0
unfolding leading_zeros
leading_zeros-0 w d h = ground arith

leading_zeros-IsTop : (w d : ℕ) → d < 2 ^ w → IsTop (w - leading_zeros w d) d
unfolding leading_zeros shr
leading_zeros-IsTop zero d h = (omega arith, λ h. absurd (omega arith))
leading_zeros-IsTop (suc w) d h = elim (dec_lt d (2 ^ w)) [
  | yes l ↦
      let e : w - leading_zeros w d ≡ suc w - leading_zeros (suc w) d =
        omega (arith, leading_zeros-suc w d l) in
      subst (λ i. IsTop i d) e (leading_zeros-IsTop w d l)
  | no g ↦
      let e : suc w ≡ suc w - leading_zeros (suc w) d =
        omega (arith, leading_zeros-0 w d (omega arith)) in
      let top : IsTop (suc w) d = (
        shr-eq-0 (suc w) d h,
        λ _. ap (λ j. shr j d) (omega arith) ∙ shr-eq-1 w d (omega arith) (omega arith),
      ) in
      subst (λ i. IsTop i d) e top
]

-- The common ancestor: the blocks agree from its bit on and from no lower one that both cover.
pub ancestor_zeros-le :
    (la lz ra rz : ℕ)
    → lz ≤ 64
    → rz ≤ 64
    → (lz ≤ ancestor_zeros la lz ra rz)
      × (rz ≤ ancestor_zeros la lz ra rz)
      × (ancestor_zeros la lz ra rz ≤ 64)
unfolding ancestor_zeros
ancestor_zeros-le la lz ra rz h k = omega arith

pub ancestor_zeros-agree :
    (la lz ra rz : ℕ)
    → la < 2 ^ 64
    → ra < 2 ^ 64
    → shr (ancestor_zeros la lz ra rz) la ≡ shr (ancestor_zeros la lz ra rz) ra
unfolding ancestor_zeros
ancestor_zeros-agree la lz ra rz h k =
    let m = max lz rz in
    let l = clear m la in
    let r = clear m ra in
    let hl = clear-lt m 64 la h in
    let hr = clear-lt m 64 ra k in
    let e = 64 - leading_zeros 64 (bit_xor 64 l r) in
    let top = leading_zeros-IsTop 64 (bit_xor 64 l r) (bit_xor-lt 64 l r) in
    let c = max e m in
    let same = shr_mono e c l r (omega arith) ((shr-bit_xor_iff e 64 l r hl hr).0 top.0) in
    sym (shr_mono m c l la (omega arith) (shr-clear m la))
    ∙ same
    ∙ shr_mono m c r ra (omega arith) (shr-clear m ra)

pub ancestor_zeros-differ :
    (la lz ra rz : ℕ)
    → la < 2 ^ 64
    → ra < 2 ^ 64
    → lz < ancestor_zeros la lz ra rz
    → rz < ancestor_zeros la lz ra rz
    → shr (ancestor_zeros la lz ra rz - 1) la ≢ shr (ancestor_zeros la lz ra rz - 1) ra
unfolding ancestor_zeros
ancestor_zeros-differ la lz ra rz h k hl hr same =
    let m = max lz rz in
    let l = clear m la in
    let r = clear m ra in
    let e = 64 - leading_zeros 64 (bit_xor 64 l r) in
    let top = leading_zeros-IsTop 64 (bit_xor 64 l r) (bit_xor-lt 64 l r) in
    let c : max e m ≡ e = omega arith in
    let agree : shr (e - 1) la ≡ shr (e - 1) ra =
      subst (λ i. shr (i - 1) la ≡ shr (i - 1) ra) c same in
    let cleared =
      shr_mono m (e - 1) l la (omega arith) (shr-clear m la)
      ∙ agree
      ∙ sym (shr_mono m (e - 1) r ra (omega arith) (shr-clear m ra)) in
    let zero_bits =
      (shr-bit_xor_iff (e - 1) 64 l r (clear-lt m 64 la h) (clear-lt m 64 ra k)).1 cleared in
    omega (arith, zero_bits, top.1 (omega arith))
