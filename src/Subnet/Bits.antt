-- ===== src/Subnet/Bits.antt =====
-- The bitwise operators on the addresses of a network.
use mm.Shared.{
  ℕ, suc, zero, ◌≤◌, ◌<◌, ◌+◌, ◌-◌, ◌*◌, ◌/◌, ◌^◌, ◌≡◌, refl, sym, some, arith, ap, ◌∙◌, ℕ_discrete,
}
use mm.Subnet.{
  NetAddress, AddressRange, bit_not, bit_or, bit_xor, leading_ones, into_u64, try_from, from_net,
  to_net,
}

-- `q` with `k` zeros behind it, and a number of `k` ones.
abbrev shifted : ℕ → ℕ → ℕ
shifted zero q = q
shifted (suc k) q = 2 * shifted k q

abbrev ones : ℕ → ℕ
ones zero = 0
ones (suc k) = suc (2 * ones k)

pub bit_or-0 : (w : ℕ) (a : ℕ) → a < 2 ^ w → bit_or w a 0 ≡ a
unfolding bit_or
bit_or-0 zero a h = omega arith
bit_or-0 (suc w) a h = ground (arith, bit_or-0 w (a / 2))

bit_or-ones :
    (k w q : ℕ)
    → shifted k q + ones k < 2 ^ w
    → bit_or w (shifted k q) (ones k) ≡ shifted k q + ones k
unfolding bit_or
bit_or-ones zero w q h = ground (arith, bit_or-0 w q)
bit_or-ones (suc k) zero q h = ground arith
bit_or-ones (suc k) (suc w) q h =
    let halved : bit_or w (2 * shifted k q / 2) (suc (2 * ones k) / 2) ≡ shifted k q + ones k =
      ap (λ x. bit_or w x (suc (2 * ones k) / 2)) (omega arith)
      ∙ ap (bit_or w (shifted k q)) (omega arith)
      ∙ bit_or-ones k w q (omega arith) in
    ground (arith, halved)

bit_or-le : (w a b : ℕ) → a < 2 ^ w → a ≤ bit_or w a b
unfolding bit_or
bit_or-le zero a b h = omega arith
bit_or-le (suc w) a b h = ground (arith, bit_or-le w (a / 2) (b / 2))

-- The range of a network does not end before it begins.
pub from_net-le : (n : NetAddress) → n.address < 2 ^ 64 → (from_net n).lo ≤ (from_net n).hi
unfolding from_net
from_net-le n h = bit_or-le 64 n.address (bit_not (into_u64 n.mask)) h

bit_xor-same : (w : ℕ) (a : ℕ) → bit_xor w a a ≡ 0
unfolding bit_xor
bit_xor-same zero a = refl
bit_xor-same (suc w) a = ground (arith, bit_xor-same w (a / 2))

bit_xor-ones :
    (k w q : ℕ)
    → shifted k q + ones k < 2 ^ w
    → bit_xor w (shifted k q) (shifted k q + ones k) ≡ ones k
unfolding bit_xor
bit_xor-ones zero w q h = ap (bit_xor w q) (omega arith) ∙ bit_xor-same w q
bit_xor-ones (suc k) zero q h = ground arith
bit_xor-ones (suc k) (suc w) q h =
    let halved : bit_xor w (2 * shifted k q / 2) ((2 * shifted k q + suc (2 * ones k)) / 2)
        ≡ ones k =
      ap (λ x. bit_xor w x ((2 * shifted k q + suc (2 * ones k)) / 2)) (omega arith)
      ∙ ap (bit_xor w (shifted k q)) (omega arith)
      ∙ bit_xor-ones k w q (omega arith) in
    ground (arith, halved)

shifted-pow : (k q : ℕ) → shifted k q ≡ q * 2 ^ k
shifted-pow zero q = omega arith
shifted-pow (suc k) q = ap (λ x. 2 * x) (shifted-pow k q) ∙ grind arith

ones-pow : (k : ℕ) → suc (ones k) ≡ 2 ^ k
ones-pow zero = refl
ones-pow (suc k) = ground (arith, ones-pow k)

pub pow_le : (k w : ℕ) → k ≤ w → 2 ^ k ≤ 2 ^ w
pow_le zero zero h = omega arith
pow_le zero (suc w) h = ground (arith, pow_le zero w)
pow_le (suc k) zero h = absurd (omega arith)
pow_le (suc k) (suc w) h = ground (arith, pow_le k w)

leading_ones-0 : (w : ℕ) → leading_ones w 0 ≡ 0
unfolding leading_ones
leading_ones-0 zero = refl
leading_ones-0 (suc w) = ground (arith, pow_le 0 w)

leading_ones-low : (w k : ℕ) → k ≤ w → leading_ones w (2 ^ w - 2 ^ k) ≡ w - k
unfolding leading_ones
leading_ones-low zero k h = omega arith
leading_ones-low (suc w) k h = elim (ℕ_discrete k (suc w)) [
  | yes e ↦
      ap (λ j. leading_ones (suc w) (2 ^ suc w - 2 ^ j)) e
      ∙ ap (leading_ones (suc w)) (omega arith)
      ∙ leading_ones-0 (suc w)
      ∙ omega arith
  | no n ↦
      let halved : leading_ones w ((2 ^ suc w - 2 ^ k) - 2 ^ w) ≡ w - k =
        ap (leading_ones w) (ground (arith, pow_le k w)) ∙ leading_ones-low w k (omega arith) in
      ground (arith, halved, pow_le k w)
]

bit_not-into_u64 : (m : ℕ) → m ≤ 64 → bit_not (into_u64 m) ≡ ones (64 - m)
unfolding into_u64
bit_not-into_u64 m h = ground (
  arith,
  ones-pow (64 - m),
  pow_le 0 (64 - m),
  pow_le (64 - m) 64 (omega arith),
  pow_le (64 - m) 63,
)

from_net-hi :
    (n : NetAddress) (q : ℕ)
    → n.mask ≤ 64
    → n.address ≡ shifted (64 - n.mask) q
    → n.address + 2 ^ (64 - n.mask) ≤ 2 ^ 64
    → (from_net n).hi ≡ n.address + ones (64 - n.mask)
unfolding from_net
from_net-hi n q h e b =
    ap (bit_or 64 n.address) (bit_not-into_u64 n.mask h)
    ∙ ap (λ x. bit_or 64 x (ones (64 - n.mask))) e
    ∙ bit_or-ones (64 - n.mask) 64 q (omega (arith, ones-pow (64 - n.mask)))
    ∙ ap (λ x. x + ones (64 - n.mask)) (sym e)

fixed_bits :
    (n : NetAddress) (q : ℕ)
    → n.mask ≤ 64
    → n.address ≡ shifted (64 - n.mask) q
    → n.address + 2 ^ (64 - n.mask) ≤ 2 ^ 64
    → leading_ones 64 (bit_not (bit_xor 64 n.address (from_net n).hi)) ≡ n.mask
fixed_bits n q h e b =
    ap (λ x. leading_ones 64 (bit_not (bit_xor 64 n.address x))) (from_net-hi n q h e b)
    ∙ ap (λ x. leading_ones 64 (bit_not (bit_xor 64 x (x + ones (64 - n.mask))))) e
    ∙ ap (λ x. leading_ones 64 (bit_not x))
        (bit_xor-ones (64 - n.mask) 64 q (omega (arith, ones-pow (64 - n.mask))))
    ∙ ap (leading_ones 64) (omega (arith, ones-pow (64 - n.mask)))
    ∙ leading_ones-low 64 (64 - n.mask) (omega arith)
    ∙ omega arith

try_from-le : (m : ℕ) → m ≤ 64 → try_from m ≡ some m
unfolding try_from
try_from-le m h = ground arith

to_net-mask :
    (r : AddressRange) (m : ℕ)
    → m ≤ 64
    → leading_ones 64 (bit_not (bit_xor 64 r.lo r.hi)) ≡ m
    → to_net r ≡ some (record { address = r.lo; mask = m })
unfolding to_net
to_net-mask r m h e = rw (to_net, e, try_from-le m h) refl

-- A network whose address is a multiple of the size of its range, and whose range lies below 2^64, comes
-- back from its range unchanged, for every mask up to 64; the range is the `2^(64 - mask)` addresses from
-- the network's address on.
pub to_net-from_net :
    (n : NetAddress) (q : ℕ)
    → n.mask ≤ 64
    → n.address ≡ q * 2 ^ (64 - n.mask)
    → n.address + 2 ^ (64 - n.mask) ≤ 2 ^ 64
    → (to_net (from_net n) ≡ some n) × ((from_net n).hi ≡ n.address + (2 ^ (64 - n.mask) - 1))
unfolding from_net
to_net-from_net n q h e b =
    let e' = e ∙ sym (shifted-pow (64 - n.mask) q) in
    (
      to_net-mask (from_net n) n.mask h (fixed_bits n q h e' b),
      from_net-hi n q h e' b ∙ omega (arith, ones-pow (64 - n.mask)),
    )
