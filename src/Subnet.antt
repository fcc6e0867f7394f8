-- ===== src/Subnet.antt =====
-- libs/mm1-address/src/subnet.rs and address_range.rs: masks, networks and the ranges that serve as keys of
-- ordered maps. An address is its `u64`; the bitwise operators run over 64 bits, the lowest first.
pub mod Bits
pub mod Ranges
pub mod Sorted
pub mod Text
pub mod Reading
use mm.Shared.{
  ℕ, suc, zero, ◌≤◌, ◌<◌, ◌+◌, ◌-◌, ◌*◌, ◌/◌, ◌%◌, ◌^◌, ltb, leb, ◌==◌, ◌&&◌, if◌then◌else◌, Option,
  none, some, Bool, true, false,
}
use Prim.Native.Nat.{Ordering, compare}

abbrev pub Address : Type 0
Address = ℕ

-- The newtype over `u8`: the number of fixed bits.
abbrev pub NetMask : Type 0
NetMask = ℕ

pub record NetAddress : Type 0 where
  pub address : Address
  pub mask : NetMask

pub record AddressRange : Type 0 where
  pub lo : Address
  pub hi : Address

unfoldable pub bits_available : NetMask → ℕ
bits_available m = 64 - m

unfoldable pub into_u64 : NetMask → ℕ
into_u64 m = if m == 0 then 0 else ((2 ^ 64 - 1) * 2 ^ (64 - m)) % 2 ^ 64

unfoldable pub try_from : ℕ → Option NetMask
try_from value = if leb value 64 then some value else none

-- `|`, `^` and `!` on numbers of a width.
unfoldable pub bit_or : ℕ → ℕ → ℕ → ℕ
bit_or zero a b = 0
bit_or (suc w) a b =
    let rest = bit_or w (a / 2) (b / 2) in
    if (a % 2 == 0) && (b % 2 == 0) then 2 * rest else suc (2 * rest)

unfoldable pub bit_xor : ℕ → ℕ → ℕ → ℕ
bit_xor zero a b = 0
bit_xor (suc w) a b =
    let rest = bit_xor w (a / 2) (b / 2) in if a % 2 == b % 2 then 2 * rest else suc (2 * rest)

abbrev pub bit_not : ℕ → ℕ
bit_not a = (2 ^ 64 - 1) - a

-- The ones that a number of a width begins with.
unfoldable pub leading_ones : ℕ → ℕ → ℕ
leading_ones zero a = 0
leading_ones (suc w) a =
    let rest = leading_ones w (a - 2 ^ w) in if leb (2 ^ w) a then suc rest else 0

unfoldable pub from_address : Address → AddressRange
from_address a = record { lo = a; hi = a }

unfoldable pub from_net : NetAddress → AddressRange
unfolding into_u64 bit_or
from_net n = record { lo = n.address; hi = bit_or 64 n.address (bit_not (into_u64 n.mask)) }

-- `none` where `expect` panics.
unfoldable pub to_net : AddressRange → Option NetAddress
unfolding try_from leading_ones bit_xor
to_net r = elim (try_from (leading_ones 64 (bit_not (bit_xor 64 r.lo r.hi)))) [
  | none ↦ none
  | some m ↦ some (record { address = r.lo; mask = m })
]

unfoldable pub cmp : AddressRange → AddressRange → Ordering
cmp a b = elim (compare a.hi b.lo) [
  | Ordering.lt ↦ elim (compare a.lo b.hi) [ Ordering.lt ↦ Ordering.lt | _ ↦ Ordering.eq ]
  | Ordering.gt ↦ elim (compare a.lo b.hi) [ Ordering.gt ↦ Ordering.gt | _ ↦ Ordering.eq ]
  | _ ↦ Ordering.eq
]
