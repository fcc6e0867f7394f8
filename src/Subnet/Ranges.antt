-- ===== src/Subnet/Ranges.antt =====
-- The order on ranges: overlap is equality, and disjoint ranges stand in a line.
use mm.Shared.{◌≤◌, ◌<◌, ◌≡◌, ◌↔◌, arith}
use Prim.Native.Nat.{Ordering, max}
use mm.Subnet.{Address, AddressRange, cmp}

-- The way ranges are constructed.
abbrev pub IsRange : AddressRange → Type 0
IsRange r = r.lo ≤ r.hi

-- On ranges, `cmp` says less exactly when the first ends before the second begins, greater exactly when it
-- begins after the second ends, and equal exactly when some address lies in both.
pub cmp_iff :
    (a b : AddressRange)
    → IsRange a
    → IsRange b
    → ((cmp a b ≡ Ordering.lt) ↔ (a.hi < b.lo))
      × ((cmp a b ≡ Ordering.gt) ↔ (b.hi < a.lo))
      × ((cmp a b ≡ Ordering.eq)
          ↔ ((x : Address) × (a.lo ≤ x) × (x ≤ a.hi) × (b.lo ≤ x) × (x ≤ b.hi)))
unfolding cmp
cmp_iff a b h k = (
  ground arith,
  ground arith,
  (
    λ e. (max a.lo b.lo, ground arith, ground arith, ground arith, ground arith),
    λ (x, p, q, r, s). ground arith,
  ),
)

-- Less is transitive on ranges.
pub cmp-lt_trans :
    (a b c : AddressRange)
    → IsRange a
    → IsRange b
    → IsRange c
    → cmp a b ≡ Ordering.lt
    → cmp b c ≡ Ordering.lt
    → cmp a c ≡ Ordering.lt
unfolding cmp
cmp-lt_trans a b c h k l e f = ground arith
