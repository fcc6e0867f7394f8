-- ===== src/Examples/Numbers.antt =====
-- The order of the native numbers, for the examples.
use mm.Shared.{ℕ, ◌≡◌, arith}
use Prim.Native.Nat.{Ordering, compare}
use mm.Shared.Ordered.{NameOrder}

pub compare_eq : (a b : ℕ) → compare a b ≡ Ordering.eq → a ≡ b
compare_eq a b h = ground arith

pub compare_refl : (a : ℕ) → compare a a ≡ Ordering.eq
compare_refl a = ground arith

pub compare_gt : (a b : ℕ) → compare a b ≡ Ordering.gt → compare b a ≡ Ordering.lt
compare_gt a b h = ground arith

pub compare_lt : (a b : ℕ) → compare a b ≡ Ordering.lt → compare b a ≡ Ordering.gt
compare_lt a b h = ground arith

pub compare_trans :
    (a b c : ℕ) → compare a b ≡ Ordering.lt → compare b c ≡ Ordering.lt → compare a c ≡ Ordering.lt
compare_trans a b c h k = ground arith

abbrev pub order : NameOrder ℕ
order = record {
  cmp = compare;
  cmp_eq = compare_eq;
  cmp_refl = compare_refl;
  cmp_gt = compare_gt;
  cmp_lt = compare_lt;
  cmp_trans = compare_trans;
}
