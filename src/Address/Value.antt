-- ===== src/Address/Value.antt =====
-- Sixteen hexadecimal digits and the number that they write.
use mm.Shared.{
  ℕ, zero, suc, ◌+◌, ◌-◌, ◌*◌, ◌/◌, ◌^◌, ◌≤◌, ◌<◌, ◌≡◌, refl, ap, List, [], ◌∷◌, ◌++◌, length,
  replicate, All, arith,
}
use Prim.Native.Nat.add
use native.Mathlib.Numerals.{towards_suc}
use native.Mathlib.Nat.{add-zero, add-suc, suc-add}
use mm.Address.{digits, digits_loop, shl}

-- Powers of sixteen.
unfoldable pub pow16 : ℕ → ℕ
pow16 zero = 1
pow16 (suc n) = 16 * pow16 n

-- The number that digits write behind what was read before them.
unfoldable pub value : ℕ → List ℕ → ℕ
value acc [] = acc
value acc (d ∷ ds) = value (16 * acc + d) ds

pub value-append : (a : ℕ) (xs ys : List ℕ) → value a (xs ++ ys) ≡ value (value a xs) ys
unfolding value
value-append a [] ys = refl
value-append a (x ∷ xs) ys = value-append (16 * a + x) xs ys

abbrev pub IsDigit : ℕ → Type 0
IsDigit d = d < 16

pub value-lt :
    (a k : ℕ) (ds : List ℕ) → All IsDigit ds → a < pow16 k → value a ds < pow16 (k + length ds)
unfolding value
value-lt a k [] h b = rw add-zero b
value-lt a k (d ∷ ds) h b =
    rw (add-suc, ← suc-add) (value-lt (16 * a + d) (suc k) ds h.1 (unfold pow16 in omega arith))

pub value-replicate : (a n : ℕ) → value a (replicate n 0) ≡ a * pow16 n
unfolding value pow16
value-replicate a zero = omega arith
value-replicate a (suc n) = omega (arith, value-replicate (16 * a + 0) n)

pow16-grows : (k n : ℕ) → pow16 n ≤ pow16 (k + n)
unfolding pow16
pow16-grows zero n = rw add.zero (omega arith)
pow16-grows (suc k) n = rw suc-add (omega (arith, pow16-grows k n))

pub pow16-le : (n : ℕ) → n ≤ 16 → pow16 n ≤ 2 ^ 64
unfolding pow16
pow16-le n h =
    let e : (16 - n) + n ≡ 16 = omega arith in
    let g : pow16 n ≤ pow16 16 = rw e at (pow16-grows (16 - n) n) in omega (arith, g)

pub two_pow : (n : ℕ) → 2 ^ (4 * n) ≡ pow16 n
unfolding pow16
two_pow zero = refl
two_pow (suc n) =
    let e : 4 * suc n ≡ 4 * n + 4 = omega arith in
    rw e (simp towards_suc (omega (arith, two_pow n)))

pub length-digits_loop : (n u : ℕ) → length (digits_loop n u) ≡ n
unfolding digits_loop
length-digits_loop zero u = refl
length-digits_loop (suc n) u = omega (arith, length-digits_loop n (shl u 4))

digits_loop-IsDigit : (n u : ℕ) → u < 2 ^ 64 → All IsDigit (digits_loop n u)
unfolding digits_loop
digits_loop-IsDigit zero u h = tt
digits_loop-IsDigit (suc n) u h = (omega arith, digits_loop-IsDigit n (shl u 4) (omega arith))

pub digits-IsDigit : (u : ℕ) → u < 2 ^ 64 → All IsDigit (digits u)
unfolding digits
digits-IsDigit u h = digits_loop-IsDigit 16 u h

pub length-digits : (u : ℕ) → length (digits u) ≡ 16
unfolding digits
length-digits u = length-digits_loop 16 u

-- What the digits read so far and the shifted rest stand for.
value-digits_loop :
    (n a u : ℕ)
    → u < 2 ^ 64
    → (r : ℕ) × (r < 2 ^ 64) × (2 ^ 64 * value a (digits_loop n u) + r ≡ (2 ^ 64 * a + u) * pow16 n)
unfolding digits_loop value pow16
value-digits_loop zero a u h = (u, h, omega arith)
value-digits_loop (suc n) a u h =
    let (r, b, e) = value-digits_loop n (16 * a + u / 2 ^ 60) (shl u 4) (omega arith) in
    let s : 16 * u ≡ 2 ^ 64 * (u / 2 ^ 60) + shl u 4 = omega arith in
    (r, b, omega (arith, e, ap (λ (t : ℕ). t * pow16 n) s))

-- The sixteen digits of an address write the address.
pub value-digits : (u : ℕ) → u < 2 ^ 64 → value 0 (digits u) ≡ u
unfolding digits pow16
value-digits u h = let (r, b, e) = value-digits_loop 16 0 u h in omega (arith, b, e)
