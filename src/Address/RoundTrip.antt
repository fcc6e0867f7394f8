-- ===== src/Address/RoundTrip.antt =====
-- Printing an address and reading it back.
use mm.Shared.{
  ℕ, zero, suc, ◌+◌, ◌-◌, ◌*◌, ◌%◌, ◌^◌, ◌≤◌, ◌<◌, ◌≡◌, refl, ap, sym, ◌∙◌, List, [], ◌∷◌, ◌++◌,
  map, length, take, drop, replicate, Option, some, none, All, false, arith, ltb, ◌==◌,
  if◌then◌else◌, Bool-cases, inl, inr, get_last?-append, drop_last-append, length-append,
  length-map, length-replicate, take-append-drop,
}
use Prim.Native.Nat.add
use mathlib.Core.List.{append_assoc, append-nil, map-append}
use mathlib.Core.Path.{◌≡⟨◌⟩◌, ◌∎}
use mm.Address.{
  Address, Span, shl, u64_mod, ch_gap, ch_open, ch_close, digits, from_digit, to_digit, parse_loop,
  parse_inner, from_str, best_span, to_chars,
}
use mm.Address.Value.{
  value, value-append, value-lt, value-replicate, pow16, pow16-le, two_pow, IsDigit, digits-IsDigit,
  length-digits, value-digits,
}
use mm.Address.Spans.{IsZeros, best_span-IsZeros, split_zeros}

-- Reading the text of a digit yields the digit, and no digit's text is the gap.
to_digit-from_digit :
    (d : ℕ) → IsDigit d → (to_digit (from_digit d) ≡ some d) × ((from_digit d == ch_gap) ≡ false)
unfolding to_digit from_digit
to_digit-from_digit d h = ground arith

zeros-IsDigit : (n : ℕ) → All IsDigit (replicate n 0)
zeros-IsDigit zero = tt
zeros-IsDigit (suc n) = (omega arith, zeros-IsDigit n)

shl_four : (x k : ℕ) → x < pow16 k → suc k ≤ 16 → shl x 4 ≡ 16 * x
unfolding pow16
shl_four x k h b = omega (arith, pow16-le (suc k) b)

-- The loop reads digits into the number that they write, as long as there are at most sixteen.
parse_loop-digits :
    (g : Option ℕ) (k out : ℕ) (ds cs : List ℕ)
    → All IsDigit ds
    → out < pow16 k
    → k + length ds ≤ 16
    → parse_loop g out (map from_digit ds ++ cs) ≡ parse_loop g (value out ds) cs
unfolding parse_loop value
parse_loop-digits g k out [] cs h b l = refl
parse_loop-digits g k out (d ∷ ds) cs h b l =
    let (e, n) = to_digit-from_digit d h.0 in
    let s : (shl out 4 + d) % u64_mod ≡ 16 * out + d =
      unfold pow16 in omega (arith, pow16-le (suc k) (omega arith)) in
    rw (n, e, parse_loop)
      (rw s (
        parse_loop-digits g (suc k) (16 * out + d) ds cs h.1 (unfold pow16 in omega arith)
          (omega arith)))

-- The gap stands for a run of zeros.
shl_gap :
    (v k l : ℕ)
    → v < pow16 k
    → k + suc l ≤ 16
    → shl (shl v 4) (4 * l) ≡ value v (replicate (suc l) 0)
shl_gap v k l b h =
    let small : value v (replicate (suc l) 0) < pow16 (k + suc l) =
      rw (length-replicate {A = ℕ} (suc l) 0) at
        (value-lt v k (replicate (suc l) 0) (zeros-IsDigit (suc l)) b) in
    rw (shl_four v k b (omega arith), two_pow l)
      (unfold pow16 in omega (arith, small, value-replicate v (suc l), pow16-le (k + suc l) h))

parse_inner-length :
    (bytes : List ℕ) (n : ℕ)
    → length bytes ≡ n
    → n ≤ 16
    → parse_inner bytes ≡ parse_loop (some (16 - n)) 0 bytes
unfolding parse_inner
parse_inner-length bytes n e h = ground arith

-- Digits up to the end.
parse_loop-rest :
    (g : Option ℕ) (k out : ℕ) (ds : List ℕ)
    → All IsDigit ds
    → out < pow16 k
    → k + length ds ≤ 16
    → parse_loop g out (map from_digit ds) ≡ some (value out ds)
unfolding parse_loop
parse_loop-rest g k out ds h b l =
    rw (append-nil (map from_digit ds)) at (parse_loop-digits g k out ds [] h b l)

parse_inner-gap :
    (l : ℕ) (left right : List ℕ)
    → All IsDigit left
    → All IsDigit right
    → length left + (suc (suc l) + length right) ≡ 16
    → parse_inner (map from_digit left ++ ch_gap ∷ map from_digit right)
      ≡ some (value 0 (left ++ (replicate (suc (suc l)) 0 ++ right)))
unfolding parse_loop
parse_inner-gap l left right hl hr e =
    let bytes : List ℕ = map from_digit left ++ ch_gap ∷ map from_digit right in
    let v : ℕ = value 0 left in
    let zs : List ℕ = replicate (suc (suc l)) 0 in
    let size : length bytes ≡ 16 - suc l = omega (
      arith,
      length-append (map from_digit left) (ch_gap ∷ map from_digit right),
      length-map from_digit left,
      length-map from_digit right,
      e,
    ) in
    let bound : v < pow16 (length left) =
      rw add.zero at (value-lt 0 0 left hl (unfold pow16 in omega arith)) in
    let bound' : value v zs < pow16 (length left + length zs) =
      value-lt v (length left) zs (zeros-IsDigit (suc (suc l))) bound in
    let len_zs : length zs ≡ suc (suc l) = length-replicate {A = ℕ} (suc (suc l)) 0 in
    let gap : 16 - (16 - suc l) ≡ suc l = omega arith in
    parse_inner bytes
    ≡⟨ parse_inner-length bytes (16 - suc l) size (omega arith) ⟩
      parse_loop (some (16 - (16 - suc l))) 0 bytes
    ≡⟨ ap (λ (g : ℕ). parse_loop (some g) 0 bytes) gap ⟩ parse_loop (some (suc l)) 0 bytes
    ≡⟨ parse_loop-digits (some (suc l)) 0 0 left (ch_gap ∷ map from_digit right) hl
        (unfold pow16 in omega arith) (omega arith) ⟩
      parse_loop none (shl (shl v 4) (4 * suc l)) (map from_digit right)
    ≡⟨ ap (λ (x : ℕ). parse_loop none x (map from_digit right))
        (shl_gap v (length left) (suc l) bound (omega arith)) ⟩
      parse_loop none (value v zs) (map from_digit right)
    ≡⟨ parse_loop-rest none (length left + length zs) (value v zs) right hr bound'
        (omega (arith, len_zs)) ⟩
      some (value (value v zs) right)
    ≡⟨ ap (λ (x : ℕ). some x) (sym (value-append 0 left (zs ++ right) ∙ value-append v zs right)) ⟩
      some (value 0 (left ++ (zs ++ right))) ∎

pub All-take : (n : ℕ) (ds : List ℕ) → All IsDigit ds → All IsDigit (take n ds)
All-take zero ds h = tt
All-take (suc n) [] h = tt
All-take (suc n) (d ∷ ds) h = (h.0, All-take n ds h.1)

pub All-drop : (n : ℕ) (ds : List ℕ) → All IsDigit ds → All IsDigit (drop n ds)
All-drop zero ds h = h
All-drop (suc n) [] h = tt
All-drop (suc n) (d ∷ ds) h = All-drop n ds h.1

from_str-quoted :
    (bytes : List ℕ) → from_str (ch_open ∷ (bytes ++ ch_close ∷ [])) ≡ parse_inner bytes
unfolding from_str
from_str-quoted bytes =
    rw (get_last?-append bytes ch_close, drop_last-append bytes ch_close, from_str)

read_gap :
    (s l : ℕ) (ds : List ℕ)
    → IsZeros ds (record { start = s; len = suc (suc l) })
    → All IsDigit ds
    → length ds ≡ 16
    → from_str (
        ch_open
        ∷ (map from_digit (take s ds)
            ++ ch_gap ∷ (map from_digit (drop (s + suc (suc l)) ds) ++ ch_close ∷ [])))
      ≡ some (value 0 ds)
read_gap s l ds z h e =
    let left = take s ds in
    let right = drop (s + suc (suc l)) ds in
    let zs : List ℕ = replicate (suc (suc l)) 0 in
    let split : ds ≡ left ++ (zs ++ right) = split_zeros s (suc (suc l)) ds z in
    let size : length left + (suc (suc l) + length right) ≡ 16 = omega (
      arith,
      e,
      ap (λ (xs : List ℕ). length xs) split,
      length-append left (zs ++ right),
      length-append zs right,
      length-replicate {A = ℕ} (suc (suc l)) 0,
    ) in
    ap (λ (bytes : List ℕ). from_str (ch_open ∷ bytes))
      (sym (append_assoc (map from_digit left) (ch_gap ∷ map from_digit right) (ch_close ∷ [])))
    ∙ from_str-quoted (map from_digit left ++ ch_gap ∷ map from_digit right)
    ∙ parse_inner-gap l left right (All-take s ds h) (All-drop (s + suc (suc l)) ds h) size
    ∙ ap (λ (xs : List ℕ). some (value 0 xs)) (sym split)

read_plain :
    (s : ℕ) (ds : List ℕ)
    → All IsDigit ds
    → length ds ≡ 16
    → from_str
        (ch_open ∷ (map from_digit (take s ds) ++ (map from_digit (drop s ds) ++ ch_close ∷ [])))
      ≡ some (value 0 ds)
read_plain s ds h e =
    let whole : map from_digit (take s ds) ++ map from_digit (drop s ds) ≡ map from_digit ds =
      sym (map-append from_digit (take s ds) (drop s ds))
      ∙ ap (λ (xs : List ℕ). map from_digit xs) (take-append-drop s ds) in
    let size : length (map from_digit ds) ≡ 16 = length-map from_digit ds ∙ e in
    ap (λ (bytes : List ℕ). from_str (ch_open ∷ bytes))
      (sym (append_assoc (map from_digit (take s ds)) (map from_digit (drop s ds)) (ch_close ∷ []))
        ∙ ap (λ (xs : List ℕ). xs ++ ch_close ∷ []) whole)
    ∙ from_str-quoted (map from_digit ds)
    ∙ parse_inner-length (map from_digit ds) 16 size (omega arith)
    ∙ parse_loop-rest (some (16 - 16)) 0 0 ds h (unfold pow16 in omega arith) (omega (arith, e))

-- For every address below 2^64, reading the text that `to_chars` prints yields the address, whether
-- the text has a gap or not.
pub from_str-to_chars : (u : Address) → u < 2 ^ 64 → from_str (to_chars u) ≡ some u
unfolding to_chars
from_str-to_chars u h =
    read (best_span (digits u)) (best_span-IsZeros (digits u))
    ∙ ap (λ (x : ℕ). some x) (value-digits u h)
  where
    read :
        (b : Span)
        → IsZeros (digits u) b
        → from_str (
            if ltb 1 b.len
            then ch_open
              ∷ (map from_digit (take b.start (digits u))
                  ++ ch_gap ∷ (map from_digit (drop (b.start + b.len) (digits u)) ++ ch_close ∷ []))
            else ch_open
              ∷ (map from_digit (take b.start (digits u))
                  ++ (map from_digit (drop b.start (digits u)) ++ ch_close ∷ [])))
          ≡ some (value 0 (digits u))
    read b z = elim (Bool-cases (ltb 1 b.len)) [
      | inl e ↦
          let two : b.len ≡ suc (suc (b.len - 2)) = ground arith in
          rw e (
            rw two (
              read_gap b.start (b.len - 2) (digits u) (λ i lo hi. z i lo (omega arith))
                (digits-IsDigit u h) (length-digits u)))
      | inr e ↦ rw e (read_plain b.start (digits u) (digits-IsDigit u h) (length-digits u))
    ]
