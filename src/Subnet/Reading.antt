-- ===== src/Subnet/Reading.antt =====
-- libs/mm1-address/src/subnet.rs: networks are read as they were printed.
use mm.Shared.{
  ℕ, ◌+◌, ◌-◌, ◌*◌, ◌%◌, ◌^◌, ◌≤◌, ◌<◌, ◌≡◌, ◌≢◌, refl, List, [], ◌∷◌, ◌++◌, map, take, drop,
  Option, none, some, All, All-append, arith, ltb, ◌==◌, Bool-cases, Option-cases, inl, inr,
  get_last?, drop_last, length,
}
use mm.Address.{
  Address, digits, from_digit, to_digit, best_span, to_chars, from_str, parse_inner, parse_loop,
  shl, ch_gap, ch_open, ch_close,
}
use mm.Address.Value.{IsDigit, digits-IsDigit}
use mm.Address.RoundTrip.{from_str-to_chars, All-take, All-drop}
use mm.Subnet.{NetMask, NetAddress, try_from}
use mm.Subnet.Text.{
  ok, ch_slash, read_digits, read_u8, print_u8, read_mask, split_slash, read_net, print_net,
}

from_digit-ne-slash : (d : ℕ) → IsDigit d → from_digit d ≢ ch_slash
unfolding from_digit
from_digit-ne-slash d h = ground arith

map-ne-slash : (ds : List ℕ) → All IsDigit ds → All (λ c. c ≢ ch_slash) (map from_digit ds)
map-ne-slash [] h = tt
map-ne-slash (d ∷ ds) h = (from_digit-ne-slash d h.0, map-ne-slash ds h.1)

around :
    (left right : List ℕ)
    → All (λ c. c ≢ ch_slash) left
    → All (λ c. c ≢ ch_slash) right
    → All (λ c. c ≢ ch_slash) (ch_open ∷ (left ++ right))
around left right h k = (ground arith, All-append (λ c. c ≢ ch_slash) left right h k)

closed :
    (right : List ℕ)
    → All (λ c. c ≢ ch_slash) right
    → All (λ c. c ≢ ch_slash) (right ++ ch_close ∷ [])
closed right h = All-append (λ c. c ≢ ch_slash) right (ch_close ∷ []) h (ground arith, tt)

-- The text of an address has no slash.
to_chars-ne-slash : (u : Address) → u < 2 ^ 64 → All (λ c. c ≢ ch_slash) (to_chars u)
unfolding to_chars
to_chars-ne-slash u h =
    let ds = digits u in
    let b = best_span ds in
    let left = map-ne-slash (take b.start ds) (All-take b.start ds (digits-IsDigit u h)) in
    elim (Bool-cases (ltb 1 b.len)) [
      | inl e ↦
          rw (to_chars, e)
            (around (map from_digit (take b.start ds)) _ left (
              ground arith,
              closed (map from_digit (drop (b.start + b.len) ds)) (
                  map-ne-slash (drop (b.start + b.len) ds)
                    (All-drop (b.start + b.len) ds (digits-IsDigit u h))),
            ))
      | inr e ↦
          rw (to_chars, e)
            (around (map from_digit (take b.start ds)) _ left (
              closed (map from_digit (drop b.start ds))
                (map-ne-slash (drop b.start ds) (All-drop b.start ds (digits-IsDigit u h)))))
    ]

split_slash-append :
    (a b : List ℕ) → All (λ c. c ≢ ch_slash) a → split_slash (a ++ ch_slash ∷ b) ≡ some (a, b)
unfolding split_slash
split_slash-append [] b h = ground arith
split_slash-append (c ∷ a) b h = ground (arith, h.0, split_slash-append a b h.1)

read_u8-print_u8 : (n : ℕ) → n ≤ 64 → read_u8 (print_u8 n) ≡ some n
unfolding read_u8 print_u8 read_digits
read_u8-print_u8 n h = ground arith

-- A mask of at most 64 is read from its decimal form.
read_mask-print_u8 : (m : NetMask) → m ≤ 64 → read_mask (print_u8 m) ≡ ok m
unfolding read_mask try_from
read_mask-print_u8 m h = ground (arith, read_u8-print_u8 m h)

-- A network with an address below 2^64 and a mask of at most 64 is read back from its text.
pub read_net-print_net :
    (n : NetAddress) → n.address < 2 ^ 64 → n.mask ≤ 64 → read_net (print_net n) ≡ ok n
unfolding read_net print_net
read_net-print_net n h k =
    rw
      (
        print_net,
        split_slash-append (to_chars n.address) (print_u8 n.mask) (to_chars-ne-slash n.address h),
        read_net,
        from_str-to_chars n.address h,
        read_mask-print_u8 n.mask k,
      )
      refl

parse_loop-lt :
    (gap : Option ℕ) (out : ℕ) (cs : List ℕ) (u : ℕ)
    → out < 2 ^ 64
    → parse_loop gap out cs ≡ some u
    → u < 2 ^ 64
unfolding parse_loop
parse_loop-lt gap out [] u h e = ground (arith, e)
parse_loop-lt gap out (c ∷ cs) u h e = elim (Bool-cases (c == ch_gap)) [
  | inl p ↦ elim (Option-cases gap) [
    | inl q ↦ absurd (cc (rw (parse_loop, p, q) at e))
    | inr (g, q) ↦
        parse_loop-lt none (shl (shl out 4) (4 * g)) cs u (omega arith) (rw (parse_loop, p, q) at e)
  ]
  | inr p ↦ elim (Option-cases (to_digit c)) [
    | inl q ↦ absurd (cc (rw (parse_loop, p, q) at e))
    | inr (d, q) ↦
        parse_loop-lt gap ((shl out 4 + d) % 2 ^ 64) cs u (omega arith) (rw (parse_loop, p, q) at e)
  ]
]

from_str-lt : (s : List ℕ) (u : Address) → from_str s ≡ some u → u < 2 ^ 64
unfolding from_str parse_inner
from_str-lt [] u e = absurd (cc)
from_str-lt (c ∷ cs) u e = elim (Option-cases (get_last? cs)) [
  | inl p ↦ absurd (cc (rw (from_str, p) at e))
  | inr (l, p) ↦ ground (
    arith,
    rw (from_str, p) at e,
    parse_loop-lt (some (16 - length (drop_last cs))) 0 (drop_last cs) u (omega arith),
  )
]

-- Whatever text is read as a network, its address is below 2^64 and its mask at most 64.
pub read_net-lt :
    (s : List ℕ) (n : NetAddress) → read_net s ≡ ok n → (n.address < 2 ^ 64) × (n.mask ≤ 64)
unfolding read_net read_mask try_from
read_net-lt s n e = elim (Option-cases (split_slash s)) [
  | inl p ↦ absurd (cc (rw (read_net, p) at e))
  | inr ((a, m), p) ↦ elim (Option-cases (from_str a)) [
    | inl q ↦ absurd (cc (rw (read_net, p, q) at e))
    | inr (u, q) ↦ elim (Option-cases (read_u8 m)) [
      | inl i ↦ absurd (cc (rw (read_net, p, q, read_mask, i) at e))
      | inr (v, i) ↦
          let e' = rw (read_net, p, q, read_mask, i) at e in ground (arith, from_str-lt a u q, e')
    ]
  ]
]
