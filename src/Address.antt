-- ===== src/Address.antt =====
-- libs/mm1-address/src/address.rs: addresses and their text form. An address is a number below 2^64 and
-- a text the list of its bytes. The shifts of a `u64` are products and quotients by powers of two, cut
-- off at 2^64; the serde implementations hand the text or the number on and are left out.
pub mod Value
pub mod Spans
pub mod RoundTrip
use mm.Shared.{
  ℕ, zero, suc, ◌+◌, ◌-◌, ◌*◌, ◌/◌, ◌%◌, ◌^◌, ◌<◌, List, [], ◌∷◌, ◌++◌, map, Option, none, some,
  Bool, true, false, ◌&&◌, leb, ltb, ◌==◌, if◌then◌else◌, length, take, drop, get_last?, drop_last,
}

abbrev pub Address : Type 0
Address = ℕ

abbrev pub u64_mod : ℕ
u64_mod = 2 ^ 64

-- `u << k`
abbrev pub shl : ℕ → ℕ → ℕ
shl u k = u * 2 ^ k % u64_mod

abbrev pub ch_gap : ℕ
ch_gap = b':'

abbrev pub ch_open : ℕ
ch_open = b'<'

abbrev pub ch_close : ℕ
ch_close = b'>'

-- `n` rounds of the loop of `digits`: `(u & 0xF000_0000_0000_0000) >> 60` is the quotient by 2^60.
unfoldable pub digits_loop : ℕ → ℕ → List ℕ
digits_loop zero u = []
digits_loop (suc n) u = (u / 2 ^ 60) ∷ digits_loop n (shl u 4)

unfoldable pub digits : ℕ → List ℕ
unfolding digits_loop
digits u = digits_loop 16 u

-- `char::from_digit(d, 16)`
unfoldable pub from_digit : ℕ → ℕ
from_digit d = if ltb d 10 then b'0' + d else b'a' + (d - 10)

-- `char::to_digit(16)`
unfoldable pub to_digit : ℕ → Option ℕ
to_digit c =
    if leb b'0' c && leb c b'9'
    then some (c - b'0')
    else if leb b'a' c && leb c b'f'
    then some (c - b'a' + 10)
    else if leb b'A' c && leb c b'F'
    then some (c - b'A' + 10)
    else none

-- The loop of `from_str`, with its variables `gap_len` and `out`.
unfoldable pub parse_loop : Option ℕ → ℕ → List ℕ → Option ℕ
parse_loop gap_len out [] = some out
parse_loop gap_len out (c ∷ cs) =
    if c == ch_gap
    then elim gap_len [ none ↦ none | some gap ↦ parse_loop none (shl (shl out 4) (4 * gap)) cs ]
    else elim (to_digit c) [
      | none ↦ none
      | some d ↦ parse_loop gap_len ((shl out 4 + d) % u64_mod) cs
    ]

-- `bytes[1..bytes.len() - 1]`, once the first and the last byte are known.
unfoldable pub parse_inner : List ℕ → Option ℕ
unfolding parse_loop
parse_inner bytes =
    if ltb 16 (length bytes) then none else parse_loop (some (16 - length bytes)) 0 bytes

unfoldable pub from_str : List ℕ → Option Address
unfolding parse_inner
from_str [] = none
from_str (c ∷ cs) = elim (get_last? cs) [
  | none ↦ none
  | some l ↦ if c == ch_open && l == ch_close then parse_inner (drop_last cs) else none
]

pub record Span : Type 0 where
  pub start : ℕ
  pub len : ℕ

abbrev pub longer : Span → Span → Span
longer this best = if ltb best.len this.len then this else best

-- The loop of `to_chars` that finds the first longest run of zeros, and the comparison after it.
unfoldable pub spans_loop : ℕ → Span → Span → List ℕ → Span
spans_loop idx this best [] = longer this best
spans_loop idx this best (d ∷ ds) =
    spans_loop (suc idx)
      (if d == 0 then record this { len = this.len + 1 } else record { start = idx + 1; len = 0 })
      (if d == 0 then best else longer this best) ds

unfoldable pub best_span : List ℕ → Span
unfolding spans_loop
best_span ds = spans_loop 0 (record { start = 0; len = 0 }) (record { start = 0; len = 0 }) ds

unfoldable pub to_chars : Address → List ℕ
unfolding digits from_digit best_span
to_chars u =
    let ds = digits u in
    let best = best_span ds in
    let left = map from_digit (take best.start ds) in
    if ltb 1 best.len
    then ch_open
      ∷ (left ++ ch_gap ∷ (map from_digit (drop (best.start + best.len) ds) ++ ch_close ∷ []))
    else ch_open ∷ (left ++ (map from_digit (drop best.start ds) ++ ch_close ∷ []))
