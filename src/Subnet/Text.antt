-- ===== src/Subnet/Text.antt =====
-- libs/mm1-address/src/subnet.rs: the text form of masks and networks. A text is the list of its bytes, as for
-- addresses. `u8::from_str` and the decimal form of a `u8` are those of the standard library.
use mm.Shared.{
  ℕ, ◌+◌, ◌-◌, ◌*◌, ◌/◌, ◌%◌, List, [], ◌∷◌, ◌++◌, Option, none, some, ◌&&◌, ltb, leb, ◌==◌,
  if◌then◌else◌,
}
use mm.Address.{to_chars, from_str}
use mm.Subnet.{NetMask, NetAddress, try_from}

abbrev pub ch_slash : ℕ
ch_slash = b'/'

abbrev pub ch_plus : ℕ
ch_plus = b'+'

pub data MaskParseError : Type 0 where
  invalid_mask : ℕ → MaskParseError
  parse_int_error : MaskParseError

pub data NetAddressParseError : Type 0 where
  no_slash parse_addr_error : NetAddressParseError
  parse_mask_error : MaskParseError → NetAddressParseError

pub data Read (A E : Type 0) : Type 0 where
  ok : A → Read A E
  err : E → Read A E

-- The digits of a number that fits a `u8`, after the number that was read before them.
unfoldable pub read_digits : ℕ → List ℕ → Option ℕ
read_digits out [] = some out
read_digits out (c ∷ cs) =
    let next = 10 * out + (c - b'0') in
    let rest = read_digits next cs in
    if leb b'0' c && leb c b'9' && leb next 255 then rest else none

-- `u8::from_str`, which takes a `+` before the digits.
unfoldable pub read_u8 : List ℕ → Option ℕ
unfolding read_digits
read_u8 [] = none
read_u8 (c ∷ []) = if c == ch_plus then none else read_digits 0 (c ∷ [])
read_u8 (c ∷ d ∷ cs) = if c == ch_plus then read_digits 0 (d ∷ cs) else read_digits 0 (c ∷ d ∷ cs)

-- The decimal form of a `u8`.
unfoldable pub print_u8 : ℕ → List ℕ
print_u8 n =
    if ltb n 10
    then (b'0' + n) ∷ []
    else if ltb n 100
    then (b'0' + n / 10) ∷ (b'0' + n % 10) ∷ []
    else (b'0' + n / 100) ∷ (b'0' + n / 10 % 10) ∷ (b'0' + n % 10) ∷ []

unfoldable pub read_mask : List ℕ → Read NetMask MaskParseError
unfolding read_u8 try_from
read_mask s = elim (read_u8 s) [
  | none ↦ err parse_int_error
  | some value ↦ elim (try_from value) [ none ↦ err (invalid_mask value) | some m ↦ ok m ]
]

-- `split_once('/')`
unfoldable pub split_slash : List ℕ → Option (List ℕ × List ℕ)
split_slash [] = none
split_slash (c ∷ cs) =
    let rest = split_slash cs in
    if c == ch_slash
    then some ([], cs)
    else elim rest [ none ↦ none | some (a, b) ↦ some (c ∷ a, b) ]

unfoldable pub read_net : List ℕ → Read NetAddress NetAddressParseError
unfolding split_slash read_mask from_str
read_net s = elim (split_slash s) [
  | none ↦ err no_slash
  | some (addr, mask) ↦ elim (from_str addr) [
    | none ↦ err parse_addr_error
    | some address ↦ elim (read_mask mask) [
      | err e ↦ err (parse_mask_error e)
      | ok m ↦ ok (record { address = address; mask = m })
    ]
  ]
]

unfoldable pub print_net : NetAddress → List ℕ
unfolding to_chars print_u8
print_net n = to_chars n.address ++ (ch_slash ∷ print_u8 n.mask)
