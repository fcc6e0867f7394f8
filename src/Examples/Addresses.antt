-- ===== src/Examples/Addresses.antt =====
-- Addresses of the tests in libs/mm1-address/src/address.rs.
use Prim.Native.Char.{code}
use Prim.Native.String.{String}
use mm.Shared.{ℕ, ◌≡◌, refl, List, [], ◌∷◌, some, none, arith, ◌<◌, ◌≤◌, ◌^◌}
use mm.Address.{from_str, to_chars, to_digit}
use mm.Address.RoundTrip.{from_str-to_chars}
use mm.Subnet.{NetAddress, try_from}
use mm.Subnet.Text.{
  ok, err, invalid_mask, parse_mask_error, read_digits, read_u8, read_mask, split_slash, read_net,
  print_net,
}
use mm.Subnet.Reading.{read_net-print_net, read_net-lt}

abbrev codes : String → List ℕ
codes String.[] = []
codes (String.◌∷◌ c s) = code c ∷ codes s

from_str-to_chars_example : from_str (to_chars 0xFF000000FF00FF00) ≡ some 0xFF000000FF00FF00
from_str-to_chars_example = from_str-to_chars 0xFF000000FF00FF00 (omega arith)

prints_gap : to_chars 0xFF000000FF00FF00 ≡ codes "<ff:ff00ff00>"
unfolding to_chars
prints_gap = refl

prints_first_longest : to_chars 0xFF0000FF0000FF00 ≡ codes "<ff:ff0000ff00>"
unfolding to_chars
prints_first_longest = refl

reads_gap : from_str (codes "<ff:ff0000ff00>") ≡ some 0xFF0000FF0000FF00
unfolding from_str to_digit
reads_gap = refl

two_gaps : from_str (codes "<ff:0:1>") ≡ none
unfolding from_str to_digit
two_gaps = refl

abbrev net : NetAddress
net = record { address = 0xFF00000000000000; mask = 8 }

read_net-print_net_example : read_net (print_net net) ≡ ok net
read_net-print_net_example = read_net-print_net net (omega arith) (omega arith)

reads_net : read_net (codes "<ff:00>/8") ≡ ok net
unfolding read_net read_mask read_u8 read_digits split_slash from_str to_digit try_from
reads_net = refl

mask_too_large : read_net (codes "<ff:00>/65") ≡ err (parse_mask_error (invalid_mask 65))
unfolding read_net read_mask read_u8 read_digits split_slash from_str to_digit try_from
mask_too_large = refl

read_net-lt_example : (0xFF00000000000000 < 2 ^ 64) × (8 ≤ 64)
read_net-lt_example = read_net-lt (codes "<ff:00>/8") net reads_net
