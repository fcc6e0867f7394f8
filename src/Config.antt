-- ===== src/Config.antt =====
-- core/mm1-node/src/config/validation.rs: the test of the local networks for overlaps. The `BTreeSet` of
-- ranges is an ordered map to nothing. The texts of the errors are the networks that they name.
pub mod Overlaps
pub mod Actor
pub mod Runtimes
pub mod Validation
pub mod Errors
pub mod Validity
pub mod Executors
pub mod Networks
use mm.Shared.{List, [], ◌∷◌, Option, none, some}
use mm.Shared.Ordered.{find, put}
use mm.Subnet.{NetAddress, AddressRange, from_net, to_net, cmp}

abbrev pub Nets : Type 0
Nets = List (AddressRange × Unit {0})

-- `conflicts.push` of a network and the one whose range was found, before the other conflicts.
unfoldable pub report :
    NetAddress
    → Option NetAddress
    → Option (List (NetAddress × NetAddress))
    → Option (List (NetAddress × NetAddress))
report this none rest = none
report this (some that) none = none
report this (some that) (some c) = some ((this, that) ∷ c)

-- The networks of the conflicts, each with the network that was there before; `none` where the range of
-- the latter is no network's, which panics.
unfoldable pub overlapping_nets : Nets → List NetAddress → Option (List (NetAddress × NetAddress))
unfolding find put cmp report
overlapping_nets nets [] = some []
overlapping_nets nets (this ∷ l) =
    let rest = overlapping_nets nets l in
    let grown = overlapping_nets (put cmp (from_net this) tt nets) l in
    elim (find cmp (from_net this) nets) [
      | none ↦ grown
      | some (range, u) ↦ report this (to_net range) rest
    ]

unfoldable pub overlapping_local_nets : List NetAddress → Option (List (NetAddress × NetAddress))
unfolding overlapping_nets
overlapping_local_nets l = overlapping_nets [] l
