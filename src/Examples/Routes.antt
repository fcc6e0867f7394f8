-- ===== src/Examples/Routes.antt =====
-- The network of the 256 addresses from 512 on, and a route to it.
use mm.Shared.{◌≡◌, refl}
use Prim.Native.Nat.{Ordering}
use mm.Shared.SlotMap.{SlotMap, vacant_slots}
use mm.Subnet.{NetAddress, AddressRange, cmp}
use mm.Multinode.Route.{RouteEntry}

abbrev net : NetAddress
net = record { address = 512; mask = 56 }

abbrev low : AddressRange
low = record { lo = 5; hi = 9 }

abbrev middle : AddressRange
middle = record { lo = 12; hi = 20 }

abbrev high : AddressRange
high = record { lo = 31; hi = 31 }

low_lt : cmp low middle ≡ Ordering.lt
unfolding cmp
low_lt = refl

middle_lt : cmp middle high ≡ Ordering.lt
unfolding cmp
middle_lt = refl

abbrev slots : SlotMap RouteEntry
slots = vacant_slots RouteEntry
