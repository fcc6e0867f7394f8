-- ===== src/Multinode/Route/Single.antt =====
-- A registry with one route: which addresses it answers for.
use mm.Shared.{
  ℕ, suc, ◌≤◌, ◌<◌, ◌+◌, ◌-◌, ◌*◌, ◌^◌, ◌≡◌, refl, ◌∙◌, [], ◌∷◌, Option, none, some, true, arith,
}
use mm.Shared.SlotMap.{SlotMap}
use mm.Shared.Ordered.{find, put}
use mm.Subnet.{Address, NetAddress, AddressRange, from_net, to_net}
use mm.Subnet.Bits.{to_net-from_net, pow_le}
use mm.Multinode.Route.{LocalTypeKey, RouteMetric, RouteEntry, ok, same_net, RouteRegistry, default}
use mm.Multinode.Route.Update.{
  Result, set_route, set_route_via, guard_net, update_route, add_route, attach, has_key, keys_at,
}

-- The network's address is a multiple of the size of its range, which lies below 2^64.
pub record IsNetwork (n : NetAddress) : Type 0 where
  pub index : ℕ
  pub mask_le : n.mask ≤ 64
  pub aligned : n.address ≡ index * 2 ^ (64 - n.mask)
  pub fits : n.address + 2 ^ (64 - n.mask) ≤ 2 ^ 64

pub IsNetwork-to_net : (n : NetAddress) → IsNetwork n → to_net (from_net n) ≡ some n
IsNetwork-to_net n h = (to_net-from_net n h.index h.mask_le h.aligned h.fits).0

pub IsNetwork-last :
    (n : NetAddress)
    → IsNetwork n
    → ((from_net n).lo ≡ n.address)
      × (suc (from_net n).hi ≡ n.address + 2 ^ (64 - n.mask))
      × (0 < 2 ^ (64 - n.mask))
unfolding from_net
IsNetwork-last n h =
    let last = (to_net-from_net n h.index h.mask_le h.aligned h.fits).1 in
    let positive = pow_le 0 (64 - n.mask) (omega arith) in
    (refl, omega (arith, last, positive), positive)

same_net_refl : (n : NetAddress) → same_net n n ≡ true
same_net_refl n = ground arith

module _ (slots : SlotMap RouteEntry) where
  open slots use {Key, Slots, key_eq, get-insert}

  abbrev pub route : LocalTypeKey → NetAddress → Option Address → RouteMetric → RouteEntry
  route message net gw metric = record {
    message = message;
    dst_net = net;
    gw = gw;
    metric = metric;
  }

  -- The registry with one route.
  abbrev pub single : LocalTypeKey → NetAddress → Option Address → RouteMetric → RouteRegistry slots
  single message net gw metric =
      let (entries, key) = slots.insert slots.empty (route message net gw metric) in
      record {
        route_entries = entries;
        by_gw = ((gw, from_net net, message), key) ∷ [];
        by_dst = ((from_net net, message, metric), key ∷ []) ∷ [];
      }

  add_route-default :
      (message : LocalTypeKey) (n : NetAddress) (gw : Option Address) (metric : RouteMetric)
      → add_route slots (default slots) message n gw metric ≡ ok (single message n gw metric, none)
  unfolding add_route default attach has_key keys_at find put
  add_route-default message n gw metric = refl

  pub guard_net-same :
      (n : NetAddress) (range : AddressRange) (rest : Result slots)
      → to_net range ≡ some n
      → guard_net slots n range rest ≡ rest
  unfolding guard_net
  guard_net-same n range rest e = rw (guard_net, e, same_net_refl n) refl

  pub set_route-default :
      (message : LocalTypeKey) (n : NetAddress) (gw : Option Address) (metric : RouteMetric)
      → IsNetwork n
      → set_route slots (default slots) message n gw (some metric)
        ≡ ok (single message n gw metric, none)
  unfolding set_route set_route_via update_route default find
  set_route-default message n gw metric h =
      guard_net-same n (from_net n) _ (IsNetwork-to_net n h)
      ∙ guard_net-same n (from_net n) _ (IsNetwork-to_net n h)
      ∙ add_route-default message n gw metric
