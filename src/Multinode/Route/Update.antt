-- ===== src/Multinode/Route/Update.antt =====
-- `RouteRegistry::set_route` of components/mm1-multinode/src/route_registry.rs.
use mm.Shared.{List, [], ◌∷◌, Option, none, some, Bool, true, false, ◌==◌, if◌then◌else◌, ite}
use mm.Shared.SlotMap.{SlotMap}
use mm.Shared.Ordered.{find, put, delete}
use mm.Subnet.{Address, NetAddress, AddressRange, from_net, to_net}
use mm.Multinode.Route.{
  LocalTypeKey, RouteMetric, RouteEntry, SetRouteError, conflict, Answer, ok, refused, panicked,
  DstKey, GwKey, cmp_dst, cmp_gw, same_net, RouteRegistry,
}

module _ (slots : SlotMap RouteEntry) where
  open slots use {Key, Slots, key_eq}

  abbrev Registry : Type 0
  Registry = RouteRegistry slots

  -- The members of a `HashSet` of routes.
  unfoldable pub has_key : Key → List Key → Bool
  has_key k [] = false
  has_key k (j ∷ l) = ite (key_eq j k) true (has_key k l)

  unfoldable pub drop_key : Key → List Key → List Key
  drop_key k [] = []
  drop_key k (j ∷ l) = let rest = drop_key k l in ite (key_eq j k) l (j ∷ rest)

  -- The set under a key, empty if the entry is vacant.
  unfoldable pub keys_at : DstKey → List (DstKey × List Key) → List Key
  unfolding find cmp_dst
  keys_at k m = elim (find cmp_dst k m) [ none ↦ [] | some (j, keys) ↦ keys ]

  unfoldable pub attach : DstKey → Key → List (DstKey × List Key) → List (DstKey × List Key)
  unfolding put cmp_dst has_key keys_at
  attach k key m =
      let keys = keys_at k m in if has_key key keys then m else put cmp_dst k (key ∷ keys) m

  -- `none` where the entry or the route is missing, which panics.
  unfoldable pub detach :
      DstKey → Key → List (DstKey × List Key) → Option (List (DstKey × List Key))
  unfolding put delete find cmp_dst has_key drop_key
  detach k key m = elim (find cmp_dst k m) [
    | none ↦ none
    | some (j, keys) ↦
        if has_key key keys
        then elim (drop_key key keys) [
          | [] ↦ some (delete cmp_dst k m)
          | i ∷ l ↦ some (put cmp_dst k (i ∷ l) m)
        ]
        else none
  ]

  abbrev pub Result : Type 0
  Result = Answer SetRouteError (Registry × Option RouteMetric)

  -- The route exists and gets a metric.
  unfoldable pub change_route : Registry → LocalTypeKey → NetAddress → RouteMetric → Key → Result
  unfolding attach detach
  change_route r message net new_metric key = elim (slots.get r.route_entries key) [
    | none ↦ panicked
    | some e ↦
        let by_dst = attach (from_net net, message, new_metric) key r.by_dst in
        if new_metric == e.metric
        then ok (r, some e.metric)
        else elim (detach (from_net net, message, e.metric) key by_dst) [
          | none ↦ panicked
          | some m ↦ ok (
            record r {
              route_entries = slots.write r.route_entries key (record e { metric = new_metric });
              by_dst = m;
            },
            some e.metric,
          )
        ]
  ]

  -- A new route: `assert!(newly_added)` holds unless the set has the key.
  unfoldable pub add_route :
      Registry → LocalTypeKey → NetAddress → Option Address → RouteMetric → Result
  unfolding attach has_key keys_at put cmp_gw
  add_route r message net gw metric =
      let dst : DstKey = (from_net net, message, metric) in
      let via : GwKey = (gw, from_net net, message) in
      let (entries, key) =
        slots.insert r.route_entries
          (record { message = message; dst_net = net; gw = gw; metric = metric }) in
      if has_key key (keys_at dst r.by_dst)
      then panicked
      else ok (
        record {
          route_entries = entries;
          by_gw = put cmp_gw via key r.by_gw;
          by_dst = attach dst key r.by_dst;
        },
        none,
      )

  -- The route exists and is withdrawn.
  unfoldable pub withdraw_route :
      Registry → LocalTypeKey → NetAddress → Option Address → Key → Result
  unfolding detach delete cmp_gw
  withdraw_route r message net gw key = elim (slots.get r.route_entries key) [
    | none ↦ panicked
    | some e ↦ elim (detach (from_net net, message, e.metric) key r.by_dst) [
      | none ↦ panicked
      | some m ↦ ok (
        record {
          route_entries = slots.remove r.route_entries key;
          by_gw = delete cmp_gw (gw, from_net net, message) r.by_gw;
          by_dst = m;
        },
        some e.metric,
      )
    ]
  ]

  -- The four cases of the `match`.
  unfoldable pub update_route :
      Registry
      → LocalTypeKey
      → NetAddress
      → Option Address
      → Option RouteMetric
      → Option (GwKey × Key)
      → Result
  unfolding change_route add_route withdraw_route
  update_route r message net gw none none = ok (r, none)
  update_route r message net gw (some metric) (some (k, key)) =
      change_route r message net metric key
  update_route r message net gw (some metric) none = add_route r message net gw metric
  update_route r message net gw none (some (k, key)) = withdraw_route r message net gw key

  -- A found key must belong to the network, or the key asked for if the entry is vacant.
  unfoldable pub guard_net : NetAddress → AddressRange → Result → Result
  guard_net net range rest = elim (to_net range) [
    | none ↦ panicked
    | some existing ↦ if same_net existing net then rest else refused (conflict existing)
  ]

  abbrev pub range_of_dst : NetAddress → Option (DstKey × List Key) → AddressRange
  range_of_dst net none = from_net net
  range_of_dst net (some ((range, m, c), keys)) = range

  abbrev pub range_of_gw : NetAddress → Option (GwKey × Key) → AddressRange
  range_of_gw net none = from_net net
  range_of_gw net (some ((gw, range, m), key)) = range

  unfoldable pub set_route_via :
      Registry → LocalTypeKey → NetAddress → Option Address → Option RouteMetric → Result
  unfolding find cmp_gw guard_net update_route
  set_route_via r message net gw set_metric =
      let entry = find cmp_gw (gw, from_net net, message) r.by_gw in
      guard_net net (range_of_gw net entry) (update_route r message net gw set_metric entry)

  unfoldable pub set_route :
      Registry → LocalTypeKey → NetAddress → Option Address → Option RouteMetric → Result
  unfolding find cmp_dst guard_net set_route_via
  set_route r message net gw none = set_route_via r message net gw none
  set_route r message net gw (some metric) =
      guard_net net (range_of_dst net (find cmp_dst (from_net net, message, metric) r.by_dst))
        (set_route_via r message net gw (some metric))
