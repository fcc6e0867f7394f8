-- ===== src/Multinode/Manager/Routes.antt =====
-- components/mm1-multinode/src/actors/multinode_manager.rs: the local subnets, the routes, and those that are told
-- of them. The references of watches and the answers of the supervisor of the workers are arguments. A
-- `BTreeSet` or `BTreeMap` of ranges is an ordered list; `panicked` is an assertion, `panic!` or a panic below.
use mm.Shared.{
  List, [], ◌∷◌, ◌++◌, Option, none, some, Bool, true, false, ◌==◌, if◌then◌else◌, map, any, ℕ,
  ℕ_discrete,
}
use mm.Shared.Map as pairs
use mm.Shared.Ordered.{find, put, delete}
use mm.Shared.SlotMap.{SlotMap}
use mm.Subnet.{Address, NetAddress, AddressRange, from_net, to_net, cmp}
use mm.Multinode.Route as route
use mm.Multinode.Route.{
  LocalTypeKey, RouteMetric, RouteEntry, RouteRegistry, all_routes, all_routes_by_gw, contains_net,
  ok, refused,
}
use mm.Multinode.Route.Update.{set_route}

abbrev pub WatchRef : Type 0
WatchRef = ℕ

pub record SetRoute : Type 0 where
  pub message : LocalTypeKey
  pub destination : NetAddress
  pub via : Option Address
  pub metric : Option RouteMetric

-- A worker of a network is to be stopped or started; a gateway is watched; a message to an address.
pub data Effect : Type 0 where
  stop_worker : Address → Effect
  start_worker : NetAddress → Effect
  watched : Address → Effect
  told : Address → SetRoute → Effect

-- `local_subnets.iter().copied().map(NetAddress::from)`.
unfoldable pub nets_of : List AddressRange → Option (List NetAddress)
nets_of [] = some []
nets_of (a ∷ l) = elim (to_net a) [
  | none ↦ none
  | some n ↦ elim (nets_of l) [ none ↦ none | some ns ↦ some (n ∷ ns) ]
]

module _ (slots : SlotMap RouteEntry) where
  pub record RouteManager : Type 0 where
    pub local_subnets : List (AddressRange × Unit {0})
    pub route_registry : RouteRegistry slots
    pub route_subscribers : List (WatchRef × Address)
    pub route_gws : List (WatchRef × Address)
    pub subnet_ingress_workers : List (AddressRange × Address)

  -- `fails` where an error of the supervisor ends the handler.
  pub data Handled : Type 0 where
    done : RouteManager → List Effect → Handled
    fails panicked : Handled

  -- The answer is `Ok`, whether the set takes the range or not.
  unfoldable pub on_register_local_subnet : RouteManager → NetAddress → RouteManager
  unfolding find put cmp from_net
  on_register_local_subnet s net = elim (find cmp (from_net net) s.local_subnets) [
    | none ↦ record s { local_subnets = put cmp (from_net net) tt s.local_subnets }
    | some old ↦ s
  ]

  unfoldable pub on_get_local_subnets : RouteManager → Option (List NetAddress)
  unfolding nets_of
  on_get_local_subnets s = nets_of (map (λ x. x.0) s.local_subnets)

  unfoldable pub into_set_route : RouteEntry → SetRoute
  into_set_route e = record {
    message = e.message;
    destination = e.dst_net;
    via = e.gw;
    metric = some e.metric;
  }

  -- With the routes of the answer.
  unfoldable pub on_subscribe_to_routes :
      RouteManager → Address → WatchRef → RouteManager × List SetRoute
  unfolding into_set_route
  on_subscribe_to_routes s deliver_to ref = (
    record s { route_subscribers = pairs.insert ℕ_discrete ref deliver_to s.route_subscribers },
    map into_set_route (all_routes slots s.route_registry),
  )

  -- The worker of a network that is not local lives as long as there is a route to the network.
  unfoldable pub adjust_worker :
      RouteManager → NetAddress → Bool → Bool → Bool → Bool → Option Address → Handled
  unfolding find put delete cmp from_net
  adjust_worker s destination false true false stops started =
      elim (find cmp (from_net destination) s.subnet_ingress_workers) [
        | none ↦ panicked
        | some (range, worker) ↦
            if stops
            then done
                (record s {
                  subnet_ingress_workers =
                      delete cmp (from_net destination) s.subnet_ingress_workers;
                })
                (stop_worker worker ∷ [])
            else fails
      ]
  adjust_worker s destination false false true stops started =
      elim (find cmp (from_net destination) s.subnet_ingress_workers) [
        | some old ↦ panicked
        | none ↦ elim started [
          | none ↦ fails
          | some worker ↦
              done
                (record s {
                  subnet_ingress_workers =
                      put cmp (from_net destination) worker s.subnet_ingress_workers;
                })
                (start_worker destination ∷ [])
        ]
      ]
  adjust_worker s destination local before after stops started = done s []

  -- A new gateway is watched.
  unfoldable pub watch_gw : RouteManager → Option Address → WatchRef → RouteManager × List Effect
  watch_gw s none ref = (s, [])
  watch_gw s (some gw) ref =
      if any (λ x. x.1 == gw) s.route_gws
      then (s, [])
      else (record s { route_gws = pairs.insert ℕ_discrete ref gw s.route_gws }, watched gw ∷ [])

  -- After the route was set: the worker, the gateway, and the subscribers.
  unfoldable pub route_updated : Handled → SetRoute → WatchRef → Handled
  unfolding watch_gw
  route_updated (done s effects) set ref =
      let (s', more) = watch_gw s set.via ref in
      done s' (effects ++ (more ++ map (λ x. told x.1 set) s'.route_subscribers))
  route_updated fails set ref = fails
  route_updated panicked set ref = panicked

  -- `null` is `LocalTypeKey::default()`.
  unfoldable pub on_set_route :
      LocalTypeKey → RouteManager → SetRoute → Bool → Option Address → WatchRef → Handled
  unfolding adjust_worker route_updated find cmp from_net
  on_set_route null s set stops started ref =
      elim (contains_net slots null s.route_registry set.destination) [
        | none ↦ panicked
        | some before ↦
            elim (set_route slots s.route_registry set.message set.destination set.via set.metric) [
              | route.panicked ↦ panicked
              | refused e ↦ done s []
              | ok (r, old) ↦ elim (contains_net slots null r set.destination) [
                | none ↦ panicked
                | some after ↦
                    route_updated
                      (adjust_worker (record s { route_registry = r }) set.destination
                        (elim (find cmp (from_net set.destination) s.local_subnets) [
                          | none ↦ false
                          | some x ↦ true
                        ])
                        before after stops started)
                      set ref
              ]
            ]
      ]

  -- The `SetRoute` that withdraws a route by a gateway.
  unfoldable pub withdrawal : Address → LocalTypeKey × NetAddress × RouteMetric → SetRoute
  withdrawal gw (message, destination, metric) = record {
    message = message;
    destination = destination;
    via = some gw;
    metric = none;
  }

  -- `Down`: a subscriber is forgotten, and the routes by a gateway are withdrawn by messages to the manager
  -- itself, at the address `me`.
  unfoldable pub on_down : Address → RouteManager → WatchRef → Address → RouteManager × List Effect
  unfolding withdrawal
  on_down me s ref peer =
      let s' = record s { route_subscribers = pairs.remove ℕ_discrete ref s.route_subscribers } in
      elim (pairs.get ℕ_discrete ref s.route_gws) [
        | none ↦ (s', [])
        | some gw ↦ (
          record s' { route_gws = pairs.remove ℕ_discrete ref s.route_gws },
          map (λ x. told me (withdrawal peer x)) (all_routes_by_gw slots s.route_registry peer),
        )
      ]
