-- ===== src/Examples/Gateways.antt =====
-- A multinode manager with a route by the gateway 5, and interfaces.
use mm.Shared.{◌≡◌, refl, List, [], ◌∷◌, none, some, All, ℕ_discrete}
use mm.Shared.Map.{get}
use mm.Shared.SlotMap.{SlotMap, vacant_slots}
use mm.Multinode.Route.{RouteEntry, all_routes}
use mm.Multinode.Manager.Routes.{RouteManager, Effect, on_down}
use mm.Multinode.Manager.Withdrawals.{Covers, Withdraws, on_down-Withdraws}

abbrev slots : SlotMap RouteEntry
slots = vacant_slots RouteEntry

abbrev by_five : RouteEntry
by_five = record {
  message = 1;
  dst_net = record { address = 16; mask = 62 };
  gw = some 5;
  metric = 2;
}

abbrev manager : RouteManager slots
manager = record {
  local_subnets = [];
  route_registry = record { route_entries = (0, by_five) ∷ []; by_gw = []; by_dst = [] };
  route_subscribers = (3, 7) ∷ [];
  route_gws = (4, 5) ∷ [];
  subnet_ingress_workers = [];
}

watches_five : get ℕ_discrete 4 manager.route_gws ≡ some 5
unfolding get ℕ_discrete
watches_five = refl

on_down-Withdraws_example :
    (s : RouteManager slots) × (es : List Effect) × (on_down slots 9 manager 4 5 ≡ (s, es))
    × Covers slots 9 5 (all_routes slots manager.route_registry) es
    × All (Withdraws slots 9 5 (all_routes slots manager.route_registry)) es
    × (get ℕ_discrete 4 s.route_gws ≡ none)
    × (get ℕ_discrete 4 s.route_subscribers ≡ none)
on_down-Withdraws_example = on_down-Withdraws slots 9 manager 4 5 5 watches_five (tt, tt) (tt, tt)
