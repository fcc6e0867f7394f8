-- ===== src/Multinode/Route.antt =====
-- components/mm1-multinode/src/route_registry.rs: the routes to networks, one for a gateway, network and
-- message type. `slots` is the slot map of the routes; the keys of message types are ordered as numbers;
-- a `HashSet` is a list, and its order the iteration order. An answer `panicked` is an index out of range,
-- `expect`, `assert!` or `panic!`.
pub mod Update
pub mod Single
pub mod Withdraw
use mm.Shared.{
  ℕ, ◌%◌, List, [], ◌∷◌, Option, none, some, Bool, true, false, ◌&&◌, ◌||◌, ◌==◌, if◌then◌else◌,
  ite, get_elem?, take, length,
}
use Prim.Native.Nat.{Ordering, compare}
use mm.Shared.SlotMap.{SlotMap}
use mm.Shared.Ordered.{find, put, delete, first_from, last_before}
use mm.Subnet.{Address, NetAddress, AddressRange, from_address, from_net, to_net, cmp}

abbrev pub LocalTypeKey : Type 0
LocalTypeKey = ℕ

abbrev pub RouteMetric : Type 0
RouteMetric = ℕ

abbrev pub max_candidates : ℕ
max_candidates = 4

pub record RouteEntry : Type 0 where
  pub message : LocalTypeKey
  pub dst_net : NetAddress
  pub gw : Option Address
  pub metric : RouteMetric

pub data SetRouteError : Type 0 where
  conflict : NetAddress → SetRouteError

pub data FindRouteError : Type 0 where
  no_route : FindRouteError

pub data Answer (E A : Type 0) : Type 0 where
  ok : A → Answer E A
  refused : E → Answer E A
  panicked : Answer E A

-- The lexicographic order of tuples.
unfoldable pub then_cmp : Ordering → Ordering → Ordering
then_cmp a b = elim a [ Ordering.lt ↦ Ordering.lt | Ordering.eq ↦ b | Ordering.gt ↦ Ordering.gt ]

abbrev pub DstKey : Type 0
DstKey = AddressRange × LocalTypeKey × RouteMetric

abbrev pub GwKey : Type 0
GwKey = Option Address × AddressRange × LocalTypeKey

unfoldable pub cmp_dst : DstKey → DstKey → Ordering
unfolding cmp then_cmp
cmp_dst (a, m, c) (b, n, d) = then_cmp (cmp a b) (then_cmp (compare m n) (compare c d))

unfoldable pub cmp_option : Option Address → Option Address → Ordering
cmp_option none none = Ordering.eq
cmp_option none (some b) = Ordering.lt
cmp_option (some a) none = Ordering.gt
cmp_option (some a) (some b) = compare a b

unfoldable pub cmp_gw : GwKey → GwKey → Ordering
unfolding cmp then_cmp cmp_option
cmp_gw (g, a, m) (h, b, n) = then_cmp (cmp_option g h) (then_cmp (cmp a b) (compare m n))

abbrev pub same_net : NetAddress → NetAddress → Bool
same_net a b = (a.address == b.address) && (a.mask == b.mask)

-- A key of the maps belongs to a network: `NetAddress::from(range) == net`; `none` where it panics.
abbrev pub is_net : AddressRange → NetAddress → Option Bool
is_net r net = elim (to_net r) [ none ↦ none | some n ↦ some (same_net n net) ]

module _ (slots : SlotMap RouteEntry) where
  open slots use {Key, Slots, key_eq}

  pub record RouteRegistry : Type 0 where
    pub route_entries : Slots
    pub by_gw : List (GwKey × Key)
    pub by_dst : List (DstKey × List Key)

  unfoldable pub default : RouteRegistry
  default = record { route_entries = slots.empty; by_gw = []; by_dst = [] }

  unfoldable pub all_routes : RouteRegistry → List RouteEntry
  all_routes r = slots.values r.route_entries

  unfoldable pub routes_via :
      Address → List RouteEntry → List (LocalTypeKey × NetAddress × RouteMetric)
  routes_via sought [] = []
  routes_via sought (e ∷ l) =
      let rest = routes_via sought l in
      elim e.gw [
        | none ↦ rest
        | some gw ↦ if gw == sought then (e.message, e.dst_net, e.metric) ∷ rest else rest
      ]

  unfoldable pub all_routes_by_gw :
      RouteRegistry → Address → List (LocalTypeKey × NetAddress × RouteMetric)
  unfolding routes_via
  all_routes_by_gw r sought = routes_via sought (slots.values r.route_entries)

  unfoldable pub is_key_of : NetAddress → Option (DstKey × List Key) → Option Bool
  is_key_of net none = some false
  is_key_of net (some ((range, m, c), keys)) = is_net range net

  -- `null` is `LocalTypeKey::default()`.
  unfoldable pub contains_net : LocalTypeKey → RouteRegistry → NetAddress → Option Bool
  unfolding is_key_of first_from last_before cmp_dst
  contains_net null r net =
      let probe : DstKey = (from_net net, null, 0) in
      elim (is_key_of net (last_before cmp_dst probe none r.by_dst)) [
        | none ↦ none
        | some true ↦ some true
        | some false ↦ is_key_of net (first_from cmp_dst probe r.by_dst)
      ]

  -- The choice among the candidates by the hash of the address.
  unfoldable pub select :
      RouteRegistry → ℕ → List Key → Answer FindRouteError (Option Address × RouteMetric)
  select r hash candidates = elim (get_elem? candidates (hash % length candidates)) [
    | none ↦ panicked
    | some key ↦ elim (slots.get r.route_entries key) [
      | none ↦ panicked
      | some e ↦ ok (e.gw, e.metric)
    ]
  ]

  unfoldable pub find_route :
      (Address → ℕ)
      → RouteRegistry
      → LocalTypeKey
      → Address
      → Answer FindRouteError (Option Address × RouteMetric)
  unfolding select first_from cmp_dst
  find_route hash r message dst =
      elim (first_from cmp_dst (from_address dst, message, 0) r.by_dst) [
        | none ↦ refused no_route
        | some ((range, m, c), keys) ↦
            if m == message
            then select r (hash dst) (take max_candidates keys)
            else refused no_route
      ]
