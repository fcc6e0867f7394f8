-- ===== src/Multinode/Route/Withdraw.antt =====
-- The only route of a registry is withdrawn.
use mm.Shared.{ℕ, ◌≤◌, ◌≡◌, refl, ◌∙◌, [], ◌∷◌, Option, none, some, true, arith}
use Prim.Native.Nat.{Ordering}
use mm.Shared.SlotMap.{SlotMap}
use mm.Shared.Ordered.{find, delete}
use mm.Subnet.{Address, NetAddress, AddressRange, from_net, cmp}
use mm.Multinode.Route.{
  LocalTypeKey, RouteMetric, RouteEntry, ok, DstKey, GwKey, cmp_dst, cmp_gw, cmp_option, then_cmp,
  RouteRegistry, default,
}
use mm.Multinode.Route.Update.{
  set_route, set_route_via, update_route, withdraw_route, detach, has_key, drop_key,
}
use mm.Multinode.Route.Single.{
  IsNetwork, IsNetwork-to_net, IsNetwork-last, route, single, guard_net-same, set_route-default,
}

cmp_dst_refl :
    (r : AddressRange) (m c : ℕ) → r.lo ≤ r.hi → cmp_dst (r, m, c) (r, m, c) ≡ Ordering.eq
unfolding cmp_dst then_cmp cmp
cmp_dst_refl r m c h = ground arith

cmp_gw_refl :
    (g : Option Address) (r : AddressRange) (m : ℕ)
    → r.lo ≤ r.hi
    → cmp_gw (g, r, m) (g, r, m) ≡ Ordering.eq
unfolding cmp_gw then_cmp cmp cmp_option
cmp_gw_refl none r m h = ground arith
cmp_gw_refl (some g) r m h = ground arith

module _ {K V : Type 0} (order : K → K → Ordering) where
  find-only : (k : K) (v : V) → order k k ≡ Ordering.eq → find order k ((k, v) ∷ []) ≡ some (k, v)
  unfolding find
  find-only k v e = ground arith

  delete-only : (k : K) (v : V) → order k k ≡ Ordering.eq → delete order k ((k, v) ∷ []) ≡ []
  unfolding delete
  delete-only k v e = ground arith

module _ (slots : SlotMap RouteEntry) where
  open slots use {Key, Slots, key_eq, get-insert, get-remove, get-empty}

  has_key-only : (key : Key) → has_key slots key (key ∷ []) ≡ true
  unfolding has_key
  has_key-only key = ground arith

  drop_key-only : (key : Key) → drop_key slots key (key ∷ []) ≡ []
  unfolding drop_key
  drop_key-only key = ground arith

  detach-only :
      (k : DstKey) (key : Key)
      → cmp_dst k k ≡ Ordering.eq
      → detach slots k key ((k, key ∷ []) ∷ []) ≡ some []
  unfolding detach
  detach-only k key e =
      rw
        (
          detach,
          find-only cmp_dst k (key ∷ []) e,
          has_key-only key,
          drop_key-only key,
          delete-only cmp_dst k (key ∷ []) e,
        )
        refl

  withdraw_route-single :
      (message : LocalTypeKey) (n : NetAddress) (gw : Option Address) (metric : RouteMetric)
      → IsNetwork n
      → (r : RouteRegistry slots) × (withdraw_route slots
            (single slots message n gw metric)
            message
            n
            gw
            (slots.insert slots.empty (route slots message n gw metric)).1
          ≡ ok (r, some metric))
        × (r.by_gw ≡ [])
        × (r.by_dst ≡ [])
        × ((k : Key) → slots.get r.route_entries k ≡ none)
  unfolding withdraw_route
  withdraw_route-single message n gw metric h =
      let last = IsNetwork-last n h in
      let range_le : (from_net n).lo ≤ (from_net n).hi = omega (arith, last) in
      let e = route slots message n gw metric in
      let entries = (slots.insert slots.empty e).0 in
      let key = (slots.insert slots.empty e).1 in
      let dst : DstKey = (from_net n, message, metric) in
      let via : GwKey = (gw, from_net n, message) in
      let found : slots.get entries key ≡ some e = ground (arith, get-insert slots.empty e key) in
      (
        record { route_entries = slots.remove entries key; by_gw = []; by_dst = [] },
        rw
            (
              withdraw_route,
              found,
              detach-only dst key (cmp_dst_refl (from_net n) message metric range_le),
              delete-only cmp_gw via key (cmp_gw_refl gw (from_net n) message range_le),
            )
            refl,
        refl,
        refl,
        λ k. ground (arith, get-remove entries key k, get-insert slots.empty e k, get-empty k),
      )

  -- A registry that `set_route` made of an empty one, for a network whose range lies below 2^64, is empty
  -- again after `set_route` without a metric for the same message, network and gateway, which answers the
  -- metric of the route.
  pub set_route-withdraw :
      (message : LocalTypeKey) (n : NetAddress) (gw : Option Address) (metric : RouteMetric)
      → IsNetwork n
      → (r s : RouteRegistry slots) × (set_route slots (default slots) message n gw (some metric)
          ≡ ok (r, none))
        × (set_route slots r message n gw none ≡ ok (s, some metric))
        × (s.by_gw ≡ [])
        × (s.by_dst ≡ [])
        × ((k : Key) → slots.get s.route_entries k ≡ none)
  unfolding set_route set_route_via update_route
  set_route-withdraw message n gw metric h =
      let last = IsNetwork-last n h in
      let range_le : (from_net n).lo ≤ (from_net n).hi = omega (arith, last) in
      let r = single slots message n gw metric in
      let key = (slots.insert slots.empty (route slots message n gw metric)).1 in
      let via : GwKey = (gw, from_net n, message) in
      let (s, e, g, d, entries) = withdraw_route-single message n gw metric h in
      (
        r,
        s,
        set_route-default slots message n gw metric h,
        rw (find-only cmp_gw via key (cmp_gw_refl gw (from_net n) message range_le))
            (guard_net-same slots n (from_net n) _ (IsNetwork-to_net n h) ∙ e),
        g,
        d,
        entries,
      )
