-- ===== src/Multinode/Manager/Withdrawals.antt =====
-- components/mm1-multinode/src/actors/multinode_manager.rs: what the end of a gateway withdraws.
use mm.Shared.{
  ◌≡◌, refl, ap, ◌∙◌, sym, subst, List, [], ◌∷◌, Option, none, some, All, Holds, inl, inr,
  ℕ_discrete, map, arith, ==-eq, ==-ne, ◌==◌, if◌then◌else◌,
}
use mm.Shared.Map as pairs
use mm.Shared.SlotMap.{SlotMap}
use mm.Subnet.{Address, NetAddress}
use mm.Multinode.Route.{
  LocalTypeKey, RouteMetric, RouteEntry, all_routes, routes_via, all_routes_by_gw,
}
use mm.Multinode.Manager.Routes.{WatchRef, RouteManager, Effect, told, withdrawal, on_down}

module _ (slots : SlotMap RouteEntry) where
  -- The withdrawal of a route by the gateway.
  abbrev pub withdrawn : Address → Address → RouteEntry → Effect
  withdrawn me gw e =
      told me
        (record { message = e.message; destination = e.dst_net; via = some gw; metric = none })

  abbrev Routes : Type 0
  Routes = List (LocalTypeKey × NetAddress × RouteMetric)

  -- A route of the list, before the others that go by the gateway.
  abbrev before :
      Address → Option Address → LocalTypeKey × NetAddress × RouteMetric → Routes → Routes
  before gw o t rest = elim o [ none ↦ rest | some a ↦ if a == gw then t ∷ rest else rest ]

  module _ (f : LocalTypeKey × NetAddress × RouteMetric → Effect) (gw : Address) where
    before-first :
        (o : Option Address) (t : LocalTypeKey × NetAddress × RouteMetric) (rest : Routes)
        → o ≡ some gw
        → Holds (f t) (map f (before gw o t rest))
    before-first none t rest q = absurd (cc)
    before-first (some a) t rest q = let same : a ≡ gw = cc in rw (==-eq a gw same) (inl refl)

    before-later :
        (o : Option Address) (t : LocalTypeKey × NetAddress × RouteMetric) (rest : Routes)
        (x : Effect)
        → Holds x (map f rest)
        → Holds x (map f (before gw o t rest))
    before-later none t rest x h = h
    before-later (some a) t rest x h = elim (ℕ_discrete a gw) [
      | yes e ↦ rw (==-eq a gw e) (inr h)
      | no n ↦ rw (==-ne a gw n) h
    ]

    before-All :
        (P : Effect → Type 0) (o : Option Address) (t : LocalTypeKey × NetAddress × RouteMetric)
        (rest : Routes)
        → (o ≡ some gw → P (f t))
        → All P (map f rest)
        → All P (map f (before gw o t rest))
    before-All P none t rest p h = h
    before-All P (some a) t rest p h = elim (ℕ_discrete a gw) [
      | yes e ↦ rw (==-eq a gw e) (p (ap (λ b. some b) e), h)
      | no n ↦ rw (==-ne a gw n) h
    ]

  via-withdrawn :
      (me gw : Address) (l : List RouteEntry) (e : RouteEntry)
      → Holds e l
      → e.gw ≡ some gw
      → Holds
          (withdrawn me gw e)
          (map (λ x. told me (withdrawal slots gw x)) (routes_via slots gw l))
  unfolding routes_via withdrawal
  via-withdrawn me gw [] e h g = elim h [ ]
  via-withdrawn me gw (f ∷ l) e (inl p) g =
      subst
        (λ x.
          Holds (withdrawn me gw x)
            (map (λ x. told me (withdrawal slots gw x)) (routes_via slots gw (f ∷ l))))
        (sym p)
        (before-first (λ x. told me (withdrawal slots gw x)) gw f.gw
          (f.message, f.dst_net, f.metric) (routes_via slots gw l) (sym (ap (λ x. x.gw) p) ∙ g))
  via-withdrawn me gw (f ∷ l) e (inr h) g =
      before-later (λ x. told me (withdrawal slots gw x)) gw f.gw (f.message, f.dst_net, f.metric)
        (routes_via slots gw l) (withdrawn me gw e) (via-withdrawn me gw l e h g)

  -- Each effect withdraws a route of the list by the gateway.
  abbrev pub Withdraws : Address → Address → List RouteEntry → Effect → Type 0
  Withdraws me gw l x = (e : RouteEntry) × Holds e l × (e.gw ≡ some gw) × (x ≡ withdrawn me gw e)

  Withdraws-All :
      (me gw : Address) (whole l : List RouteEntry)
      → ((e : RouteEntry) → Holds e l → Holds e whole)
      → All
          (Withdraws me gw whole)
          (map (λ x. told me (withdrawal slots gw x)) (routes_via slots gw l))
  unfolding routes_via withdrawal
  Withdraws-All me gw whole [] sub = tt
  Withdraws-All me gw whole (f ∷ l) sub =
      before-All (λ x. told me (withdrawal slots gw x)) gw (Withdraws me gw whole) f.gw
        (f.message, f.dst_net, f.metric) (routes_via slots gw l)
        (λ q. (f, sub f (inl refl), q, refl)) (Withdraws-All me gw whole l (λ e h. sub e (inr h)))

  -- Each route of the list by the gateway is withdrawn.
  abbrev pub Covers : Address → Address → List RouteEntry → List Effect → Type 0
  Covers me gw l es = (e : RouteEntry) → Holds e l → e.gw ≡ some gw → Holds (withdrawn me gw e) es

  -- When a gateway goes down that the manager watches, no reference being listed twice, the manager
  -- tells itself to withdraw every route by it, and nothing else; it neither watches the gateway nor
  -- tells a subscriber under the reference any more.
  pub on_down-Withdraws :
      (me : Address) (s : RouteManager slots) (ref : WatchRef) (peer gw : Address)
      → pairs.get ℕ_discrete ref s.route_gws ≡ some gw
      → pairs.Distinct s.route_gws
      → pairs.Distinct s.route_subscribers
      → (s' : RouteManager slots) × (es : List Effect) × (on_down slots me s ref peer ≡ (s', es))
        × Covers me peer (all_routes slots s.route_registry) es
        × All (Withdraws me peer (all_routes slots s.route_registry)) es
        × (pairs.get ℕ_discrete ref s'.route_gws ≡ none)
        × (pairs.get ℕ_discrete ref s'.route_subscribers ≡ none)
  unfolding on_down all_routes all_routes_by_gw
  on_down-Withdraws me s ref peer gw h d1 d2 =
      let l = all_routes slots s.route_registry in
      (
        record s {
          route_subscribers = pairs.remove ℕ_discrete ref s.route_subscribers;
          route_gws = pairs.remove ℕ_discrete ref s.route_gws;
        },
        map (λ x. told me (withdrawal slots peer x)) (all_routes_by_gw slots s.route_registry peer),
        rw (h, on_down) refl,
        (λ e i g. via-withdrawn me peer l e i g),
        Withdraws-All me peer l l (λ e i. i),
        ground (arith, pairs.get-remove ℕ_discrete ref ref s.route_gws d1),
        ground (arith, pairs.get-remove ℕ_discrete ref ref s.route_subscribers d2),
      )
