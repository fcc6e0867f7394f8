-- ===== src/Sup/Mixed/Specs.antt =====
-- The children that a mixed supervisor starts with, and the keys that its decider gets.
use mm.Shared.{◌≡◌, ◌≢◌, subst, List, [], ◌∷◌, none, arith}
use mm.Shared.Map.{get, insert, get-insert}
use mm.Sup.Child.{Outcome, ok, err}
use mm.Sup.Child as call
use mm.Sup.OneForOne.{Decider, add}
use mm.Sup.OneForOne.Keys.{OfKeys, OfDecider, add-OfDecider}
use mm.Sup.Mixed.{ChildSpec, add_all, collect}

module _ {K : Type 0} (key_eq : Discrete K) where
  abbrev pub IsChild : List (K × ChildSpec) → K → Type 0
  IsChild children k = get key_eq k children ≢ none

  insert-IsChild :
      (m : List (K × ChildSpec)) (j k : K) (spec : ChildSpec)
      → IsChild m k
      → IsChild (insert key_eq j spec m) k
  insert-IsChild m j k spec h e = ground (arith, get-insert key_eq j k spec m)

  insert_same :
      (m : List (K × ChildSpec)) (k : K) (spec : ChildSpec) → IsChild (insert key_eq k spec m) k
  insert_same m k spec e = ground (arith, get-insert key_eq k k spec m)

  collect-IsChild :
      (m r : List (K × ChildSpec)) (k : K) → IsChild m k → IsChild (collect key_eq m r) k
  unfolding collect
  collect-IsChild m [] k h = h
  collect-IsChild m ((j, spec) ∷ r) k h =
      collect-IsChild (insert key_eq j spec m) r k (insert-IsChild m j k spec h)

  pub add_all-OfKeys :
      (P : K → Type 0) (m r : List (K × ChildSpec)) (d e : Decider K)
      → ((k : K) → IsChild (collect key_eq m r) k → P k)
      → OfKeys P d.states
      → add_all key_eq d r ≡ ok e
      → OfKeys P e.states
  unfolding add_all collect
  add_all-OfKeys P m [] d e p h i = let same : d ≡ e = cc in subst (λ x. OfKeys P x.states) same h
  add_all-OfKeys P m ((k, spec) ∷ r) d e p h i =
      added (λ d' g j. add_all-OfKeys P (insert key_eq k spec m) r d' e p g j)
        (add key_eq d k spec.child_type) (add-OfDecider P key_eq d k spec.child_type h here) i
    where
      here : P k
      here = p k (collect-IsChild (insert key_eq k spec m) r k (insert_same m k spec))

      added :
          ((d' : Decider K) → OfKeys P d'.states → add_all key_eq d' r ≡ ok e → OfKeys P e.states)
          → (o : Outcome (Decider K)) → OfDecider P o
          → (elim o [ ok d' ↦ add_all key_eq d' r | err x ↦ err x | call.panicked ↦ call.panicked ])
            ≡ ok e
          → OfKeys P e.states
      added rest (ok d') g j = rest d' g j
      added rest (err x) g j = absurd (ground arith)
      added rest call.panicked g j = absurd (ground arith)
