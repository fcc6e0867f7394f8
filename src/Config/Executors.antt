-- ===== src/Config/Executors.antt =====
-- core/mm1-node/src/runtime/rt_api.rs: every actor has a runtime.
use mm.Shared.{
  ◌<◌, ◌^◌, ◌≡◌, refl, subst, List, [], ◌∷◌, map, Option, none, some, true, All, arith,
  Option-cases, inl, inr, if_pos, if_neg,
}
use mm.Shared.Map.{get, insert, Distinct, get-insert, Lacks-get}
use mm.Shared.Ordered.{NameOrder}
use mm.Config.Actor.{ActorKey, select}
use mm.Config.Actor.Paths.{select-names}
use mm.Config.Runtimes.{
  RtConfig, Builder, builder, build_named, build_default, build_runtimes, all_enabled,
}
use mm.Config.Validation.{
  Mm1NodeConfig, Rt, created, create, create_valid, choose_executor, executor_of,
}
use mm.Config.Validity.{IsValid, try_from-Decides}

module _ {S R : Type 0} (name_eq : Discrete S) (order : NameOrder S) (wildcard default_name : S)
    (build : Builder S → Option R) where
  build_named-kept :
      (l : List (S × RtConfig)) (built named : List (S × R)) (k : S)
      → build_named name_eq default_name build l built ≡ some named
      → get name_eq k l ≡ none
      → get name_eq k named ≡ get name_eq k built
  unfolding build_named get
  build_named-kept [] built named k e h = ground (arith, e)
  build_named-kept ((n, c) ∷ l) built named k e h = elim (Option-cases (build (builder c n))) [
    | inl f ↦ absurd (cc (rw (build_named, f) at e))
    | inr (r, f) ↦
        let e' = rw (build_named, f) at e in
        ground (
          arith,
          h,
          build_named-kept l (insert name_eq n r built) named k e',
          get-insert name_eq n k r built,
        )
  ]

  -- The runtimes that are built are found under the names of their configurations.
  build_named-get :
      (l : List (S × RtConfig)) (built named : List (S × R)) (k : S) (c : RtConfig)
      → Distinct l
      → build_named name_eq default_name build l built ≡ some named
      → get name_eq k l ≡ some c
      → (r : R) × (get name_eq k named ≡ some r) × (build (builder c k) ≡ some r)
  unfolding build_named get
  build_named-get [] built named k c d e h = absurd (cc)
  build_named-get ((n, b) ∷ l) built named k c d e h = elim (Option-cases (build (builder b n))) [
    | inl f ↦ absurd (cc (rw (build_named, f) at e))
    | inr (r, f) ↦
        let e' = rw (build_named, f) at e in
        elim (name_eq n k) [
          | yes p ↦
              let gone : get name_eq k l ≡ none =
                subst (λ j. get name_eq j l ≡ none) p (Lacks-get name_eq n l d.0) in
              let same : b ≡ c = cc (rw (get, if_pos (name_eq n k) p) at h) in
              (
                r,
                ground (
                  arith,
                  build_named-kept l (insert name_eq n r built) named k e' gone,
                  get-insert name_eq n k r built,
                  p,
                ),
                subst (λ j. build (builder c j) ≡ some r) p
                    (subst (λ x. build (builder x n) ≡ some r) same f),
              )
          | no p ↦
              build_named-get l (insert name_eq n r built) named k c d.1 e'
                (rw (get, if_neg (name_eq n k) p) at h)
        ]
  ]

  -- A runtime with its time driver.
  abbrev pub IsTimed : Option R → Type 0
  IsTimed o = (r : R) × (o ≡ some r) × (b : Builder S) × (build b ≡ some r) × (b.time ≡ true)

  default-IsTimed :
      (o : Option RtConfig) (r : R)
      → ((c : RtConfig) → o ≡ some c → c.enable_time ≡ true)
      → build_default name_eq default_name build o ≡ some r
      → IsTimed (some r)
  unfolding build_default
  default-IsTimed none r h e = (r, refl, all_enabled default_name, e, refl)
  default-IsTimed (some c) r h e = (r, refl, builder c default_name, e, h c refl)

  -- The actor runs on the default runtime, or on one that the validation has found.
  chosen-IsTimed :
      (c : Mm1NodeConfig S) (default : R) (named : List (S × R)) (key : ActorKey S)
      → IsValid name_eq order c
      → Distinct c.runtime.named
      → build_default name_eq default_name build c.runtime.default ≡ some default
      → build_named name_eq default_name build c.runtime.named [] ≡ some named
      → IsTimed (
          executor_of name_eq wildcard
            (record { config = c; rt_default = default; rt_named = named })
            key)
  unfolding executor_of choose_executor
  chosen-IsTimed c default named key v d e f =
      elim (Option-cases (select name_eq wildcard c.actor key).runtime) [
        | inl h ↦
            rw (executor_of, h, choose_executor)
              (default-IsTimed c.runtime.default default v.default_timed e)
        | inr (k, h) ↦
            let (rc, g, t) = v.timed k (select-names name_eq wildcard order k c.actor key h) in
            let (r, i, j) = build_named-get c.runtime.named [] named k rc d f g in
            rw (executor_of, h, choose_executor) (r, i, builder rc k, j, t)
      ]

  abbrev Made : Mm1NodeConfig S → Rt S R → Type 0
  Made c rt =
      (default : R) × (named : List (S × R)) × (rt
        ≡ record { config = c; rt_default = default; rt_named = named })
      × (build_default name_eq default_name build c.runtime.default ≡ some default)
      × (build_named name_eq default_name build c.runtime.named [] ≡ some named)

  create_valid-Made :
      (c : Mm1NodeConfig S) (rt : Rt S R)
      → create_valid name_eq order default_name build c ≡ created rt
      → Made c rt
  unfolding create_valid build_runtimes
  create_valid-Made c rt h =
      elim (Option-cases (build_default name_eq default_name build c.runtime.default)) [
        | inl e ↦ absurd (cc (rw (create_valid, build_runtimes, e) at h))
        | inr (default, e) ↦
            elim (Option-cases (build_named name_eq default_name build c.runtime.named [])) [
              | inl f ↦ absurd (cc (rw (create_valid, build_runtimes, e, f) at h))
              | inr (named, f) ↦
                  (default, named, cc (rw (create_valid, build_runtimes, e, f) at h), e, f)
            ]
      ]

  -- In a node that could be created from a configuration with networks below 2^64, whose named
  -- runtimes have different names, the `expect` of `choose_executor` does not fail: every actor's
  -- runtime is found, whatever its key, and it was built with its time driver.
  pub executor_of-IsTimed :
      (c : Mm1NodeConfig S) (rt : Rt S R) (key : ActorKey S)
      → All (λ n. n.address < 2 ^ 64) (map (λ d. d.net) c.local_subnets)
      → Distinct c.runtime.named
      → create name_eq order default_name build c ≡ some (created rt)
      → IsTimed (executor_of name_eq wildcard rt key)
  unfolding create
  executor_of-IsTimed c rt key below d h = elim (try_from-Decides name_eq order c below) [
    | inl (v, e) ↦
        let (default, named, same, f, g) = create_valid-Made c rt (cc (rw (create, e) at h)) in
        rw same (chosen-IsTimed c default named key v d f g)
    | inr (v, x, l, e) ↦ absurd (cc (rw (create, e) at h))
  ]
