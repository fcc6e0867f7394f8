-- ===== src/Config/Validity.antt =====
-- core/mm1-node/src/config/validation.rs: which configurations are valid.
use mm.Shared.{
  ◌<◌, ◌^◌, ◌≡◌, ◌⊎◌, inl, inr, refl, sym, ap, ◌∙◌, List, [], ◌∷◌, ◌++◌, map, retain, length, ◌==◌,
  ==-eq, Option, none, some, true, false, All, arith, Option-cases,
}
use mm.Shared.Map.{get}
use mm.Shared.Ordered.{NameOrder, find}
use mm.Subnet.{NetAddress}
use mm.Config.{overlapping_local_nets}
use mm.Config.Overlaps.{
  AreDisjoint, overlapping_local_nets-AreDisjoint, overlapping_local_nets-some,
}
use mm.Config.Actor.{Names, has, invalid_keys, runtime_keys}
use mm.Config.Actor.Walk.{names, runtime_keys-names}
use mm.Config.Runtimes.{RtConfig, lacks_time, named_errors, time_driver_validation_errors, keys_of}
use mm.Config.Validation.{
  Mm1NodeConfig, is_auto, ConfigError, without_time, overlaps, valid, rejected, key_errors,
  auto_errors, checked, ensure_runtime_keys_are_valid, try_from,
}
use mm.Config.Errors.{
  append_nil, map_nil, has-All, is_some, has-keys_of, invalid_keys-All, All-invalid_keys,
  named_errors-All, All-named_errors, All-names,
}

module _ {S : Type 0} (name_eq : Discrete S) (order : NameOrder S) where
  open order use {cmp, cmp_eq}

  -- Each runtime that the tree of actors names is configured and has its time driver, and so has the
  -- default one, if it is configured; one local network is automatic; no two of them overlap.
  pub record IsValid (c : Mm1NodeConfig S) : Type 0 where
    pub timed :
        (k : S)
        → names name_eq order k c.actor ≡ true
        → (r : RtConfig) × (get name_eq k c.runtime.named ≡ some r) × (r.enable_time ≡ true)
    pub default_timed : (r : RtConfig) → c.runtime.default ≡ some r → r.enable_time ≡ true
    pub one_auto : length (retain is_auto c.local_subnets) ≡ 1
    pub disjoint : AreDisjoint (map (λ d. d.net) c.local_subnets)

  abbrev available : Mm1NodeConfig S → Names S
  available c = keys_of order c.runtime.named []

  -- All the errors of a configuration, from the parts that they are found in.
  abbrev errors : Mm1NodeConfig S → Names S → List (NetAddress × NetAddress) → List (ConfigError S)
  errors c used conflicts =
      key_errors (invalid_keys order used (available c))
      ++ (map (λ e. without_time e) (time_driver_validation_errors name_eq c.runtime used)
          ++ (auto_errors c.local_subnets ++ map (λ x. overlaps x.0 x.1) conflicts))

  try_from-errors :
      (c : Mm1NodeConfig S) (used : Names S) (conflicts : List (NetAddress × NetAddress))
      → runtime_keys order c.actor ≡ some used
      → overlapping_local_nets (map (λ d. d.net) c.local_subnets) ≡ some conflicts
      → try_from name_eq order c ≡ some (checked c (errors c used conflicts))
  unfolding try_from ensure_runtime_keys_are_valid
  try_from-errors c used conflicts e f = rw (try_from, e, ensure_runtime_keys_are_valid, e, f) refl

  timed_of :
      (c : Mm1NodeConfig S) (used : Names S)
      → ((k : S) → has order k used ≡ names name_eq order k c.actor)
      → All (λ x. has order x.0 (available c) ≡ true) used
      → All (λ x. lacks_time (get name_eq x.0 c.runtime.named) ≡ false) used
      → (k : S) → names name_eq order k c.actor ≡ true
      → (r : RtConfig) × (get name_eq k c.runtime.named ≡ some r) × (r.enable_time ≡ true)
  unfolding is_some has find
  timed_of c used exact known timed k h =
      let here = exact k ∙ h in
      let there = has-All name_eq order (λ j. has order j (available c) ≡ true) k used known here in
      let time =
        has-All name_eq order (λ j. lacks_time (get name_eq j c.runtime.named) ≡ false) k used timed
          here in
      elim (Option-cases (get name_eq k c.runtime.named)) [
        | inl e ↦ absurd (ground (arith, has-keys_of name_eq order k c.runtime.named [], there, e))
        | inr (r, e) ↦ (r, e, ground (arith, time, e))
      ]

  -- Without errors, the configuration is valid.
  sound :
      (c : Mm1NodeConfig S) (used : Names S) (conflicts : List (NetAddress × NetAddress))
      → All (λ n. n.address < 2 ^ 64) (map (λ d. d.net) c.local_subnets)
      → ((k : S) → has order k used ≡ names name_eq order k c.actor)
      → overlapping_local_nets (map (λ d. d.net) c.local_subnets) ≡ some conflicts
      → errors c used conflicts ≡ []
      → IsValid c
  unfolding time_driver_validation_errors auto_errors
  sound c used conflicts below exact f e =
      let (keys, e1) = append_nil (key_errors (invalid_keys order used (available c))) _ e in
      let (time, e2) =
        append_nil
          (map (λ e. without_time e) (time_driver_validation_errors name_eq c.runtime used)) _ e1 in
      let (auto, laps) = append_nil (auto_errors c.local_subnets) _ e2 in
      let (default, named) = append_nil _ (named_errors name_eq c.runtime.named used) (
        map_nil (λ e. without_time e) (time_driver_validation_errors name_eq c.runtime used)
          time) in
      let none_lap : conflicts ≡ [] = map_nil (λ x. overlaps x.0 x.1) conflicts laps in
      record {
        timed =
            timed_of c used exact
              (invalid_keys-All name_eq order used (available c)
                (no_key (invalid_keys order used (available c)) keys))
              (named_errors-All name_eq order c.runtime.named used named);
        default_timed = λ r h. ground (arith, default, h);
        one_auto = ground (arith, auto);
        disjoint =
            (overlapping_local_nets-AreDisjoint (map (λ d. d.net) c.local_subnets) below).0
              (f ∙ ap (λ l. some l) none_lap);
      }
    where
      no_key : (l : Names S) → key_errors l ≡ [] → l ≡ []
      no_key [] e = refl
      no_key (x ∷ l) e = absurd (cc)

  -- A valid configuration has no errors.
  complete :
      (c : Mm1NodeConfig S) (used : Names S) (conflicts : List (NetAddress × NetAddress))
      → All (λ n. n.address < 2 ^ 64) (map (λ d. d.net) c.local_subnets)
      → All (λ x. names name_eq order x.0 c.actor ≡ true) used
      → overlapping_local_nets (map (λ d. d.net) c.local_subnets) ≡ some conflicts
      → IsValid c
      → errors c used conflicts ≡ []
  unfolding time_driver_validation_errors auto_errors is_some
  complete c used conflicts below named f v =
      let known : All (λ x. has order x.0 (available c) ≡ true) used =
        All-names name_eq order (λ k. has order k (available c) ≡ true) c.actor used named
          (λ k h.
            let (r, e, t) = v.timed k h in
            ground (arith, has-keys_of name_eq order k c.runtime.named [], e)) in
      let timed : All (λ x. lacks_time (get name_eq x.0 c.runtime.named) ≡ false) used =
        All-names name_eq order (λ k. lacks_time (get name_eq k c.runtime.named) ≡ false) c.actor
          used named (λ k h. let (r, e, t) = v.timed k h in ground (arith, e, t)) in
      let clear : conflicts ≡ [] = some_inj (
        sym f
        ∙ (overlapping_local_nets-AreDisjoint (map (λ d. d.net) c.local_subnets) below).1
            v.disjoint) in
      let default : lacks_time c.runtime.default ≡ false =
        in_time c.runtime.default v.default_timed in
      let one : (length (retain is_auto c.local_subnets) == 1) ≡ true = ==-eq _ _ v.one_auto in
      rw
        (
          All-invalid_keys name_eq order used (available c) known,
          default,
          All-named_errors name_eq order c.runtime.named used timed,
          one,
          clear,
        )
        refl
    where
      in_time :
          (o : Option RtConfig)
          → ((r : RtConfig) → o ≡ some r → r.enable_time ≡ true)
          → lacks_time o ≡ false
      in_time none h = refl
      in_time (some r) h = ground (arith, h r refl)

      some_inj : {A : Type 0} {a b : A} → some a ≡ some b → a ≡ b
      some_inj e = cc

  -- What the validation answers: the configuration itself if it is valid, or else an error, and the
  -- configuration handed back.
  abbrev pub Decides : Mm1NodeConfig S → Type 0
  Decides c =
      (IsValid c × (try_from name_eq order c ≡ some (valid c)))
      ⊎ ((¬ IsValid c)
          × (e : ConfigError S) × (es : List (ConfigError S)) × (try_from name_eq order c
              ≡ some (rejected (e ∷ es) c)))

  -- Validating a configuration with networks below 2^64 ends, without a panic. It accepts the
  -- configuration if each runtime that the tree of actors names is configured with a time driver, the
  -- default runtime has one if it is configured, exactly one local network is automatic and no two
  -- local networks overlap; it answers an error if not.
  pub try_from-Decides :
      (c : Mm1NodeConfig S)
      → All (λ n. n.address < 2 ^ 64) (map (λ d. d.net) c.local_subnets)
      → Decides c
  try_from-Decides c below =
      let (used, e, exact, named) = runtime_keys-names name_eq order c.actor in
      let (conflicts, f) = overlapping_local_nets-some (map (λ d. d.net) c.local_subnets) in
      answer (errors c used conflicts) (try_from-errors c used conflicts e f)
        (sound c used conflicts below exact f) (complete c used conflicts below named f)
    where
      answer :
          (l : List (ConfigError S))
          → try_from name_eq order c ≡ some (checked c l)
          → (l ≡ [] → IsValid c)
          → (IsValid c → l ≡ [])
          → Decides c
      answer [] e s k = inl (s refl, e)
      answer (x ∷ l) e s k = inr ((λ v. cc (k v)), x, l, e)
