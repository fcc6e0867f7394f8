-- ===== src/NameService.antt =====
-- components/mm1-name-service/src/server.rs: the state of the name server and its three requests. The
-- clock reading is an argument of each operation; the keys are any type with decidable equality, for
-- `Arc<str>`. Sending the reply, logging and the server's binding to networks are left out.
pub mod Invariant
pub mod Resolution
pub mod Ownership
pub mod Runs
use mm.Shared.{
  ℕ, ◌+◌, ◌-◌, ◌≤◌, ◌<◌, List, [], ◌∷◌, Option, none, some, Bool, true, false, not, leb, ltb, ◌==◌,
  if◌then◌else◌, map, retain, ℕ_discrete,
}
use mm.Shared.Map.{get, insert, remove}

abbrev pub Address : Type 0
Address = ℕ

abbrev pub Instant : Type 0
Instant = ℕ

-- A `Registration` is its `valid_thru`.
pub record Registration : Type 0 where
  pub valid_thru : Instant

pub data Name : Type 0 where
  exclusive : Address → Registration → Name
  shared : List (Address × Registration) → Name

pub data Response : Type 0 where
  ok conflict not_found : Response

abbrev pub Names : Type 0 → Type 0
Names K = List (K × Name)

unfoldable pub is_live : Instant → Registration → Bool
is_live now r = ltb now r.valid_thru

abbrev pub is_empty {ℓ} : {A : Type ℓ} → List A → Bool
is_empty [] = true
is_empty (x ∷ xs) = false

-- What the closure of `sweep_expired` leaves of a name; `none` if `retain` drops it.
unfoldable pub sweep_name : Instant → Name → Option Name
unfolding is_live
sweep_name now (exclusive a r) = if is_live now r then some (exclusive a r) else none
sweep_name now (shared rs) =
    let left = retain (λ e. is_live now e.1) rs in
    if is_empty left then none else some (shared left)

-- `zip`ped with the saturating time left.
unfoldable pub entries : Name → List (Address × Instant)
entries (exclusive a r) = (a, r.valid_thru) ∷ []
entries (shared rs) = map (λ e. (e.0, e.1.valid_thru)) rs

module _ {K : Type 0} where
  unfoldable pub sweep_expired : Instant → Names K → Names K
  sweep_expired now [] = []
  sweep_expired now ((k, n) ∷ m) = elim (sweep_name now n) [
    | none ↦ sweep_expired now m
    | some n' ↦ (k, n') ∷ sweep_expired now m
  ]

module _ {K : Type 0} (key_eq : Discrete K) where
  unfoldable pub resolve : Names K → K → List (Address × Instant)
  unfolding entries
  resolve names key = elim (get key_eq key names) [ none ↦ [] | some n ↦ entries n ]

  -- The `match` of `register` on the swept names.
  unfoldable pub enter :
      Names K → K → Address → Bool → Registration → Option Name → Names K × Response
  enter names key address true r none = (insert key_eq key (exclusive address r) names, ok)
  enter names key address false r none = (insert key_eq key (shared ((address, r) ∷ [])) names, ok)
  enter names key address true r (some (exclusive owner old)) =
      if owner == address
      then (insert key_eq key (exclusive owner r) names, ok)
      else (names, conflict)
  enter names key address true r (some (shared rs)) = (names, conflict)
  enter names key address false r (some (exclusive owner old)) = (names, conflict)
  enter names key address false r (some (shared rs)) =
      (insert key_eq key (shared (insert ℕ_discrete address r rs)) names, ok)

  unfoldable pub register : Names K → Instant → K → Address → Bool → Instant → Names K × Response
  unfolding enter
  register names now key address is_exclusive valid_thru =
      let swept = sweep_expired now names in
      enter swept key address is_exclusive (record { valid_thru = valid_thru })
        (get key_eq key swept)

  -- The `match` of `unregister`.
  unfoldable pub leave : Names K → K → Address → Option Name → Names K × Response
  leave names key address none = (names, not_found)
  leave names key address (some (exclusive owner r)) =
      if owner == address then (remove key_eq key names, ok) else (names, not_found)
  leave names key address (some (shared rs)) =
      let left = remove ℕ_discrete address rs in
      (if is_empty left then remove key_eq key names else insert key_eq key (shared left) names, ok)

  unfoldable pub unregister : Names K → K → Address → Names K × Response
  unfolding leave
  unregister names key address = leave names key address (get key_eq key names)

  -- `for (address_to_evict, _) in to_evict`
  unfoldable pub evict : Names K → K → List (Address × Instant) → Names K
  evict names key [] = names
  evict names key ((a, t) ∷ es) = evict (unregister names key a).0 key es

  -- The `ResolveRequest` branch of the server: `saturating_duration_since` is the truncated
  -- difference, and an entry with none left is evicted.
  unfoldable pub on_resolve : Names K → K → Instant → Names K × List (Address × ℕ)
  unfolding evict
  on_resolve names key now =
      let items = map (λ (e : Address × Instant). (e.0, e.1 - now)) (resolve names key) in
      (evict names key (retain (λ e. e.1 == 0) items), retain (λ e. not (e.1 == 0)) items)

  -- The `RegisterRequest` branch: the latest instant that the platform represents is `latest`.
  unfoldable pub on_register :
      Instant → Names K → Instant → K → Address → Bool → ℕ → Names K × Response
  on_register latest names now key address is_exclusive ttl =
      register names now key address is_exclusive
        (if leb (now + ttl) latest then now + ttl else now)
