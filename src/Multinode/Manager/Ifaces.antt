-- ===== src/Multinode/Manager/Ifaces.antt =====
-- components/mm1-multinode/src/actors/multinode_manager.rs: the interfaces that the node connects to and listens
-- on. The supervisor's answer to a request to start an actor is an argument; `fails` is an error of it.
use mm.Shared.{◌≡◌, ◌≢◌, refl, List, [], Option, none, some, arith, Option-cases, inl, inr}
use mm.Shared.Map.{get, insert, get-insert}
use mm.Shared.SlotMap.{SlotMap}
use mm.Subnet.{Address}

pub record IfaceEntry (A : Type 0) : Type 0 where
  pub iface_address : A
  pub actor_address : Address

-- What the supervisor is asked for.
pub record StartRequest (A N O : Type 0) : Type 0 where
  pub sup : Address
  pub iface_address : A
  pub protocol_names : List N
  pub options : O

-- `DuplicateDstAddr` and `DuplicateBindAddr`.
pub data IfaceError : Type 0 where
  duplicate_dst_addr duplicate_bind_addr : IfaceError

-- The reply is an error, or `Ok` after the request to the supervisor.
pub data Outcome (S R : Type 0) : Type 0 where
  rejected : S → IfaceError → Outcome S R
  accepted : S → R → Outcome S R
  fails : R → Outcome S R

request : {A N O : Type 0} → Address → A → List N → O → StartRequest A N O
request sup iface names options = record {
  sup = sup;
  iface_address = iface;
  protocol_names = names;
  options = options;
}

module _ {A : Type 0} (address_eq : Discrete A) (slots : SlotMap (IfaceEntry A)) where
  pub record Ifaces : Type 0 where
    pub entries : slots.Slots
    pub by_iface_addr : List (A × slots.Key)

  unfoldable pub default : Ifaces
  default = record { entries = slots.empty; by_iface_addr = [] }

  unfoldable pub add_iface : Ifaces → A → Address → Ifaces
  add_iface i iface actor =
      let (entries, key) =
        slots.insert i.entries (record { iface_address = iface; actor_address = actor }) in
      record { entries = entries; by_iface_addr = insert address_eq iface key i.by_iface_addr }

  unfoldable pub start_iface :
      {N O : Type 0}
      → IfaceError
      → Address
      → Option Address
      → Ifaces
      → A
      → List N
      → O
      → Outcome Ifaces (StartRequest A N O)
  unfolding add_iface request
  start_iface duplicate sup answer i iface names options =
      elim (get address_eq iface i.by_iface_addr) [
        | some key ↦ rejected i duplicate
        | none ↦ elim answer [
          | none ↦ fails (request sup iface names options)
          | some actor ↦ accepted (add_iface i iface actor) (request sup iface names options)
        ]
      ]

  -- An address leads to a key exactly when the entry under the key is for the address.
  pub record IsValid (i : Ifaces) : Type 0 where
    pub backed :
        (a : A) (k : slots.Key)
        → get address_eq a i.by_iface_addr ≡ some k
        → (actor : Address) × (slots.get i.entries k
            ≡ some (record { iface_address = a; actor_address = actor }))
    pub listed :
        (k : slots.Key) (e : IfaceEntry A)
        → slots.get i.entries k ≡ some e
        → get address_eq e.iface_address i.by_iface_addr ≡ some k

  add_iface-IsValid :
      (i : Ifaces) (iface : A) (actor : Address)
      → get address_eq iface i.by_iface_addr ≡ none
      → IsValid i
      → IsValid (add_iface i iface actor)
  unfolding add_iface
  add_iface-IsValid i iface actor free v =
      let e : IfaceEntry A = record { iface_address = iface; actor_address = actor } in
      let key = (slots.insert i.entries e).1 in
      record {
        backed = λ a k h. elim (address_eq iface a) [
          | yes p ↦ (
            actor,
            ground (
              arith,
              get-insert address_eq iface a key i.by_iface_addr,
              slots.get-insert i.entries e k,
            ),
          )
          | no n ↦
              let (other, q) =
                v.backed a k (ground (arith, get-insert address_eq iface a key i.by_iface_addr)) in
              (
                other,
                ground (arith, slots.get-insert i.entries e k, slots.insert_fresh i.entries e, q),
              )
        ];
        listed = λ k f h. ground (
          arith,
          slots.get-insert i.entries e k,
          get-insert address_eq iface f.iface_address key i.by_iface_addr,
          v.listed k f,
        );
      }

  added :
      (i : Ifaces) (iface : A) (actor : Address)
      → (k : slots.Key) × (get address_eq iface (add_iface i iface actor).by_iface_addr ≡ some k)
  unfolding add_iface
  added i iface actor =
      let k =
        (slots.insert i.entries (record { iface_address = iface; actor_address = actor })).1 in
      (k, ground (arith, get-insert address_eq iface iface k i.by_iface_addr))

  -- What a request comes to: without an error of the supervisor, exactly an address that is there is rejected, and
  -- nothing changes; a new one leads to an entry with the actor that was started.
  abbrev pub Starts : {R : Type 0} → Ifaces → A → Outcome Ifaces R → Type 0
  Starts i iface (rejected j e) = (j ≡ i) × (get address_eq iface i.by_iface_addr ≢ none)
  Starts i iface (accepted j r) =
      (get address_eq iface i.by_iface_addr ≡ none)
      × IsValid j
      × ((k : slots.Key) × (get address_eq iface j.by_iface_addr ≡ some k))
  Starts i iface (fails r) = get address_eq iface i.by_iface_addr ≡ none

  pub start_iface-Starts :
      {N O : Type 0} (duplicate : IfaceError) (sup : Address) (answer : Option Address) (i : Ifaces)
      (iface : A) (names : List N) (options : O)
      → IsValid i
      → Starts i iface (start_iface duplicate sup answer i iface names options)
  unfolding start_iface
  start_iface-Starts duplicate sup answer i iface names options v =
      elim (Option-cases (get address_eq iface i.by_iface_addr)) [
        | inr (k, h) ↦ rw (h, start_iface) (refl, (λ e. cc))
        | inl free ↦ answered free answer
      ]
    where
      answered :
          get address_eq iface i.by_iface_addr ≡ none
          → (o : Option Address)
          → Starts i iface (start_iface duplicate sup o i iface names options)
      answered free none = rw (free, start_iface) free
      answered free (some actor) =
          rw (free, start_iface) (free, add_iface-IsValid i iface actor free v, added i iface actor)

-- The four kinds of interfaces, with the supervisors of their actors.
module _ {S P : Type 0} (socket_eq : Discrete S) (path_eq : Discrete P)
    (tcp : SlotMap (IfaceEntry S)) (uds : SlotMap (IfaceEntry P)) where
  pub record Interfaces : Type 0 where
    pub tcp_connector_sup : Address
    pub tcp_acceptor_sup : Address
    pub uds_connector_sup : Address
    pub uds_acceptor_sup : Address
    pub tcp_acceptors : Ifaces socket_eq tcp
    pub uds_acceptors : Ifaces path_eq uds
    pub tcp_connectors : Ifaces socket_eq tcp
    pub uds_connectors : Ifaces path_eq uds

  -- The outcome for one kind is one for all.
  abbrev lift : {I R : Type 0} → (I → Interfaces) → Outcome I R → Outcome Interfaces R
  lift put (rejected i e) = rejected (put i) e
  lift put (accepted i r) = accepted (put i) r
  lift put (fails r) = fails r

  unfoldable pub connect_tcp :
      {N O : Type 0}
      → Option Address
      → Interfaces
      → S
      → List N
      → O
      → Outcome Interfaces (StartRequest S N O)
  unfolding start_iface
  connect_tcp answer i dst names options =
      lift (λ c. record i { tcp_connectors = c })
        (start_iface socket_eq tcp duplicate_dst_addr i.tcp_connector_sup answer i.tcp_connectors
          dst names options)

  unfoldable pub connect_uds :
      {N O : Type 0}
      → Option Address
      → Interfaces
      → P
      → List N
      → O
      → Outcome Interfaces (StartRequest P N O)
  unfolding start_iface
  connect_uds answer i dst names options =
      lift (λ c. record i { uds_connectors = c })
        (start_iface path_eq uds duplicate_dst_addr i.uds_connector_sup answer i.uds_connectors dst
          names options)

  unfoldable pub bind_tcp :
      {N O : Type 0}
      → Option Address
      → Interfaces
      → S
      → List N
      → O
      → Outcome Interfaces (StartRequest S N O)
  unfolding start_iface
  bind_tcp answer i at names options =
      lift (λ c. record i { tcp_acceptors = c })
        (start_iface socket_eq tcp duplicate_bind_addr i.tcp_acceptor_sup answer i.tcp_acceptors at
          names options)

  unfoldable pub bind_uds :
      {N O : Type 0}
      → Option Address
      → Interfaces
      → P
      → List N
      → O
      → Outcome Interfaces (StartRequest P N O)
  unfolding start_iface
  bind_uds answer i at names options =
      lift (λ c. record i { uds_acceptors = c })
        (start_iface path_eq uds duplicate_bind_addr i.uds_acceptor_sup answer i.uds_acceptors at
          names options)
