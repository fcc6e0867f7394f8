-- ===== src/Multinode/Manager/Requests.antt =====
-- components/mm1-multinode/src/actors/multinode_manager.rs: the requests about protocols are served.
use mm.Shared.{◌≡◌, refl, List, [], ◌∷◌, ◌++◌, some, Bool, true, Holds, arith, map, inl, inr}
use mm.Shared.SlotMap.{SlotMap}
use mm.Subnet.{NetAddress, AddressRange}
use mm.Multinode.Codec.{ErasedCodec, Protocol, outbound_types, inbound_types}
use mm.Multinode.Registry.{ProtocolRegistry}
use mm.Multinode.Waitlist.{WaitlistEntry}
use mm.Shared.Ordered.{NameOrder}
use mm.Multinode.Manager.Routes.{nets_of}
use mm.Multinode.Manager.Protocols as protocols
use mm.Multinode.Manager.Serving.{
  IsSound, Follows, Follows-refl, Follows-trans, Keyed, Keyed-Follows, register_message-Follows,
}

module _ {N T H K : Type 0} (name_eq : Discrete N) (type_eq : Discrete T)
    (message_slots protocol_slots : SlotMap (ErasedCodec N T)) (order : NameOrder N)
    (wait_slots : SlotMap (WaitlistEntry N H K))
    (key_before : wait_slots.Key → wait_slots.Key → Bool) where
  open message_slots use {Key}
  open order use {cmp}

  abbrev Registry : Type 0
  Registry = ProtocolRegistry name_eq type_eq message_slots protocol_slots

  abbrev pub Manager : Type 0
  Manager = protocols.Manager name_eq type_eq message_slots protocol_slots cmp wait_slots key_before

  abbrev pub Effect : Type 0
  Effect = protocols.Effect name_eq type_eq message_slots protocol_slots cmp wait_slots key_before

  abbrev pub Response : Type 0
  Response =
      protocols.Response name_eq type_eq message_slots protocol_slots cmp wait_slots key_before

  abbrev pub Continues : Registry → Registry → Type 0
  Continues = Follows name_eq type_eq message_slots protocol_slots

  abbrev pub KeyedIn : Registry → List (ErasedCodec N T) → List (N × Key) → Type 0
  KeyedIn = Keyed name_eq type_eq message_slots protocol_slots

  pub register_types-Follows :
      (r : Registry) (l : List (ErasedCodec N T))
      → IsSound name_eq type_eq message_slots protocol_slots r
      → (r' : Registry) × (keys : List (N × Key)) × (protocols.register_types name_eq type_eq
            message_slots protocol_slots cmp wait_slots key_before r l
          ≡ some (r', keys))
        × Continues r r'
        × KeyedIn r' l keys
  unfolding protocols.register_types
  register_types-Follows r [] v =
      (r, [], refl, Follows-refl name_eq type_eq message_slots protocol_slots r v, tt)
  register_types-Follows r (c ∷ l) v =
      let (s, k, e, f, named) =
        register_message-Follows name_eq type_eq message_slots protocol_slots r c v in
      let (r', keys, q, g, known) = register_types-Follows s l f.sound in
      let (n, h) = named in
      (
        r',
        (c.name, k) ∷ keys,
        rw (e, protocols.register_types, q) refl,
        Follows-trans name_eq type_eq message_slots protocol_slots r s r' f g,
        (refl, (n, g.kept k n h), known),
      )

  pub resolve-Follows :
      (r : Registry) (p : Protocol name_eq type_eq protocol_slots)
      → IsSound name_eq type_eq message_slots protocol_slots r
      → (r' : Registry) × (outbound inbound : List (N × Key)) × (protocols.resolve name_eq type_eq
            message_slots protocol_slots cmp wait_slots key_before r p
          ≡ some (r', protocols.resolved p outbound inbound))
        × Continues r r'
        × KeyedIn r' (outbound_types name_eq type_eq protocol_slots p) outbound
        × KeyedIn r' (inbound_types name_eq type_eq protocol_slots p) inbound
  unfolding protocols.resolve
  resolve-Follows r p v =
      let (s, outbound, e, f, out_keys) =
        register_types-Follows r (outbound_types name_eq type_eq protocol_slots p) v in
      let (r', inbound, q, g, in_keys) =
        register_types-Follows s (inbound_types name_eq type_eq protocol_slots p) f.sound in
      (
        r',
        outbound,
        inbound,
        rw (e, protocols.resolve, q) refl,
        Follows-trans name_eq type_eq message_slots protocol_slots r s r' f g,
        Keyed-Follows name_eq type_eq message_slots protocol_slots s r'
            (outbound_types name_eq type_eq protocol_slots p) outbound g out_keys,
        in_keys,
      )

  pub announce-Follows :
      (subnets : List AddressRange) (nets : List NetAddress) (r : Registry)
      (l : List (ErasedCodec N T))
      → nets_of subnets ≡ some nets
      → IsSound name_eq type_eq message_slots protocol_slots r
      → (r' : Registry) × (routes : List Effect) × (protocols.announce name_eq type_eq message_slots
            protocol_slots cmp wait_slots key_before subnets r l
          ≡ some (r', routes))
        × Continues r r'
  unfolding protocols.announce
  announce-Follows subnets nets r [] n v =
      (r, [], refl, Follows-refl name_eq type_eq message_slots protocol_slots r v)
  announce-Follows subnets nets r (c ∷ l) n v =
      let (s, k, e, f, named) =
        register_message-Follows name_eq type_eq message_slots protocol_slots r c v in
      let (r', routes, q, g) = announce-Follows subnets nets s l n f.sound in
      (
        r',
        map (λ a. protocols.set_route k a) nets ++ routes,
        rw (e, protocols.announce, n, q) refl,
        Follows-trans name_eq type_eq message_slots protocol_slots r s r' f g,
      )

  pub answer_hits-Holds :
      (cancels : K → Bool) (response : Response) (hits : List (K × H))
      → ((t : K) → cancels t ≡ true)
      → (es : List Effect) × (protocols.answer_hits name_eq type_eq message_slots protocol_slots cmp
            wait_slots key_before cancels response hits
          ≡ some es)
        × ((t : K) (h : H)
            → Holds (t, h) hits
            → Holds (protocols.cancelled t) es × Holds (protocols.replied h response) es)
  unfolding protocols.answer_hits
  answer_hits-Holds cancels response [] all = ([], refl, λ t h q. absurd q)
  answer_hits-Holds cancels response ((t, h) ∷ r) all =
      let (es, e, told) = answer_hits-Holds cancels response r all in
      (
        protocols.cancelled t ∷ protocols.replied h response ∷ es,
        rw (all t, protocols.answer_hits, e) refl,
        (λ u i q. elim q [
          | inl same ↦ (inl (ground arith), inr (inl (ground arith)))
          | inr later ↦ (inr (inr (told u i later).0), inr (inr (told u i later).1))
        ]),
      )
