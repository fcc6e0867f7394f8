-- ===== src/Multinode/Manager/Registering.antt =====
-- components/mm1-multinode/src/actors/multinode_manager.rs: a protocol is registered, and those that wait for it
-- are answered.
use mm.Shared.{
  ◌≡◌, ◌≢◌, refl, ◌∙◌, List, [], ◌∷◌, ◌++◌, none, some, Bool, true, All, Holds, Holds-right, arith,
  inl, inr,
}
use mm.Shared.Map.{insert}
use mm.Shared.SlotMap.{SlotMap}
use mm.Subnet.{NetAddress, AddressRange}
use mm.Multinode.Codec.{ErasedCodec, Protocol, outbound_types, inbound_types}
use mm.Multinode.Registry.{ProtocolRegistry, protocol_by_name}
use mm.Multinode.Registry.Protocols.{IsKnown, register_protocol-Grows}
use mm.Multinode.Waitlist.{WaitlistEntry, Waitlist}
use mm.Shared.Ordered.{NameOrder}
use mm.Multinode.Waitlist.Invariant as waiting
use mm.Multinode.Waitlist.Answers.{Answers, take_waiters-Answers}
use mm.Multinode.Manager.Routes.{nets_of}
use mm.Multinode.Manager.Protocols as protocols
use mm.Multinode.Manager.Serving.{
  IsSound, Follows, Follows-trans, Keyed, register_protocol-protocols,
}
use mm.Multinode.Manager.Requests as requests
use mm.Multinode.Manager.Waiting.{Manager, Effect, Serves, same_protocol, added_protocol}

module _ {N T H K : Type 0} (name_eq : Discrete N) (type_eq : Discrete T)
    (message_slots protocol_slots : SlotMap (ErasedCodec N T)) (order : NameOrder N)
    (wait_slots : SlotMap (WaitlistEntry N H K))
    (key_before : wait_slots.Key → wait_slots.Key → Bool) where
  open message_slots use {Key}
  open order use {cmp}

  abbrev Registry : Type 0
  Registry = ProtocolRegistry name_eq type_eq message_slots protocol_slots

  abbrev pub AnyProtocol : Type 0
  AnyProtocol = Protocol name_eq type_eq protocol_slots

  abbrev pub Now : Type 0
  Now = Manager name_eq type_eq message_slots protocol_slots order wait_slots key_before

  abbrev pub Sent : Type 0
  Sent = List (Effect name_eq type_eq message_slots protocol_slots order wait_slots key_before)

  abbrev pub IsServing : Now → Type 0
  IsServing = Serves name_eq type_eq message_slots protocol_slots order wait_slots key_before

  -- All goes well around the manager: it can tell itself, timers can be cancelled, and the local subnets are those of
  -- networks.
  abbrev pub GoesWell : Bool → (K → Bool) → List AddressRange → List NetAddress → Type 0
  GoesWell tells cancels subnets nets =
      (tells ≡ true) × ((t : K) → cancels t ≡ true) × (nets_of subnets ≡ some nets)

  told_true :
      (tells : Bool) (es : Sent)
      → tells ≡ true
      → protocols.told name_eq type_eq message_slots protocol_slots cmp wait_slots key_before tells
          es
        ≡ true
  told_true tells [] h = refl
  told_true tells (e ∷ r) h = h

  -- The request is answered with the keys of the types, and its timer cancelled.
  abbrev pub Served : AnyProtocol → List (N × Key) → List (N × Key) → K → H → Sent → Type 0
  Served p outbound inbound timer reply_to es =
      Holds (protocols.cancelled timer) es
      × Holds (protocols.replied reply_to (protocols.resolved p outbound inbound)) es

  serve-Served :
      (tells : Bool) (cancels : K → Bool) (subnets : List AddressRange) (nets : List NetAddress)
      (reply_to : H) (p : AnyProtocol) (r : Registry)
      (w : Waitlist name_eq cmp wait_slots key_before) (hits : List (K × H)) (accepted : Bool)
      → GoesWell tells cancels subnets nets
      → IsSound name_eq type_eq message_slots protocol_slots r
      → (r' : Registry) × (es : Sent) × (outbound inbound : List (N × Key)) × (protocols.serve
            name_eq type_eq message_slots protocol_slots cmp wait_slots key_before tells cancels
            subnets reply_to p r w hits accepted
          ≡ protocols.done (record { protocol_registry = r'; protocol_waitlist = w }) es)
        × Follows name_eq type_eq message_slots protocol_slots r r'
        × Holds (protocols.registered reply_to accepted) es
        × ((t : K) (h : H) → Holds (t, h) hits → Served p outbound inbound t h es)
        × Keyed name_eq type_eq message_slots protocol_slots r'
            (outbound_types name_eq type_eq protocol_slots p)
            outbound
        × Keyed name_eq type_eq message_slots protocol_slots r'
            (inbound_types name_eq type_eq protocol_slots p)
            inbound
  unfolding protocols.serve
  serve-Served tells cancels subnets nets reply_to p r w hits accepted
        (ok_tells, ok_cancels, ok_nets) v =
      let (r1, routes, e1, f1) =
        requests.announce-Follows name_eq type_eq message_slots protocol_slots order wait_slots
          key_before subnets nets r (inbound_types name_eq type_eq protocol_slots p) ok_nets v in
      let (r2, outbound, inbound, e2, f2, out_keys, in_keys) =
        requests.resolve-Follows name_eq type_eq message_slots protocol_slots order wait_slots
          key_before r1 p f1.sound in
      let (answers, e3, told) =
        requests.answer_hits-Holds name_eq type_eq message_slots protocol_slots order wait_slots
          key_before cancels (protocols.resolved p outbound inbound) hits ok_cancels in
      let own : Sent = protocols.registered reply_to accepted ∷ answers in
      (
        r2,
        routes ++ own,
        outbound,
        inbound,
        rw (e1, protocols.serve, told_true tells routes ok_tells, e2, e3) refl,
        Follows-trans name_eq type_eq message_slots protocol_slots r r1 r2 f1 f2,
        Holds-right (protocols.registered reply_to accepted) routes own (inl refl),
        (λ t h q. (
          Holds-right (protocols.cancelled t) routes own (inr (told t h q).0),
          Holds-right (protocols.replied h (protocols.resolved p outbound inbound)) routes own
              (inr (told t h q).1),
        )),
        out_keys,
        in_keys,
      )

  registered-Serves :
      (s : Now) (r r' : Registry) (name : N) (p : AnyProtocol)
      (w : Waitlist name_eq cmp wait_slots key_before) (hits : List (K × H))
      → IsServing s
      → r.protocols ≡ insert name_eq name p s.protocol_registry.protocols
      → Follows name_eq type_eq message_slots protocol_slots r r'
      → Answers name_eq order wait_slots key_before s.protocol_waitlist name w hits
      → IsServing (record { protocol_registry = r'; protocol_waitlist = w })
  unfolding waiting.waits
  registered-Serves s r r' name p w hits v e f a = record {
    sound = f.sound;
    waits = a.valid;
    free = λ k g q. ground (
      arith,
      same_protocol name_eq type_eq message_slots protocol_slots order wait_slots key_before r r'
          g.protocol f.protocols,
      added_protocol name_eq type_eq message_slots protocol_slots order wait_slots key_before
          s.protocol_registry r name g.protocol p e,
      a.gone g.protocol k,
      v.free k g (a.kept k g q),
    );
  }

  -- What a registration that is accepted comes to.
  pub record Settles (s : Now) (name : N) (p : AnyProtocol) (outbound inbound : List (N × Key))
      (s' : Now) (es : Sent) : Type 0 where
    pub answered :
        (k : wait_slots.Key) (e : WaitlistEntry N H K) (t : K)
        → wait_slots.get s.protocol_waitlist.entries k ≡ some e
        → e.protocol ≡ name
        → e.timer_key ≡ some t
        → Served p outbound inbound t e.reply_to es
    pub gone :
        (k : wait_slots.Key) (e : WaitlistEntry N H K)
        → wait_slots.get s'.protocol_waitlist.entries k ≡ some e
        → e.protocol ≢ name
    pub stays :
        (k : wait_slots.Key) (e : WaitlistEntry N H K)
        → e.protocol ≢ name
        → wait_slots.get s.protocol_waitlist.entries k ≡ some e
        → wait_slots.get s'.protocol_waitlist.entries k ≡ some e
    pub found :
        protocol_by_name name_eq type_eq message_slots protocol_slots s'.protocol_registry name
        ≡ some p
    pub outbound_keys :
        Keyed name_eq type_eq message_slots protocol_slots s'.protocol_registry
          (outbound_types name_eq type_eq protocol_slots p)
          outbound
    pub inbound_keys :
        Keyed name_eq type_eq message_slots protocol_slots s'.protocol_registry
          (inbound_types name_eq type_eq protocol_slots p)
          inbound
    pub serves : IsServing s'

  -- In a manager that serves, a protocol with known codecs is registered under a free name, if all goes
  -- well around the manager. The request is accepted; whoever waits for the name is answered with the
  -- protocol and a key for each of its types, all of which the registry knows, and the timer of the
  -- request is cancelled; nobody waits for the name any more, and everyone else waits as before. The
  -- name leads to the protocol, and the manager still serves.
  pub register_protocol-Served :
      (tells : Bool) (cancels : K → Bool) (subnets : List AddressRange) (nets : List NetAddress)
      (s : Now) (reply_to : H) (name : N) (p : AnyProtocol)
      → GoesWell tells cancels subnets nets
      → IsServing s
      → protocol_by_name name_eq type_eq message_slots protocol_slots s.protocol_registry name
        ≡ none
      → All
          (IsKnown name_eq type_eq message_slots protocol_slots)
          (outbound_types name_eq type_eq protocol_slots p)
      → (s' : Now) × (es : Sent) × (outbound inbound : List (N × Key))
        × (protocols.on_register_protocol name_eq type_eq message_slots protocol_slots cmp
              wait_slots key_before tells cancels subnets s reply_to name p
            ≡ protocols.done s' es)
        × Holds (protocols.registered reply_to true) es
        × Settles s name p outbound inbound s' es
  unfolding protocols.on_register_protocol waiting.waits
  register_protocol-Served tells cancels subnets nets s reply_to name p well v free known =
      let (r, e, g, found) =
        register_protocol-Grows name_eq type_eq message_slots protocol_slots s.protocol_registry
          name p v.sound free known in
      let (w, hits, q, a) =
        take_waiters-Answers name_eq order wait_slots key_before s.protocol_waitlist name v.waits in
      let (r', es, outbound, inbound, served, f, reply, told, out_keys, in_keys) =
        serve-Served tells cancels subnets nets reply_to p r w hits true well g.valid in
      let added =
        register_protocol-protocols name_eq type_eq message_slots protocol_slots s.protocol_registry
          r name p e free in
      (
        record { protocol_registry = r'; protocol_waitlist = w },
        es,
        outbound,
        inbound,
        rw (e, protocols.on_register_protocol, q) served,
        reply,
        record {
          answered = λ k n t h i j. told t n.reply_to (a.answered k n t h i j);
          gone = λ k n h same. ground (arith, a.gone name k, h, same);
          stays = λ k n d h. a.stays k n d h;
          found =
              same_protocol name_eq type_eq message_slots protocol_slots order wait_slots key_before
                r r' name f.protocols
              ∙ found;
          outbound_keys = out_keys;
          inbound_keys = in_keys;
          serves = registered-Serves s r r' name p w hits v added f a;
        },
      )
