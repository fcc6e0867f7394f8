-- ===== src/Multinode/Manager/Waiting.antt =====
-- components/mm1-multinode/src/actors/multinode_manager.rs: whoever waits for a protocol is answered.
use mm.Shared.{
  ◌≡◌, refl, ap, ◌∙◌, List, [], ◌∷◌, Option, none, some, Bool, true, false, ite, arith,
  Option-cases, inl, inr,
}
use mm.Shared.Map.{get, insert, get-insert}
use mm.Shared.SlotMap.{SlotMap}
use mm.Multinode.Codec.{ErasedCodec, Protocol, outbound_types, inbound_types}
use mm.Multinode.Registry.{ProtocolRegistry, protocol_by_name}
use mm.Multinode.Waitlist.{WaitlistEntry, leave, has}
use mm.Shared.Ordered.{NameOrder}
use mm.Multinode.Waitlist.Invariant as waiting
use mm.Multinode.Manager.Protocols as protocols
use mm.Multinode.Manager.Serving.{IsSound, Keyed}
use mm.Multinode.Manager.Requests as requests

module _ {N T H K : Type 0} (name_eq : Discrete N) (type_eq : Discrete T)
    (message_slots protocol_slots : SlotMap (ErasedCodec N T)) (order : NameOrder N)
    (wait_slots : SlotMap (WaitlistEntry N H K))
    (key_before : wait_slots.Key → wait_slots.Key → Bool) where
  open message_slots use {Key}
  open order use {cmp}

  abbrev Registry : Type 0
  Registry = ProtocolRegistry name_eq type_eq message_slots protocol_slots

  abbrev pub Manager : Type 0
  Manager = protocols.Manager name_eq type_eq message_slots protocol_slots cmp wait_slots key_before

  abbrev pub Effect : Type 0
  Effect = protocols.Effect name_eq type_eq message_slots protocol_slots cmp wait_slots key_before

  -- The registry and the waitlist are sound, and nobody waits for a protocol that is registered.
  pub record Serves (s : Manager) : Type 0 where
    pub sound : IsSound name_eq type_eq message_slots protocol_slots s.protocol_registry
    pub waits : waiting.IsValid name_eq order wait_slots key_before s.protocol_waitlist
    pub free :
        (k : wait_slots.Key) (e : WaitlistEntry N H K)
        → wait_slots.get s.protocol_waitlist.entries k ≡ some e
        → protocol_by_name name_eq type_eq message_slots protocol_slots s.protocol_registry
            e.protocol
          ≡ none

  pub same_protocol :
      (r r' : Registry) (n : N)
      → r'.protocols ≡ r.protocols
      → protocol_by_name name_eq type_eq message_slots protocol_slots r' n
        ≡ protocol_by_name name_eq type_eq message_slots protocol_slots r n
  unfolding protocol_by_name
  same_protocol r r' n e = ap (get name_eq n) e

  pub added_protocol :
      (r r' : Registry) (n m : N) (p : Protocol name_eq type_eq protocol_slots)
      → r'.protocols ≡ insert name_eq n p r.protocols
      → protocol_by_name name_eq type_eq message_slots protocol_slots r' m
        ≡ ite
            (name_eq n m)
            (some p)
            (protocol_by_name name_eq type_eq message_slots protocol_slots r m)
  unfolding protocol_by_name
  added_protocol r r' n m p e = ap (get name_eq m) e ∙ get-insert name_eq n m p r.protocols

  -- In a manager that serves, the request of a timer that has elapsed is answered by `NoProtocol` if it
  -- still waits, and is gone then; without one nothing happens. No assertion fails, and the manager
  -- still serves.
  pub timeout-Serves :
      (s : Manager) (key : wait_slots.Key)
      → Serves s
      → (s' : Manager) × (es : List Effect) × (protocols.on_waitlist_timeout_elapsed name_eq type_eq
            message_slots protocol_slots cmp wait_slots key_before s key
          ≡ protocols.done s' es)
        × (es ≡ elim (wait_slots.get s.protocol_waitlist.entries key) [
          | none ↦ []
          | some e ↦ protocols.replied e.reply_to protocols.no_protocol ∷ []
        ])
        × (wait_slots.get s'.protocol_waitlist.entries key ≡ none)
        × Serves s'
  unfolding protocols.on_waitlist_timeout_elapsed leave waiting.waits
  timeout-Serves s key v =
      let w = s.protocol_waitlist in
      elim (Option-cases (wait_slots.get w.entries key)) [
        | inl gone ↦
            (s, [], rw (gone, protocols.on_waitlist_timeout_elapsed) refl, rw gone refl, gone, v)
        | inr (e, h) ↦
            let here : has name_eq cmp wait_slots key_before e.protocol key w.by_protocol ≡ true =
              ground (arith, v.waits.agree e.protocol key, h) in
            (
              record s {
                protocol_waitlist = waiting.without name_eq order wait_slots key_before w key e;
              },
              protocols.replied e.reply_to protocols.no_protocol ∷ [],
              rw (h, protocols.on_waitlist_timeout_elapsed, v.free key e h, here, leave) refl,
              rw h refl,
              ground (arith, wait_slots.get-remove w.entries key key),
              record {
                sound = v.sound;
                waits =
                    waiting.without-IsValid name_eq order wait_slots key_before w key e h v.waits;
                free = λ k f q. v.free k f (ground (arith, wait_slots.get-remove w.entries key k));
              },
            )
      ]

  -- The answer to `GetProtocolByName`: a known protocol at once; the error without a timeout; else the request waits
  -- with its timer, and nothing else that waits changes.
  abbrev pub Gets :
      Manager
      → Option (Protocol name_eq type_eq protocol_slots)
      → Bool
      → N
      → H
      → K
      → Manager
      → List Effect
      → Type 0
  Gets s (some p) waits name reply_to timer s' es =
      (s'.protocol_waitlist ≡ s.protocol_waitlist)
      × (outbound inbound : List (N × Key)) × (es
          ≡ protocols.replied reply_to (protocols.resolved p outbound inbound) ∷ [])
      × Keyed name_eq type_eq message_slots protocol_slots s'.protocol_registry
          (outbound_types name_eq type_eq protocol_slots p) outbound
      × Keyed name_eq type_eq message_slots protocol_slots s'.protocol_registry
          (inbound_types name_eq type_eq protocol_slots p) inbound
  Gets s none false name reply_to timer s' es =
      (s' ≡ s) × (es ≡ protocols.replied reply_to protocols.no_protocol ∷ [])
  Gets s none true name reply_to timer s' es =
      (es ≡ [])
      × (k : wait_slots.Key) × (wait_slots.get s.protocol_waitlist.entries k ≡ none)
      × ((j : wait_slots.Key)
          → wait_slots.get s'.protocol_waitlist.entries j
            ≡ ite (wait_slots.key_eq k j)
                (some (record { protocol = name; reply_to = reply_to; timer_key = some timer }))
                (wait_slots.get s.protocol_waitlist.entries j))

  kept_free :
      (s : Manager) (r : Registry)
      → r.protocols ≡ s.protocol_registry.protocols
      → Serves s
      → IsSound name_eq type_eq message_slots protocol_slots r
      → Serves (record s { protocol_registry = r })
  kept_free s r e v sound = record {
    sound = sound;
    waits = v.waits;
    free = λ k f q. same_protocol s.protocol_registry r f.protocol e ∙ v.free k f q;
  }

  -- In a manager that serves, `GetProtocolByName` does not panic, if the timer can be scheduled: a
  -- protocol that is registered is answered at once with a key for each of its types, all of which the
  -- registry knows, a request that does not wait is refused, and any other waits with its timer.
  -- Nothing else that waits changes, and the manager still serves.
  pub get_protocol-Gets :
      (s : Manager) (reply_to : H) (name : N) (waits : Bool) (timer : K)
      → Serves s
      → (s' : Manager) × (es : List Effect) × (protocols.on_get_protocol_by_name name_eq type_eq
            message_slots protocol_slots cmp wait_slots key_before s reply_to name waits
            (some timer)
          ≡ protocols.done s' es)
        × Gets s
            (protocol_by_name name_eq type_eq message_slots protocol_slots s.protocol_registry name)
            waits
            name
            reply_to
            timer
            s'
            es
        × Serves s'
  unfolding protocols.on_get_protocol_by_name
  get_protocol-Gets s reply_to name waits timer v =
      elim (Option-cases
        (protocol_by_name name_eq type_eq message_slots protocol_slots s.protocol_registry name)) [
          | inr (p, h) ↦
              let (r, outbound, inbound, e, f, out_keys, in_keys) =
                requests.resolve-Follows name_eq type_eq message_slots protocol_slots order
                  wait_slots key_before s.protocol_registry p v.sound in
              (
                record s { protocol_registry = r },
                protocols.replied reply_to (protocols.resolved p outbound inbound) ∷ [],
                rw (h, protocols.on_get_protocol_by_name, e) refl,
                rw h (refl, outbound, inbound, refl, out_keys, in_keys),
                kept_free s r f.protocols v f.sound,
              )
          | inl free ↦ unknown free waits
        ]
    where
      unknown :
          protocol_by_name name_eq type_eq message_slots protocol_slots s.protocol_registry name
            ≡ none
          → (b : Bool)
          → (s' : Manager) × (es : List Effect) × (protocols.on_get_protocol_by_name name_eq type_eq
                message_slots protocol_slots cmp wait_slots key_before s reply_to name b
                (some timer)
              ≡ protocols.done s' es)
            × Gets s
                (protocol_by_name name_eq type_eq message_slots protocol_slots s.protocol_registry
                  name)
                b
                name
                reply_to
                timer
                s'
                es
            × Serves s'
      unknown free false = (
        s,
        protocols.replied reply_to protocols.no_protocol ∷ [],
        rw (free, protocols.on_get_protocol_by_name) refl,
        rw free (refl, refl),
        v,
      )
      unknown free true =
          let (w, k, e, vacant, got, valid) =
            waiting.join-IsValid name_eq order wait_slots key_before s.protocol_waitlist name
              reply_to timer v.waits in
          (
            record s { protocol_waitlist = w },
            [],
            rw (free, protocols.on_get_protocol_by_name, e) refl,
            rw free (refl, k, vacant, got),
            record {
              sound = v.sound;
              waits = valid;
              free = λ j f q. ground (arith, got j, v.free j f, free);
            },
          )
