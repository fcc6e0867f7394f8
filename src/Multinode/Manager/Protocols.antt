-- ===== src/Multinode/Manager/Protocols.antt =====
-- components/mm1-multinode/src/actors/multinode_manager.rs: the requests about protocols and message types. What
-- the manager sends is a result of the request. Whether a message to itself and a cancellation of a
-- timer succeed, and the key of a timer that was scheduled, are arguments.
use mm.Shared.{ℕ, List, [], ◌∷◌, ◌++◌, Option, none, some, Bool, true, false, if◌then◌else◌, map}
use Prim.Native.Nat.{Ordering}
use mm.Shared.SlotMap.{SlotMap}
use mm.Subnet.{NetAddress, AddressRange}
use mm.Multinode.Codec.{ErasedCodec, Protocol, outbound_types, inbound_types}
use mm.Multinode.Registry as registry
use mm.Multinode.Registry.{
  ProtocolRegistry, UnregisterError, ok, refused, register_message, register_protocol,
  unregister_protocol, protocol_by_name, message_name_by_key, local_type_key_by_tid,
}
use mm.Multinode.Manager.Routes.{nets_of}
use mm.Multinode.Waitlist.{WaitlistEntry, Waitlist, take_waiters, join, leave}

module _ {N T H K : Type 0} (name_eq : Discrete N) (type_eq : Discrete T)
    (message_slots protocol_slots : SlotMap (ErasedCodec N T)) (cmp : N → N → Ordering)
    (wait_slots : SlotMap (WaitlistEntry N H K))
    (key_before : wait_slots.Key → wait_slots.Key → Bool) where
  open message_slots use {Key}

  abbrev pub Registry : Type 0
  Registry = ProtocolRegistry name_eq type_eq message_slots protocol_slots

  abbrev pub AnyProtocol : Type 0
  AnyProtocol = Protocol name_eq type_eq protocol_slots

  abbrev pub AnyWaitlist : Type 0
  AnyWaitlist = Waitlist name_eq cmp wait_slots key_before

  pub record Manager : Type 0 where
    pub protocol_registry : Registry
    pub protocol_waitlist : AnyWaitlist

  -- The answer to `GetProtocolByName`: `ProtocolResolved`, or the error `NoProtocol`.
  pub data Response : Type 0 where
    resolved : AnyProtocol → List (N × Key) → List (N × Key) → Response
    no_protocol : Response

  -- `SetRoute` to the manager itself, with the metric 0; the answer to `RegisterProtocol`, which says whether it
  -- is `Ok`; the answer to `GetProtocolByName`; a timer that is cancelled.
  pub data Effect : Type 0 where
    set_route : Key → NetAddress → Effect
    registered : H → Bool → Effect
    replied : H → Response → Effect
    cancelled : K → Effect

  -- `fails` where an error ends the handler.
  pub data Handled : Type 0 where
    done : Manager → List Effect → Handled
    fails panicked : Handled

  -- `.map(|c| (c.name(), protocol_registry.register_message(c))).collect()`.
  unfoldable pub register_types :
      Registry → List (ErasedCodec N T) → Option (Registry × List (N × Key))
  register_types r [] = some (r, [])
  register_types r (c ∷ l) =
      elim (register_message name_eq type_eq message_slots protocol_slots r c) [
        | none ↦ none
        | some (r', key) ↦ elim (register_types r' l) [
          | none ↦ none
          | some (r'', keys) ↦ some (r'', (c.name, key) ∷ keys)
        ]
      ]

  -- The outbound types, and then the inbound ones.
  unfoldable pub resolve : Registry → AnyProtocol → Option (Registry × Response)
  unfolding register_types
  resolve r p = elim (register_types r (outbound_types name_eq type_eq protocol_slots p)) [
    | none ↦ none
    | some (r', outbound) ↦
        elim (register_types r' (inbound_types name_eq type_eq protocol_slots p)) [
          | none ↦ none
          | some (r'', inbound) ↦ some (r'', resolved p outbound inbound)
        ]
  ]

  -- Each inbound type gets a route to each local subnet.
  unfoldable pub announce :
      List AddressRange → Registry → List (ErasedCodec N T) → Option (Registry × List Effect)
  unfolding nets_of
  announce subnets r [] = some (r, [])
  announce subnets r (c ∷ l) =
      elim (register_message name_eq type_eq message_slots protocol_slots r c) [
        | none ↦ none
        | some (r', key) ↦ elim (nets_of subnets) [
          | none ↦ none
          | some nets ↦ elim (announce subnets r' l) [
            | none ↦ none
            | some (r'', routes) ↦ some (r'', map (λ n. set_route key n) nets ++ routes)
          ]
        ]
      ]

  -- Each request that waited: its timer is cancelled, and it is answered.
  unfoldable pub answer_hits : (K → Bool) → Response → List (K × H) → Option (List Effect)
  answer_hits cancels response [] = some []
  answer_hits cancels response ((timer, reply_to) ∷ r) =
      let rest = answer_hits cancels response r in
      if cancels timer
      then elim rest [
        | none ↦ none
        | some effects ↦ some (cancelled timer ∷ replied reply_to response ∷ effects)
      ]
      else none

  -- `ctx.tell` fails only if there is something to tell.
  abbrev pub told : Bool → List Effect → Bool
  told tells [] = true
  told tells (e ∷ r) = tells

  -- What follows the registration, whether it was accepted or not.
  unfoldable pub serve :
      Bool
      → (K → Bool)
      → List AddressRange
      → H
      → AnyProtocol
      → Registry
      → AnyWaitlist
      → List (K × H)
      → Bool
      → Handled
  unfolding announce resolve answer_hits
  serve tells cancels subnets reply_to p r w hits accepted =
      elim (announce subnets r (inbound_types name_eq type_eq protocol_slots p)) [
        | none ↦ panicked
        | some (r1, routes) ↦
            if told tells routes
            then elim (resolve r1 p) [
              | none ↦ panicked
              | some (r2, response) ↦ elim (answer_hits cancels response hits) [
                | none ↦ fails
                | some answers ↦
                    done (record { protocol_registry = r2; protocol_waitlist = w })
                      (routes ++ registered reply_to accepted ∷ answers)
              ]
            ]
            else fails
      ]

  unfoldable pub on_register_protocol :
      Bool → (K → Bool) → List AddressRange → Manager → H → N → AnyProtocol → Handled
  unfolding serve
  on_register_protocol tells cancels subnets s reply_to name p =
      elim (register_protocol name_eq type_eq message_slots protocol_slots s.protocol_registry name
        p) [
          | registry.panicked ↦ panicked
          | refused e ↦
              serve tells cancels subnets reply_to p s.protocol_registry s.protocol_waitlist []
                false
          | ok r ↦ elim (take_waiters name_eq cmp wait_slots key_before s.protocol_waitlist name) [
            | none ↦ panicked
            | some (w, hits) ↦ serve tells cancels subnets reply_to p r w hits true
          ]
        ]

  -- With the error of a refusal; `none` where it panics. `others` counts the further handles on the protocol's `Arc`.
  unfoldable pub on_unregister_protocol :
      Manager → N → ℕ → Option (Manager × Option UnregisterError)
  on_unregister_protocol s name others =
      elim (unregister_protocol name_eq type_eq message_slots protocol_slots s.protocol_registry
        name others) [
          | registry.panicked ↦ none
          | refused e ↦ some (s, some e)
          | ok r ↦ some (record s { protocol_registry = r }, none)
        ]

  -- With the key of the answer; `none` where it panics.
  unfoldable pub on_register_opaque_message : Manager → N → Option (Manager × Key)
  on_register_opaque_message s name =
      elim (register_message name_eq type_eq message_slots protocol_slots s.protocol_registry
        (record { name = name; tid = none })) [
          | none ↦ none
          | some (r, key) ↦ some (record s { protocol_registry = r }, key)
        ]

  unfoldable pub on_get_message_name : Manager → Key → Option N
  on_get_message_name s key =
      message_name_by_key name_eq type_eq message_slots protocol_slots s.protocol_registry key

  unfoldable pub on_resolve_type_id : Manager → T → Option Key
  on_resolve_type_id s t =
      local_type_key_by_tid name_eq type_eq message_slots protocol_slots s.protocol_registry t

  -- `waits` says whether the request has a timeout, and `scheduled` is the answer of the timer then.
  unfoldable pub on_get_protocol_by_name : Manager → H → N → Bool → Option K → Handled
  unfolding resolve
  on_get_protocol_by_name s reply_to name waits scheduled =
      elim (protocol_by_name name_eq type_eq message_slots protocol_slots s.protocol_registry
        name) [
          | some p ↦ elim (resolve s.protocol_registry p) [
            | none ↦ panicked
            | some (r, response) ↦
                done (record s { protocol_registry = r }) (replied reply_to response ∷ [])
          ]
          | none ↦ elim waits [
            | false ↦ done s (replied reply_to no_protocol ∷ [])
            | true ↦ elim scheduled [
              | none ↦ fails
              | some timer ↦
                  elim (join name_eq cmp wait_slots key_before s.protocol_waitlist name reply_to
                    timer) [
                      | none ↦ panicked
                      | some (w, key) ↦ done (record s { protocol_waitlist = w }) []
                    ]
            ]
          ]
        ]

  unfoldable pub on_waitlist_timeout_elapsed : Manager → wait_slots.Key → Handled
  on_waitlist_timeout_elapsed s key = elim (wait_slots.get s.protocol_waitlist.entries key) [
    | none ↦ done s []
    | some e ↦
        elim (protocol_by_name name_eq type_eq message_slots protocol_slots s.protocol_registry
          e.protocol) [
            | some p ↦ panicked
            | none ↦ elim (leave name_eq cmp wait_slots key_before s.protocol_waitlist key e) [
              | none ↦ panicked
              | some w ↦
                  done (record s { protocol_waitlist = w }) (replied e.reply_to no_protocol ∷ [])
            ]
          ]
  ]
