-- ===== src/Examples/Protocols.antt =====
-- A protocol registry with two messages; names and types are numbers.
use mm.Shared.{◌∷◌, [], ℕ, ◌≡◌, refl, none, some, All, ℕ_discrete}
use mm.Shared.Map.{get, insert}
use mm.Shared.SlotMap.{SlotMap, vacant_slots, next_key}
use mm.Multinode.Codec.{ErasedCodec, Protocol, new, store, outbound_types}
use mm.Multinode.Registry.{
  add_opaque, local_type_key_by_tid, ProtocolRegistry, default, register_message, protocol_by_name,
}
use mm.Multinode.Registry.Invariant.{IsValid, add_opaque-IsValid, default-IsValid}
use mm.Multinode.Registry.Stable.{IsRegistered, register_message-IsRegistered}
use mm.Multinode.Registry.Protocols.{IsKnown}

abbrev slots : SlotMap (ErasedCodec ℕ ℕ)
slots = vacant_slots (ErasedCodec ℕ ℕ)

abbrev ping : ErasedCodec ℕ ℕ
ping = record { name = 7; tid = some 70 }

abbrev opaque : ErasedCodec ℕ ℕ
opaque = record { name = 8; tid = none }

abbrev fresh : ProtocolRegistry ℕ_discrete ℕ_discrete slots slots
fresh = default ℕ_discrete ℕ_discrete slots slots

abbrev pings : Protocol ℕ_discrete ℕ_discrete slots
pings = store ℕ_discrete ℕ_discrete slots (new ℕ_discrete ℕ_discrete slots) ping

register_message-IsRegistered_example :
    IsRegistered ℕ_discrete ℕ_discrete slots slots fresh opaque
      (register_message ℕ_discrete ℕ_discrete slots slots fresh opaque)
register_message-IsRegistered_example =
    register_message-IsRegistered ℕ_discrete ℕ_discrete slots slots fresh opaque
      (default-IsValid ℕ_discrete ℕ_discrete slots slots)

fresh-none : protocol_by_name ℕ_discrete ℕ_discrete slots slots fresh 1 ≡ none
unfolding protocol_by_name default get
fresh-none = refl

pings-All :
    All
      (IsKnown ℕ_discrete ℕ_discrete slots slots)
      (outbound_types ℕ_discrete ℕ_discrete slots pings)
unfolding outbound_types store new
pings-All = ((70, refl), tt)

-- The registry that knows the opaque message.
abbrev opaque_known : ProtocolRegistry ℕ_discrete ℕ_discrete slots slots
opaque_known = (add_opaque ℕ_discrete ℕ_discrete slots slots fresh opaque).0

opaque-free : get ℕ_discrete 8 fresh.codec_by_name ≡ none
unfolding default get
opaque-free = refl

opaque_known-IsValid : IsValid ℕ_discrete ℕ_discrete slots slots opaque_known
opaque_known-IsValid =
    add_opaque-IsValid ℕ_discrete ℕ_discrete slots slots fresh opaque opaque-free
      (default-IsValid ℕ_discrete ℕ_discrete slots slots)

opaque-key : get ℕ_discrete 8 opaque_known.codec_by_name ≡ some 0
unfolding add_opaque default get insert next_key ℕ_discrete
opaque-key = refl

opaque-untyped : local_type_key_by_tid ℕ_discrete ℕ_discrete slots slots opaque_known 80 ≡ none
unfolding local_type_key_by_tid add_opaque default get
opaque-untyped = refl

-- The registry that holds the protocol.
abbrev holding : ProtocolRegistry ℕ_discrete ℕ_discrete slots slots
holding = record fresh { protocols = (1, pings) ∷ [] }

holding-some : protocol_by_name ℕ_discrete ℕ_discrete slots slots holding 1 ≡ some pings
unfolding protocol_by_name get ℕ_discrete
holding-some = refl
