-- ===== src/Multinode/Registry.antt =====
-- components/mm1-multinode/src/protocol_registry.rs: the protocols and message types that a node knows.
-- The index of `codecs`, `expect` and `assert!` panic where a function returns `none`. `message_slots` and
-- `protocol_slots` are the slot maps of the registry and of a protocol; a `CodecEntry` is its codec.
pub mod Stable
pub mod Protocols
pub mod Invariant
use mm.Shared.{ℕ, zero, suc, List, [], ◌∷◌, ◌++◌, Option, none, some}
use mm.Shared.Map.{get, insert, remove}
use mm.Shared.SlotMap.{SlotMap}
use mm.Multinode.Codec.{ErasedCodec, Protocol, outbound_types, inbound_types}

pub data RegisterError : Type 0 where
  duplicate_protocol_name : RegisterError

pub data UnregisterError : Type 0 where
  no_protocol protocol_in_use : UnregisterError

-- What a fallible function of the registry comes to.
pub data Answer (E A : Type 0) : Type 0 where
  ok : A → Answer E A
  refused : E → Answer E A
  panicked : Answer E A

module _ {N T : Type 0} (name_eq : Discrete N) (type_eq : Discrete T)
    (message_slots protocol_slots : SlotMap (ErasedCodec N T)) where
  open message_slots use {Key, Slots}

  pub record ProtocolRegistry : Type 0 where
    pub protocols : List (N × Protocol name_eq type_eq protocol_slots)
    pub codecs : Slots
    pub codec_by_name : List (N × Key)
    pub codec_by_type_id : List (T × Key)

  unfoldable pub default : ProtocolRegistry
  default = record {
    protocols = [];
    codecs = message_slots.empty;
    codec_by_name = [];
    codec_by_type_id = [];
  }

  -- The codec under a key, `codecs[key]`.
  unfoldable pub codec_of : ProtocolRegistry → Key → Option (ErasedCodec N T)
  codec_of r key = message_slots.get r.codecs key

  -- A message type of a new name and, if it is known, a new type: it gets a new key.
  unfoldable pub add_known : ProtocolRegistry → ErasedCodec N T → T → ProtocolRegistry × Key
  add_known r codec t =
      let (codecs, key) = message_slots.insert r.codecs codec in
      (
        record r {
          codecs = codecs;
          codec_by_name = insert name_eq codec.name key r.codec_by_name;
          codec_by_type_id = insert type_eq t key r.codec_by_type_id;
        },
        key,
      )

  -- The name has a key: its codec is replaced.
  unfoldable pub replace_codec : ProtocolRegistry → ErasedCodec N T → T → Key → ProtocolRegistry
  replace_codec r codec t key = record r {
    codecs = message_slots.write r.codecs key codec;
    codec_by_type_id = insert type_eq t key r.codec_by_type_id;
  }

  unfoldable pub register_known_message :
      ProtocolRegistry → ErasedCodec N T → Option (ProtocolRegistry × Key)
  unfolding codec_of add_known replace_codec
  register_known_message r codec = elim codec.tid [
    | none ↦ none
    | some t ↦ elim (get type_eq t r.codec_by_type_id) [
      | some key ↦ some (r, key)
      | none ↦ elim (get name_eq codec.name r.codec_by_name) [
        | none ↦ some (add_known r codec t)
        | some key ↦ elim (codec_of r key) [
          | none ↦ none
          | some old ↦ some (replace_codec r codec t key, key)
        ]
      ]
    ]
  ]

  unfoldable pub add_opaque : ProtocolRegistry → ErasedCodec N T → ProtocolRegistry × Key
  add_opaque r codec =
      let (codecs, key) = message_slots.insert r.codecs codec in
      (
        record r { codecs = codecs; codec_by_name = insert name_eq codec.name key r.codec_by_name },
        key,
      )

  unfoldable pub register_opaque_codec :
      ProtocolRegistry → ErasedCodec N T → Option (ProtocolRegistry × Key)
  unfolding add_opaque
  register_opaque_codec r codec = elim codec.tid [
    | some t ↦ none
    | none ↦ elim (get name_eq codec.name r.codec_by_name) [
      | some key ↦ some (r, key)
      | none ↦ some (add_opaque r codec)
    ]
  ]

  unfoldable pub register_message :
      ProtocolRegistry → ErasedCodec N T → Option (ProtocolRegistry × Key)
  unfolding register_known_message register_opaque_codec
  register_message r codec = elim codec.tid [
    | some t ↦ register_known_message r codec
    | none ↦ register_opaque_codec r codec
  ]

  unfoldable pub register_all : ProtocolRegistry → List (ErasedCodec N T) → Option ProtocolRegistry
  unfolding register_known_message
  register_all r [] = some r
  register_all r (codec ∷ l) = elim (register_known_message r codec) [
    | none ↦ none
    | some (r', key) ↦ register_all r' l
  ]

  unfoldable pub register_protocol :
      ProtocolRegistry
      → N
      → Protocol name_eq type_eq protocol_slots
      → Answer RegisterError ProtocolRegistry
  unfolding register_all outbound_types inbound_types
  register_protocol r name protocol = elim (get name_eq name r.protocols) [
    | some p ↦ refused duplicate_protocol_name
    | none ↦
        elim (register_all r (
          outbound_types name_eq type_eq protocol_slots protocol
          ++ inbound_types name_eq type_eq protocol_slots protocol)) [
            | none ↦ panicked
            | some r' ↦ ok (record r' { protocols = insert name_eq name protocol r'.protocols })
          ]
  ]

  -- `others` counts the further handles on the protocol's `Arc`.
  unfoldable pub unregister_protocol :
      ProtocolRegistry → N → ℕ → Answer UnregisterError ProtocolRegistry
  unregister_protocol r name others = elim (get name_eq name r.protocols) [
    | none ↦ refused no_protocol
    | some p ↦ elim others [
      | zero ↦ ok (record r { protocols = remove name_eq name r.protocols })
      | suc n ↦ refused protocol_in_use
    ]
  ]

  unfoldable pub protocol_by_name :
      ProtocolRegistry → N → Option (Protocol name_eq type_eq protocol_slots)
  protocol_by_name r name = get name_eq name r.protocols

  unfoldable pub local_type_key_by_tid : ProtocolRegistry → T → Option Key
  local_type_key_by_tid r t = get type_eq t r.codec_by_type_id

  unfoldable pub message_name_by_key : ProtocolRegistry → Key → Option N
  unfolding codec_of
  message_name_by_key r key = elim (codec_of r key) [ none ↦ none | some c ↦ some c.name ]
