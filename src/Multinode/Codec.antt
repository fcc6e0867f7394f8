-- ===== src/Multinode/Codec.antt =====
-- components/mm1-multinode/src/codec.rs: the codecs of a protocol. A codec is the name of its message
-- type and, unless it is opaque, the `TypeId`; the bytes that it writes are left out.
use mm.Shared.{List, [], Option, none, some}
use mm.Shared.Map.{get, insert}
use mm.Shared.SlotMap.{SlotMap}

pub record ErasedCodec (N T : Type 0) : Type 0 where
  pub name : N
  pub tid : Option T

module _ {N T : Type 0} (name_eq : Discrete N) (type_eq : Discrete T)
    (slots : SlotMap (ErasedCodec N T)) where
  open slots use {Key, Slots, empty, values}

  pub record Protocol : Type 0 where
    pub codecs : Slots
    pub by_type_id : List (T × Key)
    pub by_type_name : List (N × Key)

  unfoldable pub new : Protocol
  new = record { codecs = empty; by_type_id = []; by_type_name = [] }

  abbrev index_type : Option T → Key → List (T × Key) → List (T × Key)
  index_type none key m = m
  index_type (some t) key m = insert type_eq t key m

  -- After the guards: the codec is stored under a new key.
  unfoldable pub store : Protocol → ErasedCodec N T → Protocol
  store p codec =
      let (codecs, key) = slots.insert p.codecs codec in
      record {
        codecs = codecs;
        by_type_id = index_type codec.tid key p.by_type_id;
        by_type_name = insert name_eq codec.name key p.by_type_name;
      }

  -- `none` where the `TypeId` is taken under another name, which panics.
  unfoldable pub tmp_add_any_codec_really : Protocol → ErasedCodec N T → Option Protocol
  unfolding store
  tmp_add_any_codec_really p codec = elim (get name_eq codec.name p.by_type_name) [
    | some k ↦ some p
    | none ↦ elim codec.tid [
      | none ↦ some (store p codec)
      | some t ↦ elim (get type_eq t p.by_type_id) [ some k ↦ none | none ↦ some (store p codec) ]
    ]
  ]

  unfoldable pub add_outbound_codec : Protocol → ErasedCodec N T → Option Protocol
  unfolding tmp_add_any_codec_really
  add_outbound_codec p codec = tmp_add_any_codec_really p codec

  unfoldable pub add_inbound_codec : Protocol → ErasedCodec N T → Option Protocol
  unfolding tmp_add_any_codec_really
  add_inbound_codec p codec = tmp_add_any_codec_really p codec

  unfoldable pub outbound_types : Protocol → List (ErasedCodec N T)
  outbound_types p = values p.codecs

  unfoldable pub inbound_types : Protocol → List (ErasedCodec N T)
  inbound_types p = values p.codecs
