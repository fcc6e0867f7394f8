-- ===== src/Multinode/Registry/Invariant.antt =====
-- The indexes of the protocol registry.
use mm.Shared.{◌≡◌, ◌≢◌, none, some, arith}
use mm.Shared.Map.{get, get-insert}
use mm.Shared.SlotMap.{SlotMap}
use mm.Multinode.Codec.{ErasedCodec}
use mm.Multinode.Registry.{
  ProtocolRegistry, default, codec_of, add_known, add_opaque, replace_codec, message_name_by_key,
}

module _ {N T : Type 0} (name_eq : Discrete N) (type_eq : Discrete T)
    (message_slots protocol_slots : SlotMap (ErasedCodec N T)) where
  open message_slots use {
    Key, Slots, key_eq, insert_fresh, get-insert as get-slot_insert, get-write, get-empty,
  }

  abbrev Registry : Type 0
  Registry = ProtocolRegistry name_eq type_eq message_slots protocol_slots

  -- A name leads to a key exactly when the codec under the key has the name; a type's key has a codec.
  pub record IsValid (r : Registry) : Type 0 where
    pub named :
        (n : N) (k : Key)
        → get name_eq n r.codec_by_name ≡ some k
        → message_name_by_key name_eq type_eq message_slots protocol_slots r k ≡ some n
    pub keyed :
        (n : N) (k : Key)
        → message_name_by_key name_eq type_eq message_slots protocol_slots r k ≡ some n
        → get name_eq n r.codec_by_name ≡ some k
    pub typed :
        (t : T) (k : Key)
        → get type_eq t r.codec_by_type_id ≡ some k
        → message_slots.get r.codecs k ≢ none

  pub add_known-IsValid :
      (r : Registry) (c : ErasedCodec N T) (t : T)
      → get name_eq c.name r.codec_by_name ≡ none
      → IsValid r
      → IsValid (add_known name_eq type_eq message_slots protocol_slots r c t).0
  unfolding add_known message_name_by_key codec_of
  add_known-IsValid r c t e v =
      let key = (message_slots.insert r.codecs c).1 in
      record {
        named = λ n k h. ground (
          arith,
          insert_fresh r.codecs c,
          get-slot_insert r.codecs c k,
          get-insert name_eq c.name n key r.codec_by_name,
          v.named n k,
          v.named n key,
        );
        keyed = λ n k h. ground (
          arith,
          insert_fresh r.codecs c,
          get-slot_insert r.codecs c k,
          get-insert name_eq c.name n key r.codec_by_name,
          v.keyed n k,
        );
        typed = λ u k h. ground (
          arith,
          insert_fresh r.codecs c,
          get-slot_insert r.codecs c k,
          get-insert type_eq t u key r.codec_by_type_id,
          v.typed u k,
        );
      }

  pub add_opaque-IsValid :
      (r : Registry) (c : ErasedCodec N T)
      → get name_eq c.name r.codec_by_name ≡ none
      → IsValid r
      → IsValid (add_opaque name_eq type_eq message_slots protocol_slots r c).0
  unfolding add_opaque message_name_by_key codec_of
  add_opaque-IsValid r c e v =
      let key = (message_slots.insert r.codecs c).1 in
      record {
        named = λ n k h. ground (
          arith,
          insert_fresh r.codecs c,
          get-slot_insert r.codecs c k,
          get-insert name_eq c.name n key r.codec_by_name,
          v.named n k,
          v.named n key,
        );
        keyed = λ n k h. ground (
          arith,
          insert_fresh r.codecs c,
          get-slot_insert r.codecs c k,
          get-insert name_eq c.name n key r.codec_by_name,
          v.keyed n k,
        );
        typed = λ u k h.
            ground (arith, insert_fresh r.codecs c, get-slot_insert r.codecs c k, v.typed u k);
      }

  pub replace_codec-IsValid :
      (r : Registry) (c : ErasedCodec N T) (t : T) (key : Key)
      → get name_eq c.name r.codec_by_name ≡ some key
      → message_slots.get r.codecs key ≢ none
      → IsValid r
      → IsValid (replace_codec name_eq type_eq message_slots protocol_slots r c t key)
  unfolding replace_codec message_name_by_key codec_of
  replace_codec-IsValid r c t key e b v = record {
    named = λ n k h.
        ground (arith, get-write r.codecs key c k b, v.named n k, v.named c.name key, v.keyed n k);
    keyed = λ n k h. ground (arith, get-write r.codecs key c k b, v.keyed n k);
    typed = λ u k h. ground (
      arith,
      get-write r.codecs key c k b,
      get-insert type_eq t u key r.codec_by_type_id,
      v.typed u k,
    );
  }

  -- An empty registry.
  pub default-IsValid : IsValid (default name_eq type_eq message_slots protocol_slots)
  unfolding default message_name_by_key codec_of get
  default-IsValid = record {
    named = λ n k h. ground arith;
    keyed = λ n k h. ground (arith, get-empty k);
    typed = λ t k h. ground arith;
  }
