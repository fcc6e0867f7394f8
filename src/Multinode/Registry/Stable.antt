-- ===== src/Multinode/Registry/Stable.antt =====
-- Registering message types keeps the registry valid and the keys that were given out.
use mm.Shared.{◌⊎◌, ◌≡◌, refl, ◌≢◌, Option, none, some, arith, Option-cases, inl, inr}
use mm.Shared.Map.{get, get-insert}
use mm.Shared.SlotMap.{SlotMap}
use mm.Multinode.Codec.{ErasedCodec}
use mm.Multinode.Registry.{
  ProtocolRegistry, codec_of, add_known, add_opaque, replace_codec, register_known_message,
  register_opaque_codec, register_message, message_name_by_key,
}
use mm.Multinode.Registry.Invariant.{
  IsValid, add_known-IsValid, add_opaque-IsValid, replace_codec-IsValid,
}

module _ {N T : Type 0} (name_eq : Discrete N) (type_eq : Discrete T)
    (message_slots protocol_slots : SlotMap (ErasedCodec N T)) where
  open message_slots use {
    Key, Slots, key_eq, insert_fresh, get-insert as get-slot_insert, get-write,
  }

  abbrev Registry : Type 0
  Registry = ProtocolRegistry name_eq type_eq message_slots protocol_slots

  -- The registry stays valid and its keys keep their names.
  pub record Grows (r r' : Registry) : Type 0 where
    pub valid : IsValid name_eq type_eq message_slots protocol_slots r'
    pub kept :
        (k : Key) (n : N)
        → message_name_by_key name_eq type_eq message_slots protocol_slots r k ≡ some n
        → message_name_by_key name_eq type_eq message_slots protocol_slots r' k ≡ some n

  add_known-Grows :
      (r : Registry) (c : ErasedCodec N T) (t : T)
      → get name_eq c.name r.codec_by_name ≡ none
      → IsValid name_eq type_eq message_slots protocol_slots r
      → Grows r (add_known name_eq type_eq message_slots protocol_slots r c t).0
  unfolding add_known message_name_by_key codec_of
  add_known-Grows r c t e v = record {
    valid = add_known-IsValid name_eq type_eq message_slots protocol_slots r c t e v;
    kept = λ k n h. ground (arith, insert_fresh r.codecs c, get-slot_insert r.codecs c k);
  }

  add_opaque-Grows :
      (r : Registry) (c : ErasedCodec N T)
      → get name_eq c.name r.codec_by_name ≡ none
      → IsValid name_eq type_eq message_slots protocol_slots r
      → Grows r (add_opaque name_eq type_eq message_slots protocol_slots r c).0
  unfolding add_opaque message_name_by_key codec_of
  add_opaque-Grows r c e v = record {
    valid = add_opaque-IsValid name_eq type_eq message_slots protocol_slots r c e v;
    kept = λ k n h. ground (arith, insert_fresh r.codecs c, get-slot_insert r.codecs c k);
  }

  replace_codec-Grows :
      (r : Registry) (c : ErasedCodec N T) (t : T) (key : Key)
      → get name_eq c.name r.codec_by_name ≡ some key
      → message_slots.get r.codecs key ≢ none
      → IsValid name_eq type_eq message_slots protocol_slots r
      → Grows r (replace_codec name_eq type_eq message_slots protocol_slots r c t key)
  unfolding replace_codec message_name_by_key codec_of
  replace_codec-Grows r c t key e b v = record {
    valid = replace_codec-IsValid name_eq type_eq message_slots protocol_slots r c t key e b v;
    kept = λ k n h. ground (arith, get-write r.codecs key c k b, v.named c.name key);
  }

  pub named-present :
      (r : Registry) (n : N) (k : Key)
      → IsValid name_eq type_eq message_slots protocol_slots r
      → get name_eq n r.codec_by_name ≡ some k
      → message_slots.get r.codecs k ≢ none
  unfolding message_name_by_key codec_of
  named-present r n k v e = ground (arith, v.named n k e)

  -- What registering comes to: a registry that grew, and the key that leads to the codec.
  -- The key has a codec, and the name index leads to it or the type index led to it before.
  abbrev pub Leads : Registry → ErasedCodec N T → Registry → Key → Type 0
  Leads r c r' key =
      (message_slots.get r'.codecs key ≢ none)
      × ((get name_eq c.name r'.codec_by_name ≡ some key)
          ⊎ ((t : T) × (c.tid ≡ some t) × (get type_eq t r.codec_by_type_id ≡ some key)))

  abbrev pub IsRegistered : Registry → ErasedCodec N T → Option (Registry × Key) → Type 0
  IsRegistered r c result =
      (r' : Registry) × (key : Key) × (result ≡ some (r', key)) × Grows r r' × Leads r c r' key

  add_known-present :
      (r : Registry) (c : ErasedCodec N T) (t : T)
      → Leads r c
          (add_known name_eq type_eq message_slots protocol_slots r c t).0
          (add_known name_eq type_eq message_slots protocol_slots r c t).1
  unfolding add_known
  add_known-present r c t =
      let key = (message_slots.insert r.codecs c).1 in
      (
        ground (arith, get-slot_insert r.codecs c key),
        inl (ground (arith, get-insert name_eq c.name c.name key r.codec_by_name)),
      )

  add_opaque-present :
      (r : Registry) (c : ErasedCodec N T)
      → Leads r c
          (add_opaque name_eq type_eq message_slots protocol_slots r c).0
          (add_opaque name_eq type_eq message_slots protocol_slots r c).1
  unfolding add_opaque
  add_opaque-present r c =
      let key = (message_slots.insert r.codecs c).1 in
      (
        ground (arith, get-slot_insert r.codecs c key),
        inl (ground (arith, get-insert name_eq c.name c.name key r.codec_by_name)),
      )

  replace_codec-present :
      (r : Registry) (c : ErasedCodec N T) (t : T) (k : Key)
      → get name_eq c.name r.codec_by_name ≡ some k
      → message_slots.get r.codecs k ≢ none
      → Leads r c (replace_codec name_eq type_eq message_slots protocol_slots r c t k) k
  unfolding replace_codec
  replace_codec-present r c t k g h = (ground (arith, get-write r.codecs k c k h), inl g)

  abbrev pub codec : N → Option T → ErasedCodec N T
  codec n o = record { name = n; tid = o }

  abbrev pub Registers :
      (Registry → ErasedCodec N T → Option (Registry × Key)) → Registry → ErasedCodec N T → Type 0
  Registers f r c =
      IsValid name_eq type_eq message_slots protocol_slots r → IsRegistered r c (f r c)

  pub register_known_message-IsRegistered :
      (r : Registry) (n : N) (t : T)
      → Registers
          (register_known_message name_eq type_eq message_slots protocol_slots)
          r
          (codec n (some t))
  unfolding register_known_message codec_of
  register_known_message-IsRegistered r n t v =
      let c = codec n (some t) in
      elim (Option-cases (get type_eq t r.codec_by_type_id)) [
        | inr (k, f) ↦ (
          r,
          k,
          rw (register_known_message, f) refl,
          record { valid = v; kept = λ k n h. h },
          (v.typed t k f, inr (t, refl, f)),
        )
        | inl f ↦ elim (Option-cases (get name_eq n r.codec_by_name)) [
          | inl g ↦ (
            (add_known name_eq type_eq message_slots protocol_slots r c t).0,
            (add_known name_eq type_eq message_slots protocol_slots r c t).1,
            rw (register_known_message, f, g) refl,
            add_known-Grows r c t g v,
            add_known-present r c t,
          )
          | inr (k, g) ↦ elim (Option-cases (message_slots.get r.codecs k)) [
            | inl i ↦ absurd (named-present r n k v g i)
            | inr (d, i) ↦
                let b = named-present r n k v g in
                (
                  replace_codec name_eq type_eq message_slots protocol_slots r c t k,
                  k,
                  rw (register_known_message, f, g, i) refl,
                  replace_codec-Grows r c t k g b v,
                  replace_codec-present r c t k g b,
                )
          ]
        ]
      ]

  register_opaque_codec-IsRegistered :
      (r : Registry) (n : N)
      → Registers
          (register_opaque_codec name_eq type_eq message_slots protocol_slots)
          r
          (codec n none)
  unfolding register_opaque_codec
  register_opaque_codec-IsRegistered r n v =
      let c = codec n none in
      elim (Option-cases (get name_eq n r.codec_by_name)) [
        | inl g ↦ (
          (add_opaque name_eq type_eq message_slots protocol_slots r c).0,
          (add_opaque name_eq type_eq message_slots protocol_slots r c).1,
          rw (register_opaque_codec, g) refl,
          add_opaque-Grows r c g v,
          add_opaque-present r c,
        )
        | inr (k, g) ↦ (
          r,
          k,
          rw (register_opaque_codec, g) refl,
          record { valid = v; kept = λ k n h. h },
          (named-present r n k v g, inl g),
        )
      ]

  register_either :
      (r : Registry) (n : N) (o : Option T)
      → Registers (register_message name_eq type_eq message_slots protocol_slots) r (codec n o)
  unfolding register_message
  register_either r n none v = register_opaque_codec-IsRegistered r n v
  register_either r n (some t) v = register_known_message-IsRegistered r n t v

  -- In a registry whose indexes agree, `register_message` does not panic: the indexes agree
  -- afterwards, every key keeps the name of its message, and the key that is answered has a codec and
  -- stands in the name index under the codec's name, unless its type had the key before.
  pub register_message-IsRegistered :
      (r : Registry) (c : ErasedCodec N T)
      → IsValid name_eq type_eq message_slots protocol_slots r
      → IsRegistered r c (register_message name_eq type_eq message_slots protocol_slots r c)
  register_message-IsRegistered r c v = register_either r c.name c.tid v
