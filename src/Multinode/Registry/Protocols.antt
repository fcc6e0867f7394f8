-- ===== src/Multinode/Registry/Protocols.antt =====
-- Registering a protocol with its codecs.
use mm.Shared.{
  ℕ, suc, ite, Option-cases, inl, inr, ◌≡◌, refl, List, [], ◌∷◌, ◌++◌, Option, none, some, arith,
  All, All-append,
}
use mm.Shared.Map.{get, get-remove, remove, Distinct, insert, get-insert}
use mm.Shared.SlotMap.{SlotMap}
use mm.Multinode.Codec.{ErasedCodec, Protocol, outbound_types, inbound_types}
use mm.Multinode.Registry.{
  register_message, replace_codec, local_type_key_by_tid, unregister_protocol, protocol_in_use,
  refused, ProtocolRegistry, codec_of, register_known_message, register_all, message_name_by_key,
  register_protocol, protocol_by_name, ok,
}
use mm.Multinode.Registry.Stable.{
  named-present, Grows, Registers, codec, register_known_message-IsRegistered,
}
use mm.Multinode.Registry.Invariant.{IsValid}

module _ {N T : Type 0} (name_eq : Discrete N) (type_eq : Discrete T)
    (message_slots protocol_slots : SlotMap (ErasedCodec N T)) where
  open message_slots use {
    Key, Slots, key_eq, insert_fresh, get-insert as get-slot_insert, get-write,
  }

  abbrev Registry : Type 0
  Registry = ProtocolRegistry name_eq type_eq message_slots protocol_slots

  -- A codec with a `TypeId`.
  abbrev pub IsKnown : ErasedCodec N T → Type 0
  IsKnown c = (t : T) × (c.tid ≡ some t)

  known-Registers :
      (r : Registry) (n : N) (o : Option T) (t : T)
      → o ≡ some t
      → Registers name_eq type_eq message_slots protocol_slots
          (register_known_message name_eq type_eq message_slots protocol_slots)
          r
          (codec name_eq type_eq message_slots protocol_slots n o)
  known-Registers r n none t e v = absurd (cc e)
  known-Registers r n (some u) t e v =
      register_known_message-IsRegistered name_eq type_eq message_slots protocol_slots r n u v

  IsKnown-Registers :
      (r : Registry) (c : ErasedCodec N T)
      → IsKnown c
      → Registers name_eq type_eq message_slots protocol_slots
          (register_known_message name_eq type_eq message_slots protocol_slots)
          r
          c
  IsKnown-Registers r c (t, e) v = known-Registers r c.name c.tid t e v

  Grows-trans :
      (r s t : Registry)
      → Grows name_eq type_eq message_slots protocol_slots r s
      → Grows name_eq type_eq message_slots protocol_slots s t
      → Grows name_eq type_eq message_slots protocol_slots r t
  Grows-trans r s t g h = record { valid = h.valid; kept = λ k n e. h.kept k n (g.kept k n e) }

  register_all-Grows :
      (r : Registry) (l : List (ErasedCodec N T))
      → All IsKnown l
      → IsValid name_eq type_eq message_slots protocol_slots r
      → (r' : Registry) × (register_all name_eq type_eq message_slots protocol_slots r l ≡ some r')
        × Grows name_eq type_eq message_slots protocol_slots r r'
  unfolding register_all
  register_all-Grows r [] h v = (r, refl, record { valid = v; kept = λ k n e. e })
  register_all-Grows r (c ∷ l) (k, h) v =
      let (s, key, f, g, lead) = IsKnown-Registers r c k v in
      let (r', f', g') = register_all-Grows s l h g.valid in
      (r', rw (register_all, f, f') refl, Grows-trans r s r' g g')

  with_protocols-Grows :
      (r s : Registry) (m : List (N × Protocol name_eq type_eq protocol_slots))
      → Grows name_eq type_eq message_slots protocol_slots r s
      → Grows name_eq type_eq message_slots protocol_slots r (record s { protocols = m })
  unfolding message_name_by_key codec_of
  with_protocols-Grows r s m g = record {
    valid = record { named = g.valid.named; keyed = g.valid.keyed; typed = g.valid.typed };
    kept = g.kept;
  }

  -- In a registry whose indexes agree, `register_protocol` of a free name and a protocol whose codecs are
  -- all known succeeds: the indexes agree afterwards, every key keeps the name of its message, and the
  -- name leads to the protocol.
  pub register_protocol-Grows :
      (r : Registry) (name : N) (p : Protocol name_eq type_eq protocol_slots)
      → IsValid name_eq type_eq message_slots protocol_slots r
      → protocol_by_name name_eq type_eq message_slots protocol_slots r name ≡ none
      → All IsKnown (outbound_types name_eq type_eq protocol_slots p)
      → (r' : Registry) × (register_protocol name_eq type_eq message_slots protocol_slots r name p
          ≡ ok r')
        × Grows name_eq type_eq message_slots protocol_slots r r'
        × (protocol_by_name name_eq type_eq message_slots protocol_slots r' name ≡ some p)
  unfolding register_protocol protocol_by_name outbound_types inbound_types
  register_protocol-Grows r name p v e h =
      let l = protocol_slots.values p.codecs in
      let (s, f, g) = register_all-Grows r (l ++ l) (All-append IsKnown l l h h) v in
      let m = insert name_eq name p s.protocols in
      (
        record s { protocols = m },
        rw (register_protocol, e, f) refl,
        with_protocols-Grows r s m g,
        ground (arith, get-insert name_eq name name p s.protocols),
      )

  -- In a registry whose indexes agree, registering a known codec under a name that has a key, say of an
  -- opaque message, keeps the key if the type is new: the name of the key is as before, and the type leads
  -- to it afterwards.
  pub register_message-upgrade :
      (r : Registry) (n : N) (t : T) (k : Key)
      → IsValid name_eq type_eq message_slots protocol_slots r
      → get name_eq n r.codec_by_name ≡ some k
      → local_type_key_by_tid name_eq type_eq message_slots protocol_slots r t ≡ none
      → (r' : Registry) × (register_message name_eq type_eq message_slots protocol_slots r
            (record { name = n; tid = some t })
          ≡ some (r', k))
        × (message_name_by_key name_eq type_eq message_slots protocol_slots r' k ≡ some n)
        × (local_type_key_by_tid name_eq type_eq message_slots protocol_slots r' t ≡ some k)
  unfolding register_message register_known_message local_type_key_by_tid codec_of replace_codec
      message_name_by_key
  register_message-upgrade r n t k v e f =
      let c : ErasedCodec N T = record { name = n; tid = some t } in
      elim (Option-cases (message_slots.get r.codecs k)) [
        | inl i ↦ absurd (named-present name_eq type_eq message_slots protocol_slots r n k v e i)
        | inr (d, i) ↦ (
          replace_codec name_eq type_eq message_slots protocol_slots r c t k,
          rw (register_known_message, f, e, i) refl,
          ground (arith, message_slots.get-write r.codecs k c k),
          ground (arith, get-insert type_eq t t k r.codec_by_type_id),
        )
      ]

  -- A protocol that is registered, under a name that stands once, is kept by `unregister_protocol` while
  -- there are further handles on it, and is removed without them, the other names leading where they did.
  pub unregister_protocol-removes :
      (r : Registry) (name : N) (p : Protocol name_eq type_eq protocol_slots) (others : ℕ)
      → Distinct r.protocols
      → protocol_by_name name_eq type_eq message_slots protocol_slots r name ≡ some p
      → (unregister_protocol name_eq type_eq message_slots protocol_slots r name (suc others)
          ≡ refused protocol_in_use)
        × (r' : Registry) × (unregister_protocol name_eq type_eq message_slots protocol_slots r name
              0
            ≡ ok r')
        × ((m : N)
            → protocol_by_name name_eq type_eq message_slots protocol_slots r' m
              ≡ ite
                  (name_eq name m)
                  none
                  (protocol_by_name name_eq type_eq message_slots protocol_slots r m))
  unfolding unregister_protocol protocol_by_name
  unregister_protocol-removes r name p others d e = (
    rw (unregister_protocol, e) refl,
    record r { protocols = remove name_eq name r.protocols },
    rw (unregister_protocol, e) refl,
    λ m. get-remove name_eq name m r.protocols d,
  )
