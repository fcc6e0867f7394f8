-- ===== src/Multinode/Manager/Serving.antt =====
-- components/mm1-multinode/src/actors/multinode_manager.rs: the message types of a protocol get their keys.
use mm.Shared.{◌≡◌, ◌≢◌, refl, ◌∙◌, List, [], ◌∷◌, ◌++◌, none, some, arith, Option-cases, inl, inr}
use mm.Shared.Map.{insert}
use mm.Shared.SlotMap.{SlotMap}
use mm.Multinode.Codec.{ErasedCodec, Protocol, outbound_types, inbound_types}
use mm.Multinode.Registry.{
  ProtocolRegistry, ok, register_message, register_known_message, register_opaque_codec,
  register_all, register_protocol, protocol_by_name, add_known, add_opaque, replace_codec, codec_of,
  message_name_by_key,
}
use mm.Multinode.Registry.Invariant as registry
use mm.Multinode.Registry.Stable.{register_message-IsRegistered}

module _ {N T : Type 0} (name_eq : Discrete N) (type_eq : Discrete T)
    (message_slots protocol_slots : SlotMap (ErasedCodec N T)) where
  open message_slots use {Key}

  abbrev Registry : Type 0
  Registry = ProtocolRegistry name_eq type_eq message_slots protocol_slots

  abbrev pub IsSound : Registry → Type 0
  IsSound = registry.IsValid name_eq type_eq message_slots protocol_slots

  -- A registry whose indexes agree, with the protocols of another, in which every key keeps its name.
  pub record Follows (r r' : Registry) : Type 0 where
    pub sound : IsSound r'
    pub protocols : r'.protocols ≡ r.protocols
    pub kept :
        (k : Key) (n : N)
        → message_name_by_key name_eq type_eq message_slots protocol_slots r k ≡ some n
        → message_name_by_key name_eq type_eq message_slots protocol_slots r' k ≡ some n

  pub Follows-refl : (r : Registry) → IsSound r → Follows r r
  Follows-refl r v = record { sound = v; protocols = refl; kept = λ k n h. h }

  pub Follows-trans : (r s t : Registry) → Follows r s → Follows s t → Follows r t
  Follows-trans r s t f g = record {
    sound = g.sound;
    protocols = g.protocols ∙ f.protocols;
    kept = λ k n h. g.kept k n (f.kept k n h);
  }

  abbrev pub IsNamed : Registry → Key → Type 0
  IsNamed r k =
      (n : N) × (message_name_by_key name_eq type_eq message_slots protocol_slots r k ≡ some n)

  -- The message types in their order, each with a key that the registry knows.
  abbrev pub Keyed : Registry → List (ErasedCodec N T) → List (N × Key) → Type 0
  Keyed r [] [] = Unit {0}
  Keyed r [] (x ∷ keys) = ⊥
  Keyed r (c ∷ l) [] = ⊥
  Keyed r (c ∷ l) (x ∷ keys) = (x.0 ≡ c.name) × IsNamed r x.1 × Keyed r l keys

  pub Keyed-Follows :
      (r s : Registry) (l : List (ErasedCodec N T)) (keys : List (N × Key))
      → Follows r s
      → Keyed r l keys
      → Keyed s l keys
  Keyed-Follows r s [] [] f h = tt
  Keyed-Follows r s [] (x ∷ keys) f h = absurd h
  Keyed-Follows r s (c ∷ l) [] f h = absurd h
  Keyed-Follows r s (c ∷ l) ((m, k) ∷ keys) f (e, (n, q), h) =
      (e, (n, f.kept k n q), Keyed-Follows r s l keys f h)

  present-IsNamed : (r : Registry) (k : Key) → message_slots.get r.codecs k ≢ none → IsNamed r k
  unfolding message_name_by_key codec_of
  present-IsNamed r k h = elim (Option-cases (message_slots.get r.codecs k)) [
    | inl e ↦ absurd (h e)
    | inr (c, e) ↦ (c.name, rw (message_name_by_key, codec_of, e) refl)
  ]

  no_value : (r : Registry) → none ≢ some r
  no_value r h = cc

  known-protocols :
      (r r' : Registry) (c : ErasedCodec N T) (k : Key)
      → register_known_message name_eq type_eq message_slots protocol_slots r c ≡ some (r', k)
      → r'.protocols ≡ r.protocols
  unfolding register_known_message add_known replace_codec
  known-protocols r r' c k h = ground arith

  opaque-protocols :
      (r r' : Registry) (c : ErasedCodec N T) (k : Key)
      → register_opaque_codec name_eq type_eq message_slots protocol_slots r c ≡ some (r', k)
      → r'.protocols ≡ r.protocols
  unfolding register_opaque_codec add_opaque
  opaque-protocols r r' c k h = ground arith

  message-protocols :
      (r r' : Registry) (c : ErasedCodec N T) (k : Key)
      → register_message name_eq type_eq message_slots protocol_slots r c ≡ some (r', k)
      → r'.protocols ≡ r.protocols
  unfolding register_message
  message-protocols r r' c k h = ground (arith, known-protocols r r' c k, opaque-protocols r r' c k)

  all-protocols :
      (r r' : Registry) (l : List (ErasedCodec N T))
      → register_all name_eq type_eq message_slots protocol_slots r l ≡ some r'
      → r'.protocols ≡ r.protocols
  unfolding register_all
  all-protocols r r' [] h = ground arith
  all-protocols r r' (c ∷ l) h =
      elim (Option-cases
        (register_known_message name_eq type_eq message_slots protocol_slots r c)) [
          | inl bad ↦ absurd (no_value r' (rw (bad, register_all) at h))
          | inr ((s, k), e) ↦
              all-protocols s r' l (rw (e, register_all) at h) ∙ known-protocols r s c k e
        ]

  pub register_message-Follows :
      (r : Registry) (c : ErasedCodec N T)
      → IsSound r
      → (r' : Registry) × (k : Key) × (register_message name_eq type_eq message_slots protocol_slots
            r c
          ≡ some (r', k))
        × Follows r r'
        × IsNamed r' k
  register_message-Follows r c v =
      let (r', k, e, g, l) =
        register_message-IsRegistered name_eq type_eq message_slots protocol_slots r c v in
      (
        r',
        k,
        e,
        record { sound = g.valid; protocols = message-protocols r r' c k e; kept = g.kept },
        present-IsNamed r' k l.0,
      )

  -- What a registration of a free name adds.
  pub register_protocol-protocols :
      (r r' : Registry) (name : N) (p : Protocol name_eq type_eq protocol_slots)
      → register_protocol name_eq type_eq message_slots protocol_slots r name p ≡ ok r'
      → protocol_by_name name_eq type_eq message_slots protocol_slots r name ≡ none
      → r'.protocols ≡ insert name_eq name p r.protocols
  unfolding register_protocol protocol_by_name
  register_protocol-protocols r r' name p h free =
      let l =
        outbound_types name_eq type_eq protocol_slots p
        ++ inbound_types name_eq type_eq protocol_slots p in
      elim (Option-cases (register_all name_eq type_eq message_slots protocol_slots r l)) [
        | inl bad ↦ absurd (cc (rw (free, register_protocol, bad) at h))
        | inr (s, e) ↦ ground (arith, all-protocols r s l e, rw (free, register_protocol, e) at h)
      ]
