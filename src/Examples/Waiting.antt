-- ===== src/Examples/Waiting.antt =====
-- A multinode manager with one request that waits for a protocol. Names, types, headers and timers are numbers.
use mm.Shared.{
  ℕ, ◌≡◌, ◌≢◌, refl, List, [], ◌∷◌, none, some, true, ℕ_discrete, arith, All, Holds, ltb,
}
use Prim.Native.Nat.{compare}
use mm.Shared.Map.{get}
use mm.Shared.SlotMap.{SlotMap, vacant_slots, slot}
use mm.Multinode.Codec.{ErasedCodec, Protocol, new, store, outbound_types}
use mm.Multinode.Registry.{default, protocol_by_name}
use mm.Multinode.Registry.Invariant.{default-IsValid}
use mm.Multinode.Registry.Protocols.{IsKnown}
use mm.Multinode.Waitlist.{WaitlistEntry, has}
use mm.Examples.Numbers.{order}
use mm.Multinode.Waitlist.Invariant.{waits}
use mm.Multinode.Manager.Routes.{nets_of}
use mm.Multinode.Manager.Protocols as protocols
use mm.Multinode.Manager.Waiting.{Manager, Effect, Serves, Gets, timeout-Serves, get_protocol-Gets}
use mm.Multinode.Manager.Registering.{GoesWell, Settles, register_protocol-Served}

abbrev codecs : SlotMap (ErasedCodec ℕ ℕ)
codecs = vacant_slots (ErasedCodec ℕ ℕ)

abbrev waiters : SlotMap (WaitlistEntry ℕ ℕ ℕ)
waiters = vacant_slots (WaitlistEntry ℕ ℕ ℕ)

abbrev AManager : Type 0
AManager = Manager ℕ_discrete ℕ_discrete codecs codecs order waiters ltb

abbrev Sent : Type 0
Sent = List (Effect ℕ_discrete ℕ_discrete codecs codecs order waiters ltb)

-- The request of header 5 waits for the protocol 1 with the timer 9.
abbrev waiting : AManager
waiting = record {
  protocol_registry = default ℕ_discrete ℕ_discrete codecs codecs;
  protocol_waitlist = record {
    entries = (0, record { protocol = 1; reply_to = 5; timer_key = some 9 }) ∷ [];
    by_protocol = (1, some 0) ∷ [];
  };
}

lists_it :
    (n k : ℕ)
    → has ℕ_discrete compare waiters ltb n k waiting.protocol_waitlist.by_protocol
      ≡ waits ℕ_discrete order waiters ltb waiting.protocol_waitlist.entries n k
unfolding has waits slot
lists_it n k = ground arith

it_has_a_timer :
    (k : ℕ) (e : WaitlistEntry ℕ ℕ ℕ)
    → slot waiting.protocol_waitlist.entries k ≡ some e
    → e.timer_key ≢ none
unfolding slot
it_has_a_timer k e h q = ground arith

nothing_registered :
    (n : ℕ)
    → protocol_by_name ℕ_discrete ℕ_discrete codecs codecs
        (default ℕ_discrete ℕ_discrete codecs codecs)
        n
      ≡ none
unfolding protocol_by_name default get
nothing_registered n = refl

waiting-Serves : Serves ℕ_discrete ℕ_discrete codecs codecs order waiters ltb waiting
waiting-Serves = record {
  sound = default-IsValid ℕ_discrete ℕ_discrete codecs codecs;
  waits = record {
    sorted = (tt, tt);
    keyed = ((λ e. cc), tt);
    once = (tt, tt);
    agree = lists_it;
    timed = it_has_a_timer;
  };
  free = λ k e h. nothing_registered e.protocol;
}

timeout-Serves_example :
    (s : AManager) × (es : Sent) × (protocols.on_waitlist_timeout_elapsed ℕ_discrete ℕ_discrete
        codecs codecs compare waiters ltb waiting 0
      ≡ protocols.done s es)
    × (es ≡ elim (waiters.get waiting.protocol_waitlist.entries 0) [
      | none ↦ []
      | some e ↦ protocols.replied e.reply_to protocols.no_protocol ∷ []
    ])
    × (waiters.get s.protocol_waitlist.entries 0 ≡ none)
    × Serves ℕ_discrete ℕ_discrete codecs codecs order waiters ltb s
timeout-Serves_example =
    timeout-Serves ℕ_discrete ℕ_discrete codecs codecs order waiters ltb waiting 0 waiting-Serves

get_protocol-Gets_example :
    (s : AManager) × (es : Sent) × (protocols.on_get_protocol_by_name ℕ_discrete ℕ_discrete codecs
        codecs compare waiters ltb waiting 6 1 true
        (some 10)
      ≡ protocols.done s es)
    × Gets ℕ_discrete ℕ_discrete codecs codecs order waiters ltb waiting
        (protocol_by_name ℕ_discrete ℕ_discrete codecs codecs waiting.protocol_registry 1)
        true
        1
        6
        10
        s
        es
    × Serves ℕ_discrete ℕ_discrete codecs codecs order waiters ltb s
get_protocol-Gets_example =
    get_protocol-Gets ℕ_discrete ℕ_discrete codecs codecs order waiters ltb waiting 6 1 true 10
      waiting-Serves

abbrev ping : ErasedCodec ℕ ℕ
ping = record { name = 7; tid = some 70 }

abbrev pings : Protocol ℕ_discrete ℕ_discrete codecs
pings = store ℕ_discrete ℕ_discrete codecs (new ℕ_discrete ℕ_discrete codecs) ping

pings-All :
    All
      (IsKnown ℕ_discrete ℕ_discrete codecs codecs)
      (outbound_types ℕ_discrete ℕ_discrete codecs pings)
unfolding outbound_types store new
pings-All = ((70, refl), tt)

no_subnets : GoesWell ℕ_discrete ℕ_discrete codecs codecs order waiters ltb true (λ t. true) [] []
unfolding nets_of
no_subnets = (refl, (λ t. refl), refl)

register_protocol-Served_example :
    (s : AManager) × (es : Sent) × (outbound inbound : List (ℕ × ℕ))
    × (protocols.on_register_protocol ℕ_discrete ℕ_discrete codecs codecs compare waiters ltb true
          (λ t. true)
          []
          waiting
          3
          1
          pings
        ≡ protocols.done s es)
    × Holds (protocols.registered 3 true) es
    × Settles ℕ_discrete ℕ_discrete codecs codecs order waiters ltb waiting 1 pings outbound inbound
        s es
register_protocol-Served_example =
    register_protocol-Served ℕ_discrete ℕ_discrete codecs codecs order waiters ltb true (λ t. true)
      [] [] waiting 3 1 pings no_subnets waiting-Serves (nothing_registered 1) pings-All
