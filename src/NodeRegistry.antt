-- ===== src/NodeRegistry.antt =====
-- core/mm1-node/src/registry.rs: which subnet an address belongs to, and the inbox of an actor. The
-- concurrent tree is an ordered map, each call of it one step. What the channel answers to `try_send` is an
-- argument. A permit that is dropped goes back to the semaphore.
pub mod Lookup
pub mod Inbox
use mm.Shared.{
  ℕ, zero, suc, ◌+◌, ◌-◌, List, [], ◌∷◌, ◌++◌, Option, none, some, Bool, true, false, ◌==◌,
  if◌then◌else◌,
}
use mm.Shared.Ordered.{find, put, delete}
use mm.Subnet.{Address, NetAddress, AddressRange, from_address, from_net, cmp}
use Prim.Native.Nat.{Ordering}

module _ {V : Type 0} where
  -- An answer of `some` hands the node back.
  unfoldable pub register :
      List (AddressRange × V) → NetAddress → V → List (AddressRange × V) × Option V
  unfolding find put from_net
  register r n node = elim (find cmp (from_net n) r) [
    | none ↦ (put cmp (from_net n) node r, none)
    | some e ↦ (r, some node)
  ]

  -- `PartialEq` on ranges is `cmp`.
  unfoldable pub unregister : List (AddressRange × V) → NetAddress → List (AddressRange × V) × Bool
  unfolding find delete from_net cmp
  unregister r n = elim (find cmp (from_net n) r) [
    | none ↦ (r, false)
    | some (found, node) ↦ elim (cmp found (from_net n)) [
      | Ordering.eq ↦ (delete cmp (from_net n) r, true)
      | _ ↦ (r, false)
    ]
  ]

  unfoldable pub lookup : List (AddressRange × V) → Address → Option V
  unfolding find from_address
  lookup r a = elim (find cmp (from_address a) r) [ none ↦ none | some (found, node) ↦ some node ]

-- What the channel answers: `Ok(true)`, `Ok(false)` or an error.
pub data TrySend : Type 0 where
  accepted not_accepted closed : TrySend

-- A message, and the semaphore that its permit is of.
pub record MessageWithPermit (M : Type 0) : Type 0 where
  pub to : Address
  pub message : M
  pub permit : ℕ

-- The two channels of an actor, and whether `notify_one` was called.
pub record Mailbox (M : Type 0) : Type 0 where
  pub priority : List (Address × M)
  pub regular : List (MessageWithPermit M)
  pub notified : Bool

unfoldable pub new_mailbox : {M : Type 0} → Mailbox M
new_mailbox = record { priority = []; regular = []; notified = false }

-- A node has a semaphore of its own, with its free permits. Several nodes may send to one mailbox,
-- which is an argument of `send`.
pub record Node : Type 0 where
  pub inbox_size : ℕ
  pub semaphore : ℕ
  pub available : ℕ

unfoldable pub new_node : ℕ → ℕ → Node
new_node semaphore inbox_size = record {
  inbox_size = inbox_size;
  semaphore = semaphore;
  available = inbox_size;
}

module _ {M : Type 0} where
  unfoldable pub send_priority : TrySend → Mailbox M → Address → M → Mailbox M × Bool
  send_priority accepted box to message =
      (record box { priority = box.priority ++ (to, message) ∷ []; notified = true }, true)
  send_priority answer box to message = (box, false)

  -- With a permit; if the message is not accepted, the permit is dropped with it.
  unfoldable pub send_regular : TrySend → Node → Mailbox M → Address → M → (Node × Mailbox M) × Bool
  send_regular accepted s box to message = (
    (
      record s { available = s.available - 1 },
      record box {
        regular = box.regular ++ record { to = to; message = message; permit = s.semaphore } ∷ [];
        notified = true;
      },
    ),
    true,
  )
  send_regular answer s box to message = ((s, box), false)

  unfoldable pub send : TrySend → Node → Mailbox M → Address → Bool → M → (Node × Mailbox M) × Bool
  unfolding send_priority send_regular
  send answer s box to priority message =
      let prioritised = send_priority answer box to message in
      if priority
      then ((s, prioritised.0), prioritised.1)
      else if s.available == 0
      then ((s, box), false)
      else send_regular answer s box to message
