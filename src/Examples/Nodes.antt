-- ===== src/Examples/Nodes.antt =====
-- A node registry with one subnet of four addresses from 16 on, and the mailbox of an actor.
use mm.Shared.{ℕ, ◌≤◌, ◌<◌, ◌≡◌, ◌↔◌, ◌⊎◌, refl, List, [], ◌∷◌, some, none, true, false, arith}
use mm.Shared.Ordered.{find, put, delete}
use mm.Subnet.{NetAddress, AddressRange, from_net, into_u64, bit_or, cmp}
use mm.Subnet.Sorted.{IsSorted}
use mm.NodeRegistry.{
  new_mailbox, new_node, send, send_regular, accepted, register, unregister, lookup,
}
use mm.NodeRegistry.Lookup.{
  is_in, owner, Reach, fresh, registered, unregister-true_iff, Reach-lookup,
}
use mm.NodeRegistry.Inbox.{
  System, with_node, after_send, bind, start, here, next, send_one, bind_one, held, Reach-bounded,
}

abbrev four : NetAddress
four = record { address = 16; mask = 62 }

-- A network that only begins in the subnet.
abbrev wide : NetAddress
wide = record { address = 19; mask = 32 }

abbrev one_subnet : List (AddressRange × ℕ)
one_subnet = (record { lo = 16; hi = 19 }, 7) ∷ []

registers : register [] four 7 ≡ (one_subnet, none)
unfolding register find put from_net into_u64 bit_or
registers = refl

-- It is not the registered subnet, which is removed all the same.
removes_other : unregister one_subnet wide ≡ ([], true)
unfolding unregister find delete from_net into_u64 bit_or cmp
removes_other = refl

reach : Reach {V = ℕ} (register [] four 7).0
reach = registered [] four 7 (omega arith) fresh

abbrev reached : List (AddressRange × ℕ)
reached = (register [] four 7).0

Reach-lookup_example : IsSorted reached × (lookup reached 18 ≡ owner 18 reached)
Reach-lookup_example = Reach-lookup reached 18 reach

one_subnet-IsSorted : IsSorted one_subnet
one_subnet-IsSorted = (omega arith, tt, tt)

unregister-true_iff_example :
    ((unregister one_subnet wide).1 ≡ true)
    ↔ ((x : ℕ) × (w : ℕ) × (is_in x (from_net wide) ≡ true) × (lookup one_subnet x ≡ some w))
unregister-true_iff_example = unregister-true_iff one_subnet wide (omega arith) one_subnet-IsSorted

-- The mailbox after the actor's node has sent its one message, and a subnet with two permits was bound.
abbrev sent_one : System ℕ
sent_one =
    after_send (start 1) 0
      (send accepted ((start {M = ℕ} 1).nodes 0) (start {M = ℕ} 1).mailbox 16 false 5)

abbrev full : System ℕ
full = bind sent_one 2

one_bound : 0 < (start {M = ℕ} 1).bound
unfolding start
one_bound = omega arith

Reach-bounded_example :
    (held 0 full ≤ (full.nodes 0).inbox_size)
    × (((send accepted (full.nodes 0) full.mailbox 17 false 6).1 ≡ true)
        ↔ ((false ≡ true) ⊎ (held 0 full < (full.nodes 0).inbox_size)))
Reach-bounded_example =
    Reach-bounded 1 0 17 false 6
      (next (next here (send_one accepted 0 16 false 5 one_bound)) (bind_one 2))

full_refuses : (send accepted (full.nodes 0) full.mailbox 17 false 6).1 ≡ false
unfolding send send_regular new_node start with_node bind after_send new_mailbox
full_refuses = refl

bound_accepts : (send accepted (full.nodes 1) full.mailbox 17 false 6).1 ≡ true
unfolding send send_regular new_node start with_node bind after_send new_mailbox
bound_accepts = refl
