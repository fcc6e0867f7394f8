-- ===== src/Examples/Pools.antt =====
-- A pool of the four addresses from 16 on.
use mm.Shared.{◌≡◌, refl, [], some, arith}
use mm.Subnet.{NetAddress}
use mm.Pool.{Shared, new, trie_new, lease, lease_coalesced, drop_lease, lease_of}
use mm.Pool.Trie.{
  leaf, fork, absent, clear, shr, release, acquire, left_over_loop, settle, drain_into,
  leading_zeros, ancestor_zeros, common_ancestor, splits_low, maybe_compact, released, split_node,
  descend,
}
use mm.Subnet.{bit_or, bit_xor}
use mm.Pool.Accounts.{IsPool, Leases, lease-Leases}
use mm.Pool.Ownership.{Reach, here, next, grant, drop, start, IsAccounted, Reach-IsAccounted}

abbrev net : NetAddress
net = record { address = 16; mask = 62 }

abbrev pool : Shared
pool = record { main = leaf 16 2; used = absent }

new_pool : new net ≡ some pool
unfolding new trie_new release clear
new_pool = refl

-- The first lease takes the lowest address.
abbrev leased : Shared
leased = record { main = fork 16 2 (leaf 17 0) (leaf 18 1); used = absent }

lease_one : lease pool 64 ≡ some (leased, some (lease_of 64 16))
unfolding lease acquire left_over_loop bit_or
lease_one = refl

abbrev dropped : Shared
dropped = record { main = fork 16 2 (leaf 17 0) (leaf 18 1); used = leaf 16 0 }

drop_one : drop_lease leased (lease_of 64 16) ≡ some dropped
unfolding drop_lease release
drop_one = refl

-- Neither trie has the whole of the network; both together have.
lease_all : lease dropped 62 ≡ some (record { main = absent; used = absent }, some (lease_of 62 16))
unfolding lease lease_coalesced acquire drain_into release common_ancestor ancestor_zeros
    leading_zeros bit_xor clear split_node descend splits_low shr maybe_compact released settle
    left_over_loop
lease_all = refl

reach : Reach (start pool) (record { shared = dropped; leases = [] })
reach =
    next (next here (grant (start pool) 64 leased (lease_of 64 16) lease_one))
      (drop [] [] (lease_of 64 16) leased dropped drop_one)

Reach-IsAccounted_example : IsAccounted net (record { shared = dropped; leases = [] })
Reach-IsAccounted_example = Reach-IsAccounted net pool (omega arith) new_pool reach

dropped-IsPool : IsPool dropped
dropped-IsPool = (Reach-IsAccounted net pool (omega arith) new_pool reach).pool

lease-Leases_example : Leases dropped 62 (lease dropped 62)
lease-Leases_example = lease-Leases dropped 62 dropped-IsPool
