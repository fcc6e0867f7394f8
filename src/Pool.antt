-- ===== src/Pool.antt =====
-- libs/mm1-address/src/pool.rs: the pool that leases networks. The lock is held for the whole of each
-- operation, so that the operations are functions of what it guards. `none` is a panic in the trie.
pub mod Trie
pub mod Accounts
pub mod Ownership
use mm.Shared.{ℕ, ◌-◌, Option, none, some, Bool, true, false, if◌then◌else◌}
use mm.Subnet.{NetAddress, NetMask}
use mm.Pool.Trie.{Node, absent, clear, release, acquire, drain_into}

pub record Shared : Type 0 where
  pub main : Node
  pub used : Node

-- `pooled` tells a lease of a pool, which is released when it is dropped, from a trusted one. The pool
-- is alive: `shared.upgrade()` of a pooled lease succeeds.
pub record Lease : Type 0 where
  pub net_address : NetAddress
  pub pooled : Bool

-- The zeros that a mask's number ends in.
abbrev pub zeros_of : NetMask → ℕ
zeros_of m = 64 - m

-- `trie::Pool::new`
unfoldable pub trie_new : ℕ → ℕ → Option Node
unfolding release
trie_new addr k = elim (release absent addr k) [ none ↦ none | some (t, b) ↦ some t ]

unfoldable pub new : NetAddress → Option Shared
unfolding trie_new clear
new n = elim (trie_new (clear (zeros_of n.mask) n.address) (zeros_of n.mask)) [
  | none ↦ none
  | some t ↦ some (record { main = t; used = absent })
]

abbrev pub lease_of : NetMask → ℕ → Lease
lease_of m a = record { net_address = record { address = a; mask = m }; pooled = true }

-- The last try, with all the free blocks in `main`.
unfoldable pub lease_coalesced : Shared → NetMask → Option (Shared × Option Lease)
unfolding acquire drain_into
lease_coalesced s m = elim (drain_into s.used s.main) [
  | none ↦ none
  | some main ↦ elim (acquire main (zeros_of m)) [
    | none ↦ none
    | some (main', none) ↦ some (record { main = main'; used = absent }, none)
    | some (main', some a) ↦ some (record { main = main'; used = absent }, some (lease_of m a))
  ]
]

-- `Pool::lease`; no lease is `LeaseError::Unavailable`.
unfoldable pub lease : Shared → NetMask → Option (Shared × Option Lease)
unfolding acquire lease_coalesced
lease s m = elim (acquire s.main (zeros_of m)) [
  | none ↦ none
  | some (main, some a) ↦ some (record { main = main; used = s.used }, some (lease_of m a))
  | some (main, none) ↦ elim (acquire s.used (zeros_of m)) [
    | none ↦ none
    | some (used, some a) ↦ some (record { main = used; used = main }, some (lease_of m a))
    | some (used, none) ↦ lease_coalesced (record { main = main; used = used }) m
  ]
]

unfoldable pub trusted : NetAddress → Lease
trusted n = record { net_address = n; pooled = false }

-- `Drop for Lease`
unfoldable pub drop_lease : Shared → Lease → Option Shared
unfolding release
drop_lease s l =
    if l.pooled
    then elim (release s.used l.net_address.address (zeros_of l.net_address.mask)) [
      | none ↦ none
      | some (t, b) ↦ some (record { main = s.main; used = t })
    ]
    else some s
