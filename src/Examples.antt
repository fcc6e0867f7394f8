-- ===== src/Examples.antt =====
-- The theorems at concrete inputs, and tests of the definitions.
pub mod Numbers
pub mod Addresses
pub mod Supervisors
pub mod Groups
pub mod Names
pub mod Tasks
pub mod Levels
pub mod Timers
pub mod Protocols
pub mod Routes
pub mod Settings
pub mod Nodes
pub mod Mixed
pub mod Pools
pub mod Children
pub mod Containers
pub mod Waiting
pub mod Gateways
