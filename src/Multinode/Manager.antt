-- ===== src/Multinode/Manager.antt =====
-- components/mm1-multinode/src/actors/multinode_manager.rs, by the parts of its state that belong together.
pub mod Protocols
pub mod Serving
pub mod Requests
pub mod Waiting
pub mod Registering
pub mod Ifaces
pub mod Routes
pub mod Withdrawals
