-- ===== src/Multinode.antt =====
-- components/mm1-multinode: codecs, protocols and routes between nodes.
pub mod Codec
pub mod Registry
pub mod Route
pub mod Waitlist
pub mod Manager
