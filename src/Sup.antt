-- ===== src/Sup.antt =====
-- components/mm1-sup: the supervisors' restart bookkeeping and the decision state machines of the
-- mixed supervisor.
pub mod Intensity
pub mod Child
pub mod Scan
pub mod OneForOne
pub mod AllForOne
pub mod Uniform
pub mod Mixed
