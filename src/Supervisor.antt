-- ===== src/Supervisor.antt =====
-- osbase/supervisor: the supervision tree, its operations and its processor.
pub mod Tree
pub mod Node
pub mod Dn
pub mod Gc
pub mod Processor
pub mod Died
pub mod RunGroup
pub mod Invariant
pub mod Runs
pub mod Restarts
pub mod Reachable
