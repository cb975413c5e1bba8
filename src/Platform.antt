-- ===== src/Platform.antt =====
-- platform/: the machine that the workers run on.
pub mod Cores
pub mod Topology
