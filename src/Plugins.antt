-- ===== src/Plugins.antt =====
-- graph/plugins/: helpers that stand around the scheduler.
pub mod Resume
pub mod Router
pub mod Parallel
pub mod Observer
pub mod Checkpointer
pub mod Structured
pub mod Subgraph
pub mod Nodes
