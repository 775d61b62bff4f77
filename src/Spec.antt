-- ===== src/Spec.antt =====
-- graph/spec.py: the immutable descriptions of graphs, with their identity.
pub mod Json
pub mod Records
pub mod Canonical
pub mod Reading
