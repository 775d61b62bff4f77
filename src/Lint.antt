-- ===== src/Lint.antt =====
-- graph/lint.py: the static validation of a graph's description.
pub mod Issue
pub mod Elements
pub mod Regions
pub mod Paths
pub mod Report
