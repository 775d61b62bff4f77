-- ===== src/Adapters.antt =====
-- graph/adapters/: a graph inside other frameworks.
pub mod Langgraph
pub mod Langchain
