-- ===== src/Runtime.antt =====
-- crates/boardwalk/src/runtime: the registry of the resources on a node.
pub mod Directory
pub mod Executor
