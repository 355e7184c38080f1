-- ===== src/Query.antt =====
-- crates/boardwalk/src/query: the query AST, JSON values, and the evaluator.
pub mod Numbers
pub mod Json
pub mod Ast
pub mod Glob
pub mod Eval
pub mod Meaning
mod Tests
