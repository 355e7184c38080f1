-- ===== src/Query/Numbers.antt =====
-- The numbers that the query language computes with: Rust's `f64`, and the `Number` of serde_json.
-- Both are parameters of the development.
use boardwalk.Common.{Bool, Option, Str}

pub record Numbers : Type 1 where
  pub F64 : Type 0
  pub f64_eq : F64 → F64 → Bool
  pub f64_lt : F64 → F64 → Bool
  pub f64_le : F64 → F64 → Bool
  -- `str::parse::<f64>`, with `none` for a refusal.
  pub f64_parse : Str → Option F64
  pub Number : Type 0
  pub as_f64 : Number → Option F64
