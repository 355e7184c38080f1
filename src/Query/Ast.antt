-- ===== src/Query/Ast.antt =====
-- query/ast.rs: queries, projections, predicates, paths and literals.
pub mod Paths
use boardwalk.Common.{
  ℕ, Bool, Option, none, some, List, [], ◌∷◌, ◌++◌, Str, codes, split, any, if◌then◌else◌, Result,
  ok, err,
}
use boardwalk.Query.Json.{Json, get}

pub data QueryError : Type 0 where
  parse : ℕ → Str → QueryError
  invalid_path : Str → QueryError
  unknown : Str → QueryError
  eval : Str → QueryError

pub record FieldPath : Type 0 where
  pub segments : List Str

pub data ComparisonOp : Type 0 where
  eq ne lt le gt ge like in_set : ComparisonOp

mutual
  pub data Literal (F : Type 0) : Type 0 where
    string : Str → Literal F
    number : F → Literal F
    bool : Bool → Literal F
    null : Literal F
    array : Literals F → Literal F

  pub data Literals (F : Type 0) : Type 0 where
    nil : Literals F
    cons : Literal F → Literals F → Literals F

mutual
  pub data Predicate (F : Type 0) : Type 0 where
    always : Predicate F
    never : Predicate F
    and : Predicates F → Predicate F
    or : Predicates F → Predicate F
    not : Predicate F → Predicate F
    compare : FieldPath → ComparisonOp → Literal F → Predicate F
    contains : FieldPath → Literal F → Predicate F
    exists : FieldPath → Predicate F

  pub data Predicates (F : Type 0) : Type 0 where
    none_left : Predicates F
    also : Predicate F → Predicates F → Predicates F

pub data Projection : Type 0 where
  all : Projection
  fields : List FieldPath → Projection

pub record Query (F : Type 0) : Type 0 where
  pub projection : Projection
  pub predicate : Predicate F

is_empty : Str → Bool
is_empty [] = Bool.true
is_empty (_ ∷ _) = Bool.false

unfoldable pub try_parse : Str → Result QueryError FieldPath
unfolding is_empty
try_parse s =
    if is_empty s
    then err (invalid_path (codes "empty path"))
    else if any is_empty (split b'.' s)
    then err (invalid_path (codes "empty segment in `" ++ (s ++ codes "`")))
    else ok (record { segments = split b'.' s })

-- The walk of `extract`: each segment names a field of an object.
unfoldable pub walk : {N : Type 0} → List Str → Json N → Option (Json N)
walk [] cur = some cur
walk (seg ∷ segs) (Json.obj m) = elim (get seg m) [ none ↦ none | some v ↦ walk segs v ]
walk (seg ∷ segs) _ = none

unfoldable pub extract : {N : Type 0} → FieldPath → Json N → Option (Json N)
unfolding walk
extract path target = walk path.segments target
