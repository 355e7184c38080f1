-- ===== src/Query/Eval.antt =====
-- query/eval.rs: evaluating a predicate over a JSON value, and projecting fields out of one.
-- The comparisons of numbers are those of the parameter `Numbers`.
mod Sound
pub mod Part
mod Paths
pub mod Projected
pub mod Decides
use boardwalk.Common.{
  ℕ, Bool, true, false, not, ◌&&◌, ◌||◌, Option, none, some, List, [], ◌∷◌, Str, ◌==◌, ◌=s◌, ltb,
  if◌then◌else◌, Result, ok, err, ◌>>=◌,
}
use boardwalk.Query.Numbers.{Numbers}
use boardwalk.Query.Json.{Json, Items, Fields, no_fields, get, insert, any_item}
use boardwalk.Query.Ast.{
  QueryError, FieldPath, ComparisonOp, eq, ne, lt, le, gt, ge, like, in_set, Literal, Literals, nil,
  cons, Predicate, Predicates, none_left, also, Projection, Query,
}
use boardwalk.Query.Glob.{glob_match}

-- `str` order: by code points, which is also the order of the UTF-8 bytes.
unfoldable pub str_lt : Str → Str → Bool
str_lt [] [] = false
str_lt [] (b ∷ t) = true
str_lt (a ∷ s) [] = false
str_lt (a ∷ s) (b ∷ t) = if a == b then str_lt s t else ltb a b

abbrev pub str_le : Str → Str → Bool
str_le s t = not (str_lt t s)

-- The loop of `lookup`.
pub lookup_loop : {N : Type 0} → List Str → Json N → Option (Json N)
lookup_loop [] cur = some cur
lookup_loop (seg ∷ segs) (Json.obj m) = elim (get seg m) [
  | none ↦ none
  | some v ↦ lookup_loop segs v
]
lookup_loop (seg ∷ segs) _ = none

unfoldable pub lookup : {N : Type 0} → FieldPath → Json N → Option (Json N)
unfolding lookup_loop
lookup p t = lookup_loop p.segments t

-- The update of an object in place; a value that is no object stays.
pub update_object : {N : Type 0} → (Fields N → Fields N) → Json N → Json N
update_object f (Json.obj m) = Json.obj (f m)
update_object f old = old

-- A missing object on the way is made; an entry on the way that is no object is left as it is.
unfoldable pub insert_path : {N : Type 0} → Fields N → List Str → Json N → Fields N
unfolding update_object
insert_path out [] value = out
insert_path out (seg ∷ []) value = insert seg value out
insert_path out (seg ∷ next ∷ segs) value = elim (get seg out) [
  | none ↦ insert seg (Json.obj (insert_path no_fields (next ∷ segs) value)) out
  | some old ↦ insert seg (update_object (λ m. insert_path m (next ∷ segs) value) old) out
]

-- The loop of `project`.
unfoldable pub project_loop : {N : Type 0} → Json N → Fields N → List FieldPath → Fields N
project_loop target out [] = out
project_loop target out (p ∷ paths) = elim (lookup p target) [
  | none ↦ project_loop target out paths
  | some v ↦ project_loop target (insert_path out p.segments v) paths
]

project_by : {N : Type 0} → Projection → Json N → Json N
project_by Projection.all target = target
project_by (Projection.fields paths) target = Json.obj (project_loop target no_fields paths)

unfoldable pub project : {N F : Type 0} → Query F → Json N → Json N
unfolding project_by project_loop
project q target = project_by q.projection target

module _ (numbers : Numbers) where
  open numbers use {F64, f64_eq, f64_lt, f64_le, Number, as_f64}

  -- `a.as_f64() == Some(b)`.
  f64_is : Option F64 → F64 → Bool
  f64_is none b = false
  f64_is (some a) b = f64_eq a b

  unfoldable pub json_eq : Json Number → Literal F64 → Bool
  unfolding f64_is
  json_eq (Json.str a) (Literal.string b) = a =s b
  json_eq (Json.num a) (Literal.number b) = f64_is (as_f64 a) b
  json_eq (Json.bool a) (Literal.bool b) = if a then b else not b
  json_eq Json.null Literal.null = true
  json_eq _ _ = false

  abbrev any_literal : (Literal F64 → Bool) → Literals F64 → Bool
  any_literal p nil = false
  any_literal p (cons x xs) = if p x then true else any_literal p xs

  -- `matches!(rhs, Literal::Null)`.
  pub is_null : Literal F64 → Bool
  is_null Literal.null = true
  is_null _ = false

  order_f64 : ComparisonOp → F64 → F64 → Bool
  order_f64 lt l r = f64_lt l r
  order_f64 le l r = f64_le l r
  order_f64 gt l r = f64_lt r l
  order_f64 ge l r = f64_le r l
  order_f64 _ l r = false

  order_str : ComparisonOp → Str → Str → Bool
  order_str lt l r = str_lt l r
  order_str le l r = str_le l r
  order_str gt l r = str_lt r l
  order_str ge l r = str_le r l
  order_str _ l r = false

  order_number : ComparisonOp → Option F64 → F64 → Bool
  order_number op none r = false
  order_number op (some l) r = order_f64 op l r

  -- The branch of the four orders; `op` is one of them.
  pub compare_order : ComparisonOp → Option (Json Number) → Literal F64 → Bool
  unfolding order_number order_f64 order_str
  compare_order op (some (Json.num n)) (Literal.number r) = order_number op (as_f64 n) r
  compare_order op (some (Json.str s)) (Literal.string r) = order_str op s r
  compare_order op _ _ = false

  pub compare_like : Option (Json Number) → Literal F64 → Bool
  compare_like (some (Json.str s)) (Literal.string pat) = glob_match pat s
  compare_like _ _ = false

  pub compare_in : Option (Json Number) → Literal F64 → Bool
  compare_in (some g) (Literal.array items) = any_literal (json_eq g) items
  compare_in _ _ = false

  pub compare_eq : Option (Json Number) → Literal F64 → Bool
  unfolding is_null
  compare_eq (some v) rhs = json_eq v rhs
  compare_eq none rhs = is_null rhs

  pub compare_ne : Option (Json Number) → Literal F64 → Bool
  unfolding is_null
  compare_ne (some v) rhs = not (json_eq v rhs)
  compare_ne none rhs = not (is_null rhs)

  unfoldable pub compare : ComparisonOp → Option (Json Number) → Literal F64 → Bool
  unfolding compare_eq compare_ne compare_order compare_like compare_in
  compare eq got rhs = compare_eq got rhs
  compare ne got rhs = compare_ne got rhs
  compare like got rhs = compare_like got rhs
  compare in_set got rhs = compare_in got rhs
  compare op got rhs = compare_order op got rhs

  -- `items.iter().any(…)` of `contains`; what is no array contains nothing.
  unfoldable pub eval_contains : Option (Json Number) → Literal F64 → Bool
  eval_contains (some (Json.arr items)) value = any_item (λ i. json_eq i value) items
  eval_contains _ value = false

  unfoldable pub is_some : Option (Json Number) → Bool
  is_some none = false
  is_some (some _) = true

  unfoldable mutual
    pub eval_pred : Predicate F64 → Json Number → Result QueryError Bool
    eval_pred Predicate.always t = ok true
    eval_pred Predicate.never t = ok false
    eval_pred (Predicate.and items) t = eval_and items t
    eval_pred (Predicate.or items) t = eval_or items t
    eval_pred (Predicate.not inner) t = do b ← eval_pred inner t; ok (not b)
    eval_pred (Predicate.compare left op right) t = ok (compare op (lookup left t) right)
    eval_pred (Predicate.contains path value) t = ok (eval_contains (lookup path t) value)
    eval_pred (Predicate.exists path) t = ok (is_some (lookup path t))

    pub eval_and : Predicates F64 → Json Number → Result QueryError Bool
    eval_and none_left t = ok true
    eval_and (also i items) t = do b ← eval_pred i t; if b then eval_and items t else ok false

    pub eval_or : Predicates F64 → Json Number → Result QueryError Bool
    eval_or none_left t = ok false
    eval_or (also i items) t = do b ← eval_pred i t; if b then ok true else eval_or items t

  unfoldable pub matches : Query F64 → Json Number → Result QueryError Bool
  matches q target = eval_pred q.predicate target
