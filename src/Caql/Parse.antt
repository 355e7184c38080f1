-- ===== src/Caql/Parse.antt =====
-- caql/parse.rs, the whole: projections, predicates and queries.
use boardwalk.Common.{
  ℕ, zero, suc, ◌+◌, ◌*◌, true, false, none, some, List, [], ◌∷◌, codes, length, Result, ok, err,
  ◌>>=◌,
}
use boardwalk.Query.Ast.{
  QueryError, FieldPath, Literal, Predicate, none_left, also, Projection, Query,
}
use boardwalk.Caql.Parser.{
  Failure, syntax, out_of_fuel, Toks, Parsed, fail, op_of, is_comma, is_star, is_lparen, is_rparen,
  is_select, is_where, is_and, is_or, is_not, is_contains, is_exists, peek, bump, expect,
  parse_path, parse_value,
}

module _ {F : Type 0} where
  -- The loop of `parse_projection`.
  unfoldable pub projection_tail : ℕ → Toks F → Parsed F (List FieldPath)
  projection_tail zero ts = err out_of_fuel
  projection_tail (suc f) ts = elim (peek is_comma ts) [
    | true ↦ do
      (p, rest) ← parse_path (bump ts)
      (ps, rest) ← projection_tail f rest
      ok (p ∷ ps, rest)
    | false ↦ ok ([], ts)
  ]

  unfoldable pub parse_projection : ℕ → Toks F → Parsed F Projection
  parse_projection f ts = elim (peek is_star ts) [
    | true ↦ ok (Projection.all, bump ts)
    | false ↦ do
      (p, rest) ← parse_path ts
      (ps, rest) ← projection_tail f rest
      ok (Projection.fields (p ∷ ps), rest)
  ]

  -- `contains` takes a single literal.
  unfoldable pub contains_rhs : FieldPath → Literal F → Toks F → Parsed F (Predicate F)
  contains_rhs left (Literal.array items) rest =
      fail (codes "`contains` rhs must be a single literal, not an array") rest
  contains_rhs left right rest = ok (Predicate.contains left right, rest)

  -- Behind a path: `contains` with one literal, or an operator with a value.
  unfoldable pub parse_operator : ℕ → FieldPath → Toks F → Parsed F (Predicate F)
  parse_operator f left [] = fail (codes "expected comparison operator") []
  parse_operator f left (t ∷ ts) = elim (is_contains t.tok) [
    | true ↦ do (right, rest) ← parse_value f ts; contains_rhs left right rest
    | false ↦ elim (op_of t.tok) [
      | none ↦ fail (codes "expected comparison operator") ts
      | some op ↦ do (right, rest) ← parse_value f ts; ok (Predicate.compare left op right, rest)
    ]
  ]

  unfoldable pub parse_comparison : ℕ → Toks F → Parsed F (Predicate F)
  unfolding parse_operator
  parse_comparison f ts = do (left, rest) ← parse_path ts; parse_operator f left rest

  -- `Predicate::Or(vec![lhs, rhs])`, and the same for `And`.
  abbrev pub or_of : Predicate F → Predicate F → Predicate F
  or_of lhs rhs = Predicate.or (also lhs (also rhs none_left))

  abbrev pub and_of : Predicate F → Predicate F → Predicate F
  and_of lhs rhs = Predicate.and (also lhs (also rhs none_left))

  unfoldable mutual
    pub parse_or : ℕ → Toks F → Parsed F (Predicate F)
    parse_or zero ts = err out_of_fuel
    parse_or (suc f) ts = do (lhs, rest) ← parse_and f ts; or_tail f lhs rest

    pub or_tail : ℕ → Predicate F → Toks F → Parsed F (Predicate F)
    or_tail zero lhs ts = err out_of_fuel
    or_tail (suc f) lhs ts = elim (peek is_or ts) [
      | true ↦ do (rhs, rest) ← parse_and f (bump ts); or_tail f (or_of lhs rhs) rest
      | false ↦ ok (lhs, ts)
    ]

    pub parse_and : ℕ → Toks F → Parsed F (Predicate F)
    parse_and zero ts = err out_of_fuel
    parse_and (suc f) ts = do (lhs, rest) ← parse_not f ts; and_tail f lhs rest

    pub and_tail : ℕ → Predicate F → Toks F → Parsed F (Predicate F)
    and_tail zero lhs ts = err out_of_fuel
    and_tail (suc f) lhs ts = elim (peek is_and ts) [
      | true ↦ do (rhs, rest) ← parse_not f (bump ts); and_tail f (and_of lhs rhs) rest
      | false ↦ ok (lhs, ts)
    ]

    pub parse_not : ℕ → Toks F → Parsed F (Predicate F)
    parse_not zero ts = err out_of_fuel
    parse_not (suc f) ts = elim (peek is_not ts) [
      | true ↦ do (inner, rest) ← parse_not f (bump ts); ok (Predicate.not inner, rest)
      | false ↦ elim (peek is_exists ts) [
        | true ↦ do (path, rest) ← parse_path (bump ts); ok (Predicate.exists path, rest)
        | false ↦ parse_cmp f ts
      ]
    ]

    pub parse_cmp : ℕ → Toks F → Parsed F (Predicate F)
    parse_cmp zero ts = err out_of_fuel
    parse_cmp (suc f) ts = elim (peek is_lparen ts) [
      | true ↦ do
        (inner, rest) ← parse_or f (bump ts)
        (_, rest) ← expect is_rparen (codes "expected `)`") rest
        ok (inner, rest)
      | false ↦ parse_comparison f ts
    ]

  unfoldable pub select_clause : ℕ → Toks F → Parsed F Projection
  select_clause f ts = elim (peek is_select ts) [
    | true ↦ parse_projection f (bump ts)
    | false ↦ ok (Projection.all, ts)
  ]

  unfoldable pub where_clause : ℕ → Toks F → Parsed F (Predicate F)
  where_clause f ts = elim (peek is_where ts) [
    | true ↦ parse_or f (bump ts)
    | false ↦ ok (Predicate.always, ts)
  ]

  unfoldable pub finish : Query F → Toks F → Result Failure (Query F)
  finish q [] = ok q
  finish q (t ∷ ts) = err (syntax (QueryError.parse t.offset (codes "unexpected trailing tokens")))

  -- Six calls at most stand between two tokens that the descent takes.
  abbrev pub fuel_for : Toks F → ℕ
  fuel_for toks = 6 * length toks + 6

  unfoldable pub parse_query : Toks F → Result Failure (Query F)
  unfolding select_clause where_clause finish
  parse_query toks = do
    (projection, rest) ← select_clause (fuel_for toks) toks
    (predicate, rest) ← where_clause (fuel_for toks) rest
    finish (record { projection = projection; predicate = predicate }) rest
