-- ===== src/Caql/Parser.antt =====
-- caql/parse.rs, the parts: the state of the parser, paths and values. It is the list of tokens
-- from `pos` on; `err` reports the offset of the first of them, or 0 at the end.
use boardwalk.Common.{
  ℕ, zero, suc, Bool, true, false, Option, none, some, List, [], ◌∷◌, Str, codes, if◌then◌else◌,
  Result, ok, err, ◌>>=◌,
}
use boardwalk.Query.Ast.{QueryError, FieldPath, ComparisonOp, Literal, Literals, nil, cons}
use boardwalk.Caql.Lex.{Tok, Spanned}

-- What a run of the parser may end with besides a value. `out_of_fuel` belongs to the model.
pub data Failure : Type 0 where
  syntax : QueryError → Failure
  out_of_fuel : Failure

abbrev pub Toks : Type 0 → Type 0
Toks F = List (Spanned F)

abbrev pub Parsed : Type 0 → Type 0 → Type 0
Parsed F A = Result Failure (A × Toks F)

module _ {F : Type 0} where
  -- `err`.
  abbrev pub fail : {A : Type 0} → Str → Toks F → Result Failure (A × Toks F)
  fail msg [] = err (syntax (QueryError.parse 0 msg))
  fail msg (t ∷ ts) = err (syntax (QueryError.parse t.offset msg))

  -- The tests on a token, by which the parser chooses a branch.
  abbrev pub ident_of : Tok F → Option Str
  ident_of (Tok.ident id) = some id
  ident_of _ = none

  abbrev pub scalar_of : Tok F → Option (Literal F)
  scalar_of (Tok.string v) = some (Literal.string v)
  scalar_of (Tok.number n) = some (Literal.number n)
  scalar_of Tok.true_kw = some (Literal.bool true)
  scalar_of Tok.false_kw = some (Literal.bool false)
  scalar_of Tok.null = some Literal.null
  scalar_of _ = none

  abbrev pub op_of : Tok F → Option ComparisonOp
  op_of Tok.eq = some ComparisonOp.eq
  op_of Tok.ne = some ComparisonOp.ne
  op_of Tok.lt = some ComparisonOp.lt
  op_of Tok.le = some ComparisonOp.le
  op_of Tok.gt = some ComparisonOp.gt
  op_of Tok.ge = some ComparisonOp.ge
  op_of Tok.like = some ComparisonOp.like
  op_of Tok.in_kw = some ComparisonOp.in_set
  op_of _ = none

  abbrev pub is_dot : Tok F → Bool
  is_dot Tok.dot = true
  is_dot _ = false

  abbrev pub is_comma : Tok F → Bool
  is_comma Tok.comma = true
  is_comma _ = false

  abbrev pub is_star : Tok F → Bool
  is_star Tok.star = true
  is_star _ = false

  abbrev pub is_lparen : Tok F → Bool
  is_lparen Tok.lparen = true
  is_lparen _ = false

  abbrev pub is_rparen : Tok F → Bool
  is_rparen Tok.rparen = true
  is_rparen _ = false

  abbrev pub is_lbracket : Tok F → Bool
  is_lbracket Tok.lbracket = true
  is_lbracket _ = false

  abbrev pub is_rbracket : Tok F → Bool
  is_rbracket Tok.rbracket = true
  is_rbracket _ = false

  abbrev pub is_select : Tok F → Bool
  is_select Tok.select = true
  is_select _ = false

  abbrev pub is_where : Tok F → Bool
  is_where Tok.where_kw = true
  is_where _ = false

  abbrev pub is_and : Tok F → Bool
  is_and Tok.and = true
  is_and _ = false

  abbrev pub is_or : Tok F → Bool
  is_or Tok.or = true
  is_or _ = false

  abbrev pub is_not : Tok F → Bool
  is_not Tok.not = true
  is_not _ = false

  abbrev pub is_contains : Tok F → Bool
  is_contains Tok.contains = true
  is_contains _ = false

  abbrev pub is_exists : Tok F → Bool
  is_exists Tok.exists = true
  is_exists _ = false

  -- `peek` and `peek_is`: the next token passes a test.
  abbrev pub peek : (Tok F → Bool) → Toks F → Bool
  peek p [] = false
  peek p (t ∷ ts) = p t.tok

  -- `bump`, where its result is not used.
  abbrev pub bump : Toks F → Toks F
  bump [] = []
  bump (t ∷ ts) = ts

  -- `match self.bump() { Some(t) => …, _ => error }` for a token that must come next.
  unfoldable pub expect : (Tok F → Bool) → Str → Toks F → Parsed F (Unit {0})
  expect p msg [] = fail msg []
  expect p msg (t ∷ ts) = if p t.tok then ok (tt, ts) else fail msg ts

  -- The loop of `parse_path`: a dot and an identifier, as often as they come.
  unfoldable pub path_tail : Toks F → Parsed F (List Str)
  path_tail [] = ok ([], [])
  path_tail (t ∷ []) =
      if is_dot t.tok then fail (codes "expected identifier after `.`") [] else ok ([], t ∷ [])
  path_tail (t ∷ u ∷ ts) = elim (is_dot t.tok) [
    | false ↦ ok ([], t ∷ u ∷ ts)
    | true ↦ elim (ident_of u.tok) [
      | none ↦ fail (codes "expected identifier after `.`") ts
      | some id ↦ do (more, rest) ← path_tail ts; ok (id ∷ more, rest)
    ]
  ]

  unfoldable pub parse_path : Toks F → Parsed F FieldPath
  parse_path [] = fail (codes "expected identifier, got end of input") []
  parse_path (t ∷ ts) = elim (ident_of t.tok) [
    | none ↦ fail (codes "expected identifier") ts
    | some id ↦ do (more, rest) ← path_tail ts; ok (record { segments = id ∷ more }, rest)
  ]

  unfoldable mutual
    pub parse_value : ℕ → Toks F → Parsed F (Literal F)
    parse_value zero ts = err out_of_fuel
    parse_value (suc f) [] = fail (codes "expected literal value") []
    parse_value (suc f) (t ∷ ts) = elim (scalar_of t.tok) [
      | some v ↦ ok (v, ts)
      | none ↦ elim (is_lbracket t.tok) [
        | true ↦ do
          (items, rest) ← parse_items f ts
          (_, rest) ← expect is_rbracket (codes "expected `]`") rest
          ok (Literal.array items, rest)
        | false ↦ fail (codes "expected literal value") ts
      ]
    ]

    -- The items of an array, up to its bracket.
    pub parse_items : ℕ → Toks F → Parsed F (Literals F)
    parse_items zero ts = err out_of_fuel
    parse_items (suc f) ts = elim (peek is_rbracket ts) [
      | true ↦ ok (nil, ts)
      | false ↦ do
        (v, rest) ← parse_value f ts
        (vs, rest) ← value_tail f rest
        ok (cons v vs, rest)
    ]

    pub value_tail : ℕ → Toks F → Parsed F (Literals F)
    value_tail zero ts = err out_of_fuel
    value_tail (suc f) ts = elim (peek is_comma ts) [
      | true ↦ do
        (v, rest) ← parse_value f (bump ts)
        (vs, rest) ← value_tail f rest
        ok (cons v vs, rest)
      | false ↦ ok (nil, ts)
    ]
