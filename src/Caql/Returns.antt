-- ===== src/Caql/Returns.antt =====
-- caql/parse.rs on fuel: what `parse_query` gives its parts is always enough, since every round of
-- the descent takes a token.
use boardwalk.Common.{
  ℕ, zero, suc, ◌+◌, ◌*◌, ◌≤◌, [], ◌∷◌, Str, codes, length, Result, ok, err, ◌>>=◌, map_err, ◌≡◌,
  refl, ◌⊎◌, inl, inr, arith, utf8,
}
use boardwalk.Query.Numbers.{Numbers}
use boardwalk.Query.Ast.{QueryError, FieldPath, Literal, Predicate, Query}
use boardwalk.Caql.{parse}
use boardwalk.Caql.Lex.{tokenize}
use boardwalk.Caql.Parser.{
  Failure, syntax, out_of_fuel, Toks, Parsed, op_of, is_comma, is_star, is_lparen, is_rparen,
  is_select, is_where, is_and, is_or, is_not, is_contains, is_exists, bump, expect, parse_path,
  parse_value,
}
use boardwalk.Caql.Parse.{
  projection_tail, parse_projection, contains_rhs, parse_operator, parse_comparison, or_of, and_of,
  parse_or, or_tail, parse_and, and_tail, parse_not, parse_cmp, select_clause, where_clause, finish,
  fuel_for, parse_query,
}
use boardwalk.Caql.Fuel.{
  Runs, Runs-Bool, Runs-Option, Runs-bind, Runs-expect, Runs-fail, Runs-parse_path,
  Runs-parse_value_lem, Runs-peek, Runs-weaken,
}

-- A value, or an error of the source.
abbrev pub Returns : {A : Type 0} → Result Failure A → Type 0
Returns {A} r = ((a : A) × (r ≡ ok a)) ⊎ ((e : QueryError) × (r ≡ err (syntax e)))

module _ {F : Type 0} where
  Runs-projection_tail :
      (f : ℕ) (ts : Toks F) → length ts + 1 ≤ f → Runs 0 (length ts) (projection_tail f ts)
  unfolding projection_tail
  Runs-projection_tail zero ts le = absurd (omega arith)
  Runs-projection_tail (suc f) ts le =
      Runs-peek 0 (length ts) is_comma ts _ _
        (λ h.
          Runs-bind 1 (length (bump ts)) 0 (length ts) (parse_path (bump ts)) _
            (Runs-parse_path (bump ts))
            (λ p rest le'.
              Runs-bind 0 (length rest) 0 (length ts) (projection_tail f rest) _
                (Runs-projection_tail f rest (omega arith)) (λ ps last le''. omega arith)))
        (omega arith)

  Runs-parse_projection :
      (f : ℕ) (ts : Toks F) → length ts + 1 ≤ f → Runs 0 (length ts) (parse_projection f ts)
  unfolding parse_projection
  Runs-parse_projection f ts le =
      Runs-peek 0 (length ts) is_star ts _ _ (λ h. omega arith)
        (Runs-bind 1 (length ts) 0 (length ts) (parse_path ts) _ (Runs-parse_path ts) (λ p rest le'.
          Runs-bind 0 (length rest) 0 (length ts) (projection_tail f rest) _
            (Runs-projection_tail f rest (omega arith)) (λ ps last le''. omega arith)))

  Runs-contains_rhs :
      (left : FieldPath) (right : Literal F) (n : ℕ) (ts : Toks F)
      → length ts + 1 ≤ n
      → Runs 1 n (contains_rhs left right ts)
  unfolding contains_rhs
  Runs-contains_rhs left (Literal.array items) n ts le =
      Runs-fail (Predicate F) 1 n (codes "`contains` rhs must be a single literal, not an array") ts
  Runs-contains_rhs left (Literal.string v) n ts le = le
  Runs-contains_rhs left (Literal.number v) n ts le = le
  Runs-contains_rhs left (Literal.bool v) n ts le = le
  Runs-contains_rhs left Literal.null n ts le = le

  Runs-parse_operator :
      (f : ℕ) (left : FieldPath) (ts : Toks F)
      → 6 * length ts + 1 ≤ f
      → Runs 1 (length ts) (parse_operator f left ts)
  unfolding parse_operator
  Runs-parse_operator f left [] le = tt
  Runs-parse_operator f left (t ∷ ts) le =
      let n = suc (length ts) in
      Runs-Bool 1 n (is_contains t.tok) _ _
        (Runs-bind 1 (length ts) 1 n (parse_value f ts) _ (Runs-parse_value_lem f ts (omega arith))
          (λ right rest le'. Runs-contains_rhs left right n rest (omega arith)))
        (Runs-Option 1 n (op_of t.tok) _ _
          (Runs-fail (Predicate F) 1 n (codes "expected comparison operator") ts)
          (λ op.
            Runs-bind 1 (length ts) 1 n (parse_value f ts) _
              (Runs-parse_value_lem f ts (omega arith)) (λ right rest le'. omega arith)))

  Runs-parse_comparison :
      (f : ℕ) (ts : Toks F) → 6 * length ts ≤ f + 5 → Runs 1 (length ts) (parse_comparison f ts)
  unfolding parse_comparison
  Runs-parse_comparison f ts le =
      Runs-bind 1 (length ts) 1 (length ts) (parse_path ts) _ (Runs-parse_path ts) (λ left rest le'.
        Runs-weaken 1 (length rest) (length ts) (parse_operator f left rest)
          (Runs-parse_operator f left rest (omega arith)) (omega arith))

  mutual
    unfolding parse_or

    Runs-parse_or_lem :
        (f : ℕ) (ts : Toks F) → 6 * length ts + 4 ≤ f → Runs 1 (length ts) (parse_or f ts)
    Runs-parse_or_lem zero ts le = absurd (omega arith)
    Runs-parse_or_lem (suc f) ts le =
        Runs-bind 1 (length ts) 1 (length ts) (parse_and f ts) _
          (Runs-parse_and_lem f ts (omega arith))
          (λ lhs rest le'. Runs-or_tail_lem f (length ts) lhs rest (omega arith) le')

    Runs-or_tail_lem :
        (f : ℕ) (n : ℕ) (lhs : Predicate F) (ts : Toks F)
        → 6 * length ts + 1 ≤ f
        → length ts + 1 ≤ n
        → Runs 1 n (or_tail f lhs ts)
    Runs-or_tail_lem zero n lhs ts le small = absurd (omega arith)
    Runs-or_tail_lem (suc f) n lhs ts le small =
        Runs-peek 1 n is_or ts _ _
          (λ h.
            Runs-bind 1 (length (bump ts)) 1 n (parse_and f (bump ts)) _
              (Runs-parse_and_lem f (bump ts) (omega arith))
              (λ rhs rest le'.
                Runs-or_tail_lem f n (or_of lhs rhs) rest (omega arith) (omega arith)))
          small

    Runs-parse_and_lem :
        (f : ℕ) (ts : Toks F) → 6 * length ts + 3 ≤ f → Runs 1 (length ts) (parse_and f ts)
    Runs-parse_and_lem zero ts le = absurd (omega arith)
    Runs-parse_and_lem (suc f) ts le =
        Runs-bind 1 (length ts) 1 (length ts) (parse_not f ts) _
          (Runs-parse_not_lem f ts (omega arith))
          (λ lhs rest le'. Runs-and_tail_lem f (length ts) lhs rest (omega arith) le')

    Runs-and_tail_lem :
        (f : ℕ) (n : ℕ) (lhs : Predicate F) (ts : Toks F)
        → 6 * length ts + 1 ≤ f
        → length ts + 1 ≤ n
        → Runs 1 n (and_tail f lhs ts)
    Runs-and_tail_lem zero n lhs ts le small = absurd (omega arith)
    Runs-and_tail_lem (suc f) n lhs ts le small =
        Runs-peek 1 n is_and ts _ _
          (λ h.
            Runs-bind 1 (length (bump ts)) 1 n (parse_not f (bump ts)) _
              (Runs-parse_not_lem f (bump ts) (omega arith))
              (λ rhs rest le'.
                Runs-and_tail_lem f n (and_of lhs rhs) rest (omega arith) (omega arith)))
          small

    Runs-parse_not_lem :
        (f : ℕ) (ts : Toks F) → 6 * length ts + 2 ≤ f → Runs 1 (length ts) (parse_not f ts)
    Runs-parse_not_lem zero ts le = absurd (omega arith)
    Runs-parse_not_lem (suc f) ts le =
        Runs-peek 1 (length ts) is_not ts _ _
          (λ h.
            Runs-bind 1 (length (bump ts)) 1 (length ts) (parse_not f (bump ts)) _
              (Runs-parse_not_lem f (bump ts) (omega arith)) (λ inner rest le'. omega arith))
          (Runs-peek 1 (length ts) is_exists ts _ _
            (λ h.
              Runs-bind 1 (length (bump ts)) 1 (length ts) (parse_path (bump ts)) _
                (Runs-parse_path (bump ts)) (λ path rest le'. omega arith))
            (Runs-parse_cmp_lem f ts (omega arith)))

    Runs-parse_cmp_lem :
        (f : ℕ) (ts : Toks F) → 6 * length ts + 1 ≤ f → Runs 1 (length ts) (parse_cmp f ts)
    Runs-parse_cmp_lem zero ts le = absurd (omega arith)
    Runs-parse_cmp_lem (suc f) ts le =
        Runs-peek 1 (length ts) is_lparen ts _ _
          (λ h.
            Runs-bind 1 (length (bump ts)) 1 (length ts) (parse_or f (bump ts)) _
              (Runs-parse_or_lem f (bump ts) (omega arith))
              (λ inner rest le'.
                Runs-bind 1 (length rest) 1 (length ts)
                  (expect is_rparen (codes "expected `)`") rest) _
                  (Runs-expect is_rparen (codes "expected `)`") rest) (λ u last le''. omega arith)))
          (Runs-parse_comparison f ts (omega arith))

  Runs-select_clause :
      (f : ℕ) (ts : Toks F) → length ts + 1 ≤ f → Runs 0 (length ts) (select_clause f ts)
  unfolding select_clause
  Runs-select_clause f ts le =
      Runs-peek 0 (length ts) is_select ts _ _
        (λ h.
          Runs-weaken 0 (length (bump ts)) (length ts) (parse_projection f (bump ts))
            (Runs-parse_projection f (bump ts) (omega arith)) (omega arith))
        (omega arith)

  Runs-where_clause :
      (f : ℕ) (ts : Toks F) → 6 * length ts + 4 ≤ f → Runs 0 (length ts) (where_clause f ts)
  unfolding where_clause
  Runs-where_clause f ts le =
      Runs-peek 0 (length ts) is_where ts _ _
        (λ h.
          Runs-taken (parse_or f (bump ts)) (Runs-parse_or_lem f (bump ts) (omega arith))
            (omega arith))
        (omega arith)
    where
      Runs-taken :
          (r : Parsed F (Predicate F))
          → Runs 1 (length (bump ts)) r
          → length (bump ts) ≤ length ts
          → Runs 0 (length ts) r
      Runs-taken (ok (a, rest)) h small = omega arith
      Runs-taken (err (syntax e)) h small = tt
      Runs-taken (err out_of_fuel) h small = absurd h

  Returns-bind :
      {A B : Type 0} (k n : ℕ) (r : Parsed F A) (f : A × Toks F → Result Failure B)
      → Runs k n r
      → ((a : A) (rest : Toks F) → length rest + k ≤ n → Returns (f (a, rest)))
      → Returns (r >>= f)
  Returns-bind k n (ok (a, rest)) f h next = next a rest h
  Returns-bind k n (err (syntax e)) f h next = inr (e, refl)
  Returns-bind k n (err out_of_fuel) f h next = absurd h

  Returns-finish : (q : Query F) (ts : Toks F) → Returns (finish q ts)
  unfolding finish
  Returns-finish q [] = inl (q, refl)
  Returns-finish q (t ∷ ts) =
      inr (QueryError.parse t.offset (codes "unexpected trailing tokens"), refl)

  Returns-parse_query : (ts : Toks F) → Returns (parse_query ts)
  unfolding parse_query
  Returns-parse_query ts =
      Returns-bind 0 (length ts) (select_clause (fuel_for ts) ts) _
        (Runs-select_clause (fuel_for ts) ts (omega arith))
        (λ projection rest le.
          Returns-bind 0 (length rest) (where_clause (fuel_for ts) rest) _
            (Runs-where_clause (fuel_for ts) rest (omega arith))
            (λ predicate last le'.
              Returns-finish (record { projection = projection; predicate = predicate }) last))

Returns-tokens :
    {F : Type 0} (r : Result QueryError (Toks F))
    → Returns (map_err syntax r >>= λ toks. parse_query toks)
Returns-tokens (ok toks) = Returns-parse_query toks
Returns-tokens (err e) = inr (e, refl)

-- Whatever the input, parsing gives a query or a `QueryError`: the parser never comes to the end of
-- its fuel.
pub parse-Returns : (numbers : Numbers) (input : Str) → Returns (parse numbers input)
unfolding parse
parse-Returns numbers input = Returns-tokens (tokenize numbers (utf8 input))
