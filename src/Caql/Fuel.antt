-- ===== src/Caql/Fuel.antt =====
-- caql/parse.rs on fuel: runs of the parser that take tokens, for paths and values.
use boardwalk.Common.{
  ℕ, zero, suc, ◌+◌, ◌*◌, ◌≤◌, Bool, true, false, Option, none, some, List, [], ◌∷◌, Str, codes,
  length, ok, err, ◌>>=◌, arith, if◌then◌else◌,
}
use boardwalk.Query.Ast.{FieldPath, Literal}
use boardwalk.Caql.Lex.{Tok}
use boardwalk.Caql.Parser.{
  syntax, out_of_fuel, Toks, Parsed, fail, ident_of, scalar_of, is_dot, is_comma, is_lbracket,
  is_rbracket, peek, bump, expect, path_tail, parse_path, parse_value, parse_items, value_tail,
}

module _ {F : Type 0} where
  -- A run that has not come to the end of its fuel, and that has taken `k` of `n` tokens at least
  -- if it gives a value.
  abbrev pub Runs : {A : Type 0} → ℕ → ℕ → Parsed F A → Type 0
  Runs k n (ok (a, rest)) = length rest + k ≤ n
  Runs k n (err (syntax e)) = Unit
  Runs k n (err out_of_fuel) = ⊥

  pub Runs-fail : (A : Type 0) (k n : ℕ) (msg : Str) (ts : Toks F) → Runs {A = A} k n (fail msg ts)
  Runs-fail A k n msg [] = tt
  Runs-fail A k n msg (t ∷ ts) = tt

  pub Runs-weaken : {A : Type 0} (k n m : ℕ) (r : Parsed F A) → Runs k n r → n ≤ m → Runs k m r
  Runs-weaken k n m (ok (a, rest)) h le = omega arith
  Runs-weaken k n m (err (syntax e)) h le = tt
  Runs-weaken k n m (err out_of_fuel) h le = absurd h

  pub Runs-Bool :
      {A : Type 0} (k n : ℕ) (b : Bool) (x y : Parsed F A)
      → Runs k n x
      → Runs k n y
      → Runs k n (elim b [ true ↦ x | false ↦ y ])
  Runs-Bool k n true x y h k' = h
  Runs-Bool k n false x y h k' = k'

  pub Runs-if :
      {A : Type 0} (k n : ℕ) (b : Bool) (x y : Parsed F A)
      → Runs k n x
      → Runs k n y
      → Runs k n (if b then x else y)
  Runs-if k n true x y h k' = h
  Runs-if k n false x y h k' = k'

  pub Runs-Option :
      {A B : Type 0} (k n : ℕ) (o : Option B) (x : Parsed F A) (f : B → Parsed F A)
      → Runs k n x
      → ((b : B) → Runs k n (f b))
      → Runs k n (elim o [ none ↦ x | some b ↦ f b ])
  Runs-Option k n none x f h next = h
  Runs-Option k n (some b) x f h next = next b

  pub Runs-bind :
      {A B : Type 0} (k n j m : ℕ) (r : Parsed F A) (f : A × Toks F → Parsed F B)
      → Runs k n r
      → ((a : A) (rest : Toks F) → length rest + k ≤ n → Runs j m (f (a, rest)))
      → Runs j m (r >>= f)
  Runs-bind k n j m (ok (a, rest)) f h next = next a rest h
  Runs-bind k n j m (err (syntax e)) f h next = tt
  Runs-bind k n j m (err out_of_fuel) f h next = absurd h

  -- A run that branches on the next token.
  pub Runs-peek :
      {A : Type 0} (k n : ℕ) (p : Tok F → Bool) (ts : Toks F) (x y : Parsed F A)
      → (suc (length (bump ts)) ≤ length ts → Runs k n x)
      → Runs k n y
      → Runs k n (elim (peek p ts) [ true ↦ x | false ↦ y ])
  Runs-peek k n p [] x y yes' no' = no'
  Runs-peek k n p (t ∷ ts) x y yes' no' = Runs-Bool k n (p t.tok) x y (yes' (omega arith)) no'

  pub Runs-expect :
      (p : Tok F → Bool) (msg : Str) (ts : Toks F) → Runs 1 (length ts) (expect p msg ts)
  unfolding expect
  Runs-expect p msg [] = tt
  Runs-expect p msg (t ∷ ts) =
      Runs-if 1 (suc (length ts)) (p t.tok) _ _ (omega arith)
        (Runs-fail (Unit {0}) 1 (suc (length ts)) msg ts)

  pub Runs-path_tail : (ts : Toks F) → Runs 0 (length ts) (path_tail ts)
  unfolding path_tail
  Runs-path_tail [] = omega arith
  Runs-path_tail (t ∷ []) = Runs-if 0 1 (is_dot t.tok) _ _ tt (omega arith)
  Runs-path_tail (t ∷ u ∷ ts) =
      let n = suc (suc (length ts)) in
      Runs-Bool 0 n (is_dot t.tok) _ _
        (Runs-Option 0 n (ident_of u.tok) _ _
          (Runs-fail (List Str) 0 n (codes "expected identifier after `.`") ts)
          (λ id.
            Runs-bind 0 (length ts) 0 n (path_tail ts) _ (Runs-path_tail ts)
              (λ more rest le. omega arith)))
        (omega arith)

  pub Runs-parse_path : (ts : Toks F) → Runs 1 (length ts) (parse_path ts)
  unfolding parse_path
  Runs-parse_path [] = tt
  Runs-parse_path (t ∷ ts) =
      let n = suc (length ts) in
      Runs-Option 1 n (ident_of t.tok) _ _
        (Runs-fail FieldPath 1 n (codes "expected identifier") ts)
        (λ id.
          Runs-bind 0 (length ts) 1 n (path_tail ts) _ (Runs-path_tail ts)
            (λ more rest le. omega arith))

  mutual
    unfolding parse_value

    pub Runs-parse_value_lem :
        (f : ℕ) (ts : Toks F) → 6 * length ts + 1 ≤ f → Runs 1 (length ts) (parse_value f ts)
    Runs-parse_value_lem zero ts le = absurd (omega arith)
    Runs-parse_value_lem (suc f) [] le = tt
    Runs-parse_value_lem (suc f) (t ∷ ts) le =
        let n = suc (length ts) in
        Runs-Option 1 n (scalar_of t.tok) _ _
          (Runs-Bool 1 n (is_lbracket t.tok) _ _
            (Runs-bind 0 (length ts) 1 n (parse_items f ts) _
              (Runs-parse_items_lem f ts (omega arith))
              (λ items rest le'.
                Runs-bind 1 (length rest) 1 n (expect is_rbracket (codes "expected `]`") rest) _
                  (Runs-expect is_rbracket (codes "expected `]`") rest)
                  (λ u last le''. omega arith)))
            (Runs-fail (Literal F) 1 n (codes "expected literal value") ts))
          (λ v. omega arith)

    Runs-parse_items_lem :
        (f : ℕ) (ts : Toks F) → 6 * length ts + 2 ≤ f → Runs 0 (length ts) (parse_items f ts)
    Runs-parse_items_lem zero ts le = absurd (omega arith)
    Runs-parse_items_lem (suc f) ts le =
        Runs-peek 0 (length ts) is_rbracket ts _ _ (λ h. omega arith)
          (Runs-bind 1 (length ts) 0 (length ts) (parse_value f ts) _
            (Runs-parse_value_lem f ts (omega arith))
            (λ v rest le'.
              Runs-bind 0 (length rest) 0 (length ts) (value_tail f rest) _
                (Runs-value_tail_lem f rest (omega arith)) (λ vs last le''. omega arith)))

    Runs-value_tail_lem :
        (f : ℕ) (ts : Toks F) → 6 * length ts + 1 ≤ f → Runs 0 (length ts) (value_tail f ts)
    Runs-value_tail_lem zero ts le = absurd (omega arith)
    Runs-value_tail_lem (suc f) ts le =
        Runs-peek 0 (length ts) is_comma ts _ _
          (λ h.
            Runs-bind 1 (length (bump ts)) 0 (length ts) (parse_value f (bump ts)) _
              (Runs-parse_value_lem f (bump ts) (omega arith))
              (λ v rest le'.
                Runs-bind 0 (length rest) 0 (length ts) (value_tail f rest) _
                  (Runs-value_tail_lem f rest (omega arith)) (λ vs last le''. omega arith)))
          (omega arith)
