-- ===== src/Caql/Lex.antt =====
-- caql/lex.rs: the tokenizer, over the bytes of the source.
use boardwalk.Common.{
  ℕ, zero, suc, ◌+◌, ◌-◌, Bool, true, false, ◌&&◌, ◌||◌, none, some, List, [], ◌∷◌, ◌++◌, map, Str,
  codes, ◌==◌, ◌=s◌, leb, length, if◌then◌else◌, Result, ok, err, ◌>>=◌,
}
use boardwalk.Query.Numbers.{Numbers}
use boardwalk.Query.Ast.{QueryError, parse}

pub data Tok (F : Type 0) : Type 0 where
  select where_kw and or not in_kw like contains exists true_kw false_kw null : Tok F
  ident : Str → Tok F
  number : F → Tok F
  string : Str → Tok F
  dot comma star lparen rparen lbracket rbracket eq ne lt le gt ge : Tok F

pub record Spanned (F : Type 0) : Type 0 where
  pub tok : Tok F
  pub offset : ℕ

abbrev pub backslash : ℕ
backslash = 92

abbrev pub quote : ℕ
quote = 34

unfoldable pub is_whitespace : ℕ → Bool
is_whitespace c = c == 32 || (c == 9 || (c == 10 || (c == 12 || c == 13)))

unfoldable pub is_digit : ℕ → Bool
is_digit c = leb b'0' c && leb c b'9'

unfoldable pub is_alphabetic : ℕ → Bool
is_alphabetic c = (leb b'a' c && leb c b'z') || (leb b'A' c && leb c b'Z')

unfoldable pub is_ident_start : ℕ → Bool
is_ident_start c = is_alphabetic c || c == b'_'

unfoldable pub is_ident_part : ℕ → Bool
is_ident_part c = is_alphabetic c || (is_digit c || c == b'_')

unfoldable pub to_lower : ℕ → ℕ
to_lower c = if leb b'A' c && leb c b'Z' then c + 32 else c

-- The bytes from the front that pass a test, and the others: the loops that advance `j`.
unfoldable pub span : (ℕ → Bool) → Str → Str × Str
span p [] = ([], [])
span p (c ∷ s) = let (t, rest) = span p s in if p c then (c ∷ t, rest) else ([], c ∷ s)

-- The byte that an escape stands for.
unfoldable pub unescape : ℕ → ℕ
unescape c = if c == b'n' then 10 else if c == b't' then 9 else if c == b'r' then 13 else c

-- How the loop over a string literal ends: with its text and the number of bytes that it took.
pub data Literal : Type 0 where
  closed : Str → ℕ → Literal
  unterminated : Literal
  unterminated_escape : Literal

abbrev push_front : ℕ → ℕ → Literal → Literal
push_front c k (closed s n) = closed (c ∷ s) (k + n)
push_front c k other = other

-- Each byte becomes the character with its value.
unfoldable pub lex_string : Str → Literal
lex_string [] = unterminated
lex_string (b ∷ []) =
    if b == backslash then unterminated_escape else if b == quote then closed [] 1 else unterminated
lex_string (b ∷ c ∷ s) =
    let escaped = push_front (unescape c) 2 (lex_string s) in
    let plain = push_front b 1 (lex_string (c ∷ s)) in
    if b == backslash then escaped else if b == quote then closed [] 1 else plain

unfoldable pub is_sign : ℕ → Bool
is_sign c = c == b'-' || c == b'+'

take_sign : Str → Str × Str
take_sign [] = ([], [])
take_sign (c ∷ s) = if is_sign c then (c ∷ [], s) else ([], c ∷ s)

-- An exponent: `e` or `E`, an optional sign, digits.
take_exponent : Str → Str
take_exponent [] = []
take_exponent (c ∷ s) =
    if c == b'e' || c == b'E'
    then (let (sign, more) = take_sign s in c ∷ (sign ++ (span is_digit more).0))
    else []

-- The text of a number that starts with `c`: digits and dots, and an exponent.
unfoldable pub number_text : ℕ → Str → Str
unfolding take_exponent take_sign is_sign
number_text c s =
    let (body, rest) = span (λ d. is_digit d || d == b'.') s in c ∷ (body ++ take_exponent rest)

module _ (numbers : Numbers) where
  open numbers use {F64, f64_parse}

  keywords : List (Str × Tok F64)
  keywords =
      (codes "select", select)
      ∷ (codes "where", where_kw)
      ∷ (codes "and", and)
      ∷ (codes "or", or)
      ∷ (codes "not", not)
      ∷ (codes "in", in_kw)
      ∷ (codes "like", like)
      ∷ (codes "contains", contains)
      ∷ (codes "exists", exists)
      ∷ (codes "true", true_kw)
      ∷ (codes "false", false_kw)
      ∷ (codes "null", null)
      ∷ []

  find_keyword : Str → Tok F64 → List (Str × Tok F64) → Tok F64
  find_keyword s other [] = other
  find_keyword s other ((k, t) ∷ ks) = if s =s k then t else find_keyword s other ks

  -- A word is a keyword in any case of its letters, or an identifier.
  unfoldable pub word : Str → Tok F64
  unfolding find_keyword keywords
  word s = find_keyword (map to_lower s) (ident s) keywords

  abbrev one : Tok F64 → Result QueryError (Tok F64 × ℕ)
  one t = ok (t, 1)

  abbrev followed_by_eq : Str → Bool
  followed_by_eq [] = false
  followed_by_eq (c ∷ _) = c == b'='

  lex_quoted : Literal → ℕ → Result QueryError (Tok F64 × ℕ)
  lex_quoted (closed s n) start = ok (string s, n + 1)
  lex_quoted unterminated start = err (parse start (codes "unterminated string literal"))
  lex_quoted unterminated_escape start = err (parse start (codes "unterminated escape"))

  lex_number : Str → ℕ → Result QueryError (Tok F64 × ℕ)
  lex_number text start = elim (f64_parse text) [
    | none ↦ err (parse start (codes "invalid number `" ++ (text ++ codes "`")))
    | some n ↦ ok (number n, length text)
  ]

  lex_word : Str → Result QueryError (Tok F64 × ℕ)
  lex_word text = ok (word text, length text)

  -- The `match` on the byte `c` at `start`, with the bytes behind it: a token and its width.
  unfoldable pub lex_one : ℕ → Str → ℕ → Result QueryError (Tok F64 × ℕ)
  unfolding lex_quoted lex_number lex_word
  lex_one c s start =
      if c == b'.'
      then one dot
      else if c == b','
      then one comma
      else if c == b'*'
      then one star
      else if c == b'('
      then one lparen
      else if c == b')'
      then one rparen
      else if c == b'['
      then one lbracket
      else if c == b']'
      then one rbracket
      else if c == b'='
      then one eq
      else if c == b'!'
      then (if followed_by_eq s then ok (ne, 2) else err (parse start (codes "expected `!=`")))
      else if c == b'<'
      then (if followed_by_eq s then ok (le, 2) else one lt)
      else if c == b'>'
      then (if followed_by_eq s then ok (ge, 2) else one gt)
      else if c == quote
      then lex_quoted (lex_string s) start
      else if is_digit c || is_sign c
      then lex_number (number_text c s) start
      else if is_ident_start c
      then lex_word (c ∷ (span is_ident_part s).0)
      else err (parse start (codes "unexpected character `" ++ (c ∷ codes "`")))

  -- The loop, at the index `i` with the bytes from there on. A token of `w` bytes moves the index
  -- by `w`: the `w - 1` bytes behind the first are passed over.
  unfoldable pub lex_loop : ℕ → ℕ → Str → Result QueryError (List (Spanned F64))
  lex_loop skip i [] = ok []
  lex_loop (suc skip) i (c ∷ s) = lex_loop skip (i + 1) s
  lex_loop zero i (c ∷ s) = elim (is_whitespace c) [
    | true ↦ lex_loop 0 (i + 1) s
    | false ↦ do
      (tok, width) ← lex_one c s i
      rest ← lex_loop (width - 1) (i + 1) s
      ok (record { tok = tok; offset = i } ∷ rest)
  ]

  unfoldable pub tokenize : Str → Result QueryError (List (Spanned F64))
  unfolding lex_loop lex_one
  tokenize src = lex_loop 0 0 src
