-- ===== src/Events/Topic.antt =====
-- events/topic.rs: topic patterns, their parser, and matching. Regular expressions and the decoding
-- of a query string are those of the parameter `Crates`.
pub mod Matching
pub mod Parsing
use boardwalk.Common.{
  ℕ, suc, ◌+◌, Bool, true, false, ◌&&◌, not, Option, none, some, List, [], ◌∷◌, Str, codes, ◌==◌,
  ◌=s◌, split, if◌then◌else◌, Result, ok, err, ◌>>=◌, map_err,
}
use boardwalk.Query.Json.{Json}
use boardwalk.Query.Ast.{Query}
use boardwalk.Query.Eval.{matches}
use boardwalk.Caql
use boardwalk.Caql.Parser.{Failure}
use boardwalk.Events.Crates.{Crates}

pub data TopicParseError (E : Type 0) : Type 0 where
  empty : TopicParseError E
  bad_regex : ℕ → E → TopicParseError E
  caql : Failure → TopicParseError E
  missing_ql_param : Str → TopicParseError E

pub data Segment (R : Type 0) : Type 0 where
  literal : Str → Segment R
  single_wild multi_wild : Segment R
  regex : R → Segment R

-- Everything up to the first `c`, and what is behind it: `find` and the two slices.
unfoldable pub split_once : ℕ → Str → Option (Str × Str)
split_once c [] = none
split_once c (d ∷ s) =
    let rest = split_once c s in
    if d == c then some ([], s) else elim rest [ none ↦ none | some (a, b) ↦ some (d ∷ a, b) ]

-- The characters between the braces, if the segment begins with `{` and ends with `}`.
before_brace : Str → Option Str
before_brace [] = none
before_brace (c ∷ []) = if c == b'}' then some [] else none
before_brace (c ∷ d ∷ s) = elim (before_brace (d ∷ s)) [
  | none ↦ none
  | some inner ↦ some (c ∷ inner)
]

unfoldable pub braced : Str → Option Str
unfolding before_brace
braced [] = none
braced (c ∷ s) = if c == b'{' then before_brace s else none

-- The loop over the parameters: the first `ql`.
unfoldable pub find_ql : List (Str × Str) → Option Str
find_ql [] = none
find_ql ((k, v) ∷ pairs) = if k =s codes "ql" then some v else find_ql pairs

-- The loop `for consume in 1..=parts.len()`: the pattern's rest is tried behind each part.
unfoldable pub try_consume : (List Str → Bool) → List Str → Bool
try_consume rest [] = false
try_consume rest (part ∷ parts) = if rest parts then true else try_consume rest parts

abbrev is_nil {ℓ} : {A : Type ℓ} → List A → Bool
is_nil [] = true
is_nil (x ∷ xs) = false

module _ (crates : Crates) where
  open crates use {numbers, Regex, RegexError, regex_new, is_match, form_parse}

  pub record TopicPattern : Type 0 where
    pub segments : List (Segment Regex)
    pub filter : Option (Query numbers.F64)
    pub raw : Str

  unfoldable pub segment_of : ℕ → Str → Result (TopicParseError RegexError) (Segment Regex)
  segment_of idx seg =
      if seg =s codes "*"
      then ok single_wild
      else if seg =s codes "**"
      then ok multi_wild
      else elim (braced seg) [
        | some inner ↦ elim (regex_new inner) [
          | ok re ↦ ok (regex re)
          | err e ↦ err (bad_regex idx e)
        ]
        | none ↦ ok (literal seg)
      ]

  unfoldable pub segments_of :
      ℕ → List Str → Result (TopicParseError RegexError) (List (Segment Regex))
  segments_of idx [] = ok []
  segments_of idx (seg ∷ segs) = do
    s ← segment_of idx seg
    rest ← segments_of (idx + 1) segs
    ok (s ∷ rest)

  unfoldable pub filter_of : Str → Result (TopicParseError RegexError) (Query numbers.F64)
  filter_of suffix = elim (find_ql (form_parse suffix)) [
    | none ↦ err (missing_ql_param suffix)
    | some v ↦ map_err caql (Caql.parse numbers v)
  ]

  -- The path, and the filter of a `?` suffix.
  unfoldable pub split_filter :
      Str → Result (TopicParseError RegexError) (Str × Option (Query numbers.F64))
  split_filter input = elim (split_once b'?' input) [
    | none ↦ ok (input, none)
    | some (path, suffix) ↦ do q ← filter_of suffix; ok (path, some q)
  ]

  unfoldable pub parse : Str → Result (TopicParseError RegexError) TopicPattern
  unfolding split_filter filter_of
  parse [] = err empty
  parse (c ∷ input) = do
    (path, filter) ← split_filter (c ∷ input)
    segments ← segments_of 0 (split b'/' path)
    ok (record { segments = segments; filter = filter; raw = c ∷ input })

  -- `matches_at`. A trailing `**` takes any rest that is not empty.
  unfoldable pub matches_at : List (Segment Regex) → List Str → Bool
  unfolding try_consume
  matches_at [] parts = is_nil parts
  matches_at (multi_wild ∷ []) parts = not (is_nil parts)
  matches_at (multi_wild ∷ next ∷ pat) parts = try_consume (matches_at (next ∷ pat)) parts
  matches_at (single_wild ∷ pat) [] = false
  matches_at (single_wild ∷ pat) (part ∷ parts) = matches_at pat parts
  matches_at (literal s ∷ pat) [] = false
  matches_at (literal s ∷ pat) (part ∷ parts) = part =s s && matches_at pat parts
  matches_at (regex re ∷ pat) [] = false
  matches_at (regex re ∷ pat) (part ∷ parts) = is_match re part && matches_at pat parts

  unfoldable pub matches_topic : TopicPattern → Str → Bool
  matches_topic p topic = matches_at p.segments (split b'/' topic)

  -- `unwrap_or(false)`.
  abbrev pub or_false : {E : Type 0} → Result E Bool → Bool
  or_false (ok b) = b
  or_false (err e) = false

  unfoldable pub passes : Option (Query numbers.F64) → Json numbers.Number → Bool
  passes none payload = true
  passes (some q) payload = or_false (matches numbers q payload)

  unfoldable pub matches_event : TopicPattern → Str → Json numbers.Number → Bool
  unfolding passes
  matches_event p topic payload =
      if not (matches_topic p topic) then false else passes p.filter payload
