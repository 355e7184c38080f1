-- ===== src/Query/Tests.antt =====
-- Runs of the query code on small values.
use boardwalk.Common.{
  ℕ, true, some, [], ◌∷◌, codes, join, ok, ◌≡◌, ◌↔◌, refl, inl, inr, arith, split, ◌=s◌,
}
use boardwalk.Samples.{numbers}
use boardwalk.Query.Json.{Json, Fields, no_fields, field, get}
use boardwalk.Query.Ast.{
  FieldPath, gt, like, Literal, Predicate, none_left, also, Projection, Query, try_parse,
}
use boardwalk.Query.Ast.Paths.{IsWritten, try_parse-join, try_parse-IsWritten}
use boardwalk.Query.Glob.{Globs, glob_match, glob_match_iff}
use boardwalk.Query.Eval.{lookup, compare, eval_pred, matches, project}
use boardwalk.Query.Meaning.{Means}
use boardwalk.Query.Eval.Part.{IsPart}
use boardwalk.Query.Eval.Decides.{Decides, matches-Decides}
use boardwalk.Query.Eval.Projected.{lookup-project, project-IsPart}

-- What a run of a query unfolds.
run_query : Unit {0}
unfolding matches eval_pred compare lookup get ◌=s◌ glob_match
run_query = tt

abbrev temp_path : FieldPath
temp_path = record { segments = codes "data" ∷ codes "temp" ∷ [] }

abbrev kind_path : FieldPath
kind_path = record { segments = codes "kind" ∷ [] }

abbrev reading : Fields ℕ
reading =
    field (codes "kind") (Json.str (codes "sensor"))
      (field (codes "data") (Json.obj (field (codes "temp") (Json.num 21) no_fields)) no_fields)

-- `select kind, data.temp where data.temp > 20 and not (kind like "lamp*")`.
abbrev warm : Query ℕ
warm = record {
  projection = Projection.fields (kind_path ∷ temp_path ∷ []);
  predicate = Predicate.and (
      also (Predicate.compare temp_path gt (Literal.number 20)) (
        also (Predicate.not (Predicate.compare kind_path like (Literal.string (codes "lamp*"))))
          none_left));
}

matches_test : matches numbers warm (Json.obj reading) ≡ ok true
unfolding run_query
matches_test = refl

matches-Decides_example :
    Decides
      (matches numbers warm (Json.obj reading))
      (Means numbers warm.predicate (Json.obj reading))
matches-Decides_example = matches-Decides numbers warm (Json.obj reading)

temp_is : lookup temp_path (Json.obj reading) ≡ some (Json.num 21)
unfolding run_query
temp_is = refl

lookup-project_example : lookup temp_path (project warm (Json.obj reading)) ≡ some (Json.num 21)
lookup-project_example =
    lookup-project warm (kind_path ∷ temp_path ∷ []) temp_path (Json.obj reading) (Json.num 21) refl
      (λ e. cc) (inr (inl refl)) temp_is

project-IsPart_example : IsPart (project warm (Json.obj reading)) (Json.obj reading)
project-IsPart_example = project-IsPart warm reading

glob_match_iff_example :
    (glob_match (codes "l?mp*") (codes "lamp-7") ≡ true) ↔ Globs (codes "l?mp*") (codes "lamp-7")
glob_match_iff_example = glob_match_iff (codes "l?mp*") (codes "lamp-7")

temp_path-IsWritten : IsWritten temp_path
temp_path-IsWritten = record {
  has_segment = λ e. cc;
  nonempty = ((λ e. cc), ((λ e. cc), tt));
  dotless = (
    ((λ e. omega arith), ((λ e. omega arith), ((λ e. omega arith), ((λ e. omega arith), tt)))),
    (
      ((λ e. omega arith), ((λ e. omega arith), ((λ e. omega arith), ((λ e. omega arith), tt)))),
      tt,
    ),
  );
}

try_parse-join_example : try_parse (codes "data.temp") ≡ ok temp_path
unfolding join
try_parse-join_example = try_parse-join temp_path temp_path-IsWritten

data_temp-parses : try_parse (codes "data.temp") ≡ ok temp_path
unfolding try_parse split
data_temp-parses = refl

try_parse-IsWritten_example :
    IsWritten temp_path × (join b'.' temp_path.segments ≡ codes "data.temp")
try_parse-IsWritten_example = try_parse-IsWritten (codes "data.temp") temp_path data_temp-parses
