-- ===== src/Caql/Tests.antt =====
-- Runs of the parser.
use boardwalk.Common.{[], ◌∷◌, Str, codes, ◌=s◌, utf8, ok, ◌≡◌, refl}
use boardwalk.Samples.{numbers}
use boardwalk.Query.Ast.{FieldPath, gt, eq, Literal, Predicate, none_left, also, Projection}
use boardwalk.Caql.{parse}
use boardwalk.Caql.Parser.{expect, path_tail, parse_path, parse_value}
use boardwalk.Caql.Parse.{
  parse_query, parse_projection, projection_tail, parse_comparison, parse_operator, contains_rhs,
  parse_or, select_clause, where_clause, finish,
}
use boardwalk.Caql.Lex.{
  tokenize, is_whitespace, is_digit, is_sign, is_ident_start, is_alphabetic, span, is_ident_part,
  number_text, lex_string, word, to_lower, lex_loop, lex_one,
}
use boardwalk.Caql.Returns.{Returns, parse-Returns}

abbrev warm : Str
warm = codes "select kind where not (data.temp > 20) or kind = \"lamp\""

abbrev path : Str → FieldPath
path s = record { segments = s ∷ [] }

warm_test :
    parse numbers warm
    ≡ ok (record {
      projection = Projection.fields (path (codes "kind") ∷ []);
      predicate = Predicate.or (
          also
            (Predicate.not (
              Predicate.compare
                (record { segments = codes "data" ∷ codes "temp" ∷ [] })
                gt
                (Literal.number 20)))
            (also
              (Predicate.compare (path (codes "kind")) eq (Literal.string (codes "lamp")))
              none_left));
    })
unfolding parse tokenize utf8 is_whitespace is_digit is_sign is_ident_start is_alphabetic span
    is_ident_part number_text lex_string parse_query word ◌=s◌ to_lower parse_projection parse_path
    lex_loop lex_one contains_rhs finish parse_comparison parse_operator parse_or projection_tail
    select_clause where_clause expect parse_value path_tail
warm_test = refl

parse-Returns_example : Returns (parse numbers warm)
parse-Returns_example = parse-Returns numbers warm
