-- ===== src/Caql.antt =====
-- crates/boardwalk/src/caql: the text syntax of queries. `parse` tokenizes the UTF-8 bytes of its input
-- and parses the tokens.
pub mod Lex
pub mod Parser
pub mod Parse
mod Fuel
mod Returns
mod Tests
use boardwalk.Common.{List, Str, utf8, Result, ok, err, ◌>>=◌, map_err}
use boardwalk.Query.Numbers.{Numbers}
use boardwalk.Query.Ast.{QueryError, Query}
use Lex.{tokenize}
use Parser.{Failure, syntax}
use Parse.{parse_query}

unfoldable pub parse : (numbers : Numbers) → Str → Result Failure (Query numbers.F64)
parse numbers input = do toks ← map_err syntax (tokenize numbers (utf8 input)); parse_query toks
