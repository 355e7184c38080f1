-- ===== src/Events/Crates.antt =====
-- What the events code takes from other crates: the regular expressions of regex, the query-string
-- parser of url, the timestamps of time. All are parameters of the development.
use boardwalk.Common.{Bool, List, Str, Result}
use boardwalk.Query.Numbers.{Numbers}

pub record Crates : Type 1 where
  pub numbers : Numbers
  pub Regex : Type 0
  pub RegexError : Type 0
  pub regex_new : Str → Result RegexError Regex
  pub is_match : Regex → Str → Bool
  -- `url::form_urlencoded::parse`: the pairs of a query string, decoded.
  pub form_parse : Str → List (Str × Str)
  -- `time::OffsetDateTime`.
  pub Timestamp : Type 0
