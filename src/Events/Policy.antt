-- ===== src/Events/Policy.antt =====
-- events/policy.rs: the slow-consumer policies, their query-string form, and the options of a
-- subscription.
pub mod RoundTrip
use boardwalk.Common.{
  ℕ, ◌*◌, Bool, Option, none, some, List, [], ◌∷◌, map, Str, codes, ◌==◌, ◌=s◌, join, if◌then◌else◌,
  Result, ok, err, ◌>>=◌, map_err,
}
use boardwalk.Query.Ast.{QueryError, FieldPath, try_parse}
use boardwalk.Caql.Lex.{to_lower}

abbrev pub default_outbound_capacity : ℕ
default_outbound_capacity = 64

abbrev pub default_max_event_size_bytes : ℕ
default_max_event_size_bytes = 256 * 1024

pub data SlowConsumerPolicy : Type 0 where
  disconnect backpressure drop_newest : SlowConsumerPolicy
  coalesce : FieldPath → SlowConsumerPolicy

pub data PolicyQueryError : Type 0 where
  unexpected_coalesce_key missing_coalesce_key : PolicyQueryError
  invalid_coalesce_key : Str → QueryError → PolicyQueryError
  unknown : Str → PolicyQueryError

unfoldable pub query_value : SlowConsumerPolicy → Str × Option Str
query_value disconnect = (codes "disconnect", none)
query_value backpressure = (codes "backpressure", none)
query_value drop_newest = (codes "drop-newest", none)
query_value (coalesce key_path) = (codes "coalesce", some (join b'.' key_path.segments))

-- `value.replace('_', "-").to_ascii_lowercase()`.
unfoldable pub normalized : Str → Str
unfolding to_lower
normalized value = map to_lower (map (λ c. if c == b'_' then b'-' else c) value)

-- A policy that takes no key.
unfoldable pub without_key :
    SlowConsumerPolicy → Option Str → Result PolicyQueryError SlowConsumerPolicy
without_key policy none = ok policy
without_key policy (some key) = err unexpected_coalesce_key

unfoldable pub with_key : Option Str → Result PolicyQueryError SlowConsumerPolicy
with_key none = err missing_coalesce_key
with_key (some key) = do
  key_path ← map_err (invalid_coalesce_key key) (try_parse key)
  ok (coalesce key_path)

unfoldable pub from_query : Str → Option Str → Result PolicyQueryError SlowConsumerPolicy
unfolding without_key with_key normalized
from_query value coalesce_key =
    let word = normalized value in
    if word =s codes "disconnect"
    then without_key disconnect coalesce_key
    else if word =s codes "backpressure"
    then without_key backpressure coalesce_key
    else if word =s codes "drop-newest"
    then without_key drop_newest coalesce_key
    else if word =s codes "dropnewest"
    then without_key drop_newest coalesce_key
    else if word =s codes "coalesce"
    then with_key coalesce_key
    else err (unknown value)

pub record SubscribeOpts : Type 0 where
  pub limit : Option ℕ
  pub outbound_capacity : Option ℕ
  pub slow_consumer_policy : SlowConsumerPolicy

unfoldable pub resolved_outbound_capacity : SubscribeOpts → ℕ
resolved_outbound_capacity opts = elim opts.outbound_capacity [
  | none ↦ default_outbound_capacity
  | some n ↦ n
]
