-- ===== src/Events/Policy/RoundTrip.antt =====
-- A policy is read back from the query parameters that it is written to.
use boardwalk.Common.{
  Option, none, some, Str, codes, ok, ◌≡◌, refl, subst, inl, inr, arith, Result-cases, ◌=s◌,
  Bool-cases,
}
use boardwalk.Query.Ast.{try_parse}
use boardwalk.Query.Ast.Paths.{IsWritten, try_parse-join, try_parse-IsWritten}
use boardwalk.Events.Policy.{
  SlowConsumerPolicy, disconnect, backpressure, drop_newest, coalesce, query_value, normalized,
  without_key, with_key, from_query,
}

-- A policy that has a text: the path of a coalescing policy is a written path.
abbrev pub HasText : SlowConsumerPolicy → Type 0
HasText (coalesce key_path) = IsWritten key_path
HasText _ = Unit

-- Reading the parameters that a policy is written to gives the policy back.
pub from_query-query_value :
    (p : SlowConsumerPolicy) → HasText p → from_query (query_value p).0 (query_value p).1 ≡ ok p
unfolding from_query query_value ◌=s◌
from_query-query_value disconnect h = refl
from_query-query_value backpressure h = refl
from_query-query_value drop_newest h = refl
from_query-query_value (coalesce key_path) h = rw (try_parse-join key_path h)

with_key-HasText : (key : Option Str) (p : SlowConsumerPolicy) → with_key key ≡ ok p → HasText p
unfolding with_key
with_key-HasText none p h = cc
with_key-HasText (some key) p h = elim (Result-cases (try_parse key)) [
  | inl (path, e) ↦
      let (w, _) = try_parse-IsWritten key path e in
      let same : coalesce path ≡ p = ground arith in subst HasText same w
  | inr (q, e) ↦ absurd (ground arith)
]

without_key-HasText :
    (q : SlowConsumerPolicy) (key : Option Str) (p : SlowConsumerPolicy)
    → HasText q
    → without_key q key ≡ ok p
    → HasText p
unfolding without_key
without_key-HasText q none p t h = let same : q ≡ p = ground arith in subst HasText same t
without_key-HasText q (some key) p t h = cc

from_query-HasText :
    (value : Str) (key : Option Str) (p : SlowConsumerPolicy)
    → from_query value key ≡ ok p
    → HasText p
unfolding from_query
from_query-HasText value key p h = elim (Bool-cases (normalized value =s codes "disconnect")) [
  | inl a ↦ without_key-HasText disconnect key p tt (rw (a) at h)
  | inr a ↦ elim (Bool-cases (normalized value =s codes "backpressure")) [
    | inl b ↦ without_key-HasText backpressure key p tt (rw (a, b) at h)
    | inr b ↦ elim (Bool-cases (normalized value =s codes "drop-newest")) [
      | inl c ↦ without_key-HasText drop_newest key p tt (rw (a, b, c) at h)
      | inr c ↦ elim (Bool-cases (normalized value =s codes "dropnewest")) [
        | inl d ↦ without_key-HasText drop_newest key p tt (rw (a, b, c, d) at h)
        | inr d ↦ elim (Bool-cases (normalized value =s codes "coalesce")) [
          | inl e ↦ with_key-HasText key p (rw (a, b, c, d, e) at h)
          | inr e ↦ absurd (ground arith)
        ]
      ]
    ]
  ]
]

-- Whatever parameters a policy is read from, writing it and reading it again gives it back.
pub from_query_stable :
    (value : Str) (key : Option Str) (p : SlowConsumerPolicy)
    → from_query value key ≡ ok p
    → from_query (query_value p).0 (query_value p).1 ≡ ok p
from_query_stable value key p h = from_query-query_value p (from_query-HasText value key p h)
