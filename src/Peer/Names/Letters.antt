-- ===== src/Peer/Names/Letters.antt =====
-- peer.rs, `RouteName::new`: which names are route names.
use boardwalk.Common.{
  ℕ, zero, suc, ◌<◌, Bool, true, false, not, ◌&&◌, ◌||◌, ◌==◌, ==_iff, any, All, Any, [], ◌∷◌, Str,
  if◌then◌else◌, Result, ok, err, Bool-cases, inl, inr, ◌≡◌, ◌↔◌, ◌≢◌, refl, ◌∙◌, ap, arith, codes,
}
use boardwalk.Peer.Capabilities.{
  PeerModelError, empty_route_name, invalid_route_name, is_whitespace, trim, trim_start, trim_end,
}
use boardwalk.Peer.Names.{is_blank, is_route_name_char, all_chars, route_name}

-- The letters, the digits and the four signs of a route name, one by one.
abbrev pub letters : Str
letters = codes "ABCDEFGHIJKLMNOPQRSTUVWXYZabcdefghijklmnopqrstuvwxyz0123456789-._~"

abbrev pub IsLetter : ℕ → Type 0
IsLetter c = Any (λ a. c ≡ a) letters

-- A character that passes the test is listed.
is_listed : ℕ → Bool
is_listed c = not (is_route_name_char c) || any (λ a. c == a) letters

are_listed : ℕ → Bool
are_listed zero = true
are_listed (suc last) = are_listed last && is_listed last

both : (a b : Bool) → a && b ≡ true → (a ≡ true) × (b ≡ true)
both true b h = (refl, h)
both false b h = absurd (cc)

is_listed_under : (bound c : ℕ) → c < bound → are_listed bound ≡ true → is_listed c ≡ true
unfolding are_listed
is_listed_under zero c small h = elim small [ ]
is_listed_under (suc last) c small h =
    let parts = both (are_listed last) (is_listed last) h in
    elim (Bool-cases (c == last)) [
      | inl top ↦ ap is_listed ((==_iff c last).0 top) ∙ parts.1
      | inr lower ↦ is_listed_under last c (ground arith) parts.0
    ]

any-Any : (c : ℕ) (s : Str) → any (λ a. c == a) s ≡ true → Any (λ a. c ≡ a) s
any-Any c [] h = absurd (cc)
any-Any c (a ∷ s) h = elim (Bool-cases (c == a)) [
  | inl same ↦ inl ((==_iff c a).0 same)
  | inr other ↦ inr (any-Any c s (rw other at h))
]

-- Up to `~` each character that passes the test is listed.
listed : are_listed 127 ≡ true
unfolding are_listed is_listed is_route_name_char
listed = refl

is_ascii : (c : ℕ) → is_route_name_char c ≡ true → c < 127
unfolding is_route_name_char
is_ascii c h = ground arith

passed : (a b : Bool) → not a || b ≡ true → a ≡ true → b ≡ true
passed true b h e = h
passed false b h e = absurd (cc)

is_route_name_char-IsLetter : (c : ℕ) → is_route_name_char c ≡ true → IsLetter c
unfolding is_listed
is_route_name_char-IsLetter c h = any-Any c letters (
    passed (is_route_name_char c) (any (λ a. c == a) letters)
      (is_listed_under 127 c (is_ascii c h) listed) h)

listed_passes :
    (c : ℕ) (s : Str)
    → all_chars is_route_name_char s ≡ true
    → Any (λ a. c ≡ a) s
    → is_route_name_char c ≡ true
unfolding all_chars
listed_passes c [] h k = absurd k
listed_passes c (a ∷ s) h (inl same) =
    let first : is_route_name_char a ≡ true = ground arith in ap is_route_name_char same ∙ first
listed_passes c (a ∷ s) h (inr later) = listed_passes c s (ground arith) later

all_letters : all_chars is_route_name_char letters ≡ true
unfolding all_chars is_route_name_char
all_letters = refl

IsLetter-is_route_name_char : (c : ℕ) → IsLetter c → is_route_name_char c ≡ true
IsLetter-is_route_name_char c k = listed_passes c letters all_letters k

all_chars-All : (s : Str) → all_chars is_route_name_char s ≡ true → All IsLetter s
unfolding all_chars
all_chars-All [] h = tt
all_chars-All (c ∷ s) h =
    (is_route_name_char-IsLetter c (ground arith), all_chars-All s (ground arith))

All-all_chars : (s : Str) → All IsLetter s → all_chars is_route_name_char s ≡ true
unfolding all_chars
All-all_chars [] h = refl
All-all_chars (c ∷ s) (k, h) =
    let first = IsLetter-is_route_name_char c k in
    let others = All-all_chars s h in rw (first, others) refl

-- A character of a route name is no whitespace.
is_visible : (c : ℕ) → is_route_name_char c ≡ true → is_whitespace c ≡ false
unfolding is_route_name_char
is_visible c h = ground arith

trim_start_visible : (c : ℕ) (s : Str) → is_whitespace c ≡ false → trim_start (c ∷ s) ≡ c ∷ s
unfolding trim_start
trim_start_visible c s h = ap (λ b. if b then trim_start s else c ∷ s) h

trim_end_visible : (c : ℕ) (s : Str) → is_whitespace c ≡ false → trim_end (c ∷ s) ≡ c ∷ trim_end s
unfolding trim_end
trim_end_visible c s h = by_rest (trim_end s)
  where
    by_rest :
        (t : Str)
        → elim t as (λ x. Str) [ [] ↦ if is_whitespace c then [] else c ∷ [] | d ∷ u ↦ c ∷ d ∷ u ]
          ≡ c ∷ t
    by_rest [] = ap (λ b. if b then [] else c ∷ []) h
    by_rest (d ∷ u) = refl

not_blank : (c : ℕ) (s : Str) → is_whitespace c ≡ false → is_blank (c ∷ s) ≡ false
unfolding is_blank trim
not_blank c s h =
    ap (λ t. elim t as (λ x. Bool) [ [] ↦ true | d ∷ u ↦ false ])
      (ap trim_end (trim_start_visible c s h) ∙ trim_end_visible c s h)

checked_name : (blank safe : Bool) (name : Str) → Result PeerModelError Str
checked_name blank safe name =
    if blank then err empty_route_name else if safe then ok name else err (invalid_route_name name)

checked_unsafe : (blank : Bool) (name : Str) → checked_name blank false name ≢ ok name
unfolding checked_name
checked_unsafe true name e = ground arith
checked_unsafe false name e = ground arith

accepted :
    (name : Str)
    → (route_name name ≡ ok name) ↔ ((name ≢ []) × (all_chars is_route_name_char name ≡ true))
unfolding route_name checked_name is_blank trim trim_start trim_end all_chars
accepted [] = ((λ e. ground arith), (λ p. absurd (p.0 refl)))
accepted (c ∷ s) = elim (Bool-cases (all_chars is_route_name_char (c ∷ s))) [
  | inl safe ↦
      let visible = not_blank c s (is_visible c (ground arith)) in
      ((λ e. ((λ n. ground arith), safe)), (λ p. rw (visible, safe) refl))
  | inr unsafe ↦ (
    (λ e. absurd (checked_unsafe (is_blank (c ∷ s)) (c ∷ s) (rw unsafe at e))),
    (λ p. ground arith),
  )
]

-- A route name is accepted as it is exactly where it is not empty and each of its characters is one
-- of the ASCII letters and digits and of `-`, `.`, `_`, `~`, which are listed one by one.
pub route_name_iff : (name : Str) → (route_name name ≡ ok name) ↔ ((name ≢ []) × All IsLetter name)
route_name_iff name = (
  (λ e. (((accepted name).0 e).0, all_chars-All name ((accepted name).0 e).1)),
  (λ p. (accepted name).1 (p.0, All-all_chars name p.1)),
)
