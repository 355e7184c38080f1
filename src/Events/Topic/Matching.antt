-- ===== src/Events/Topic/Matching.antt =====
-- What a topic pattern matches, stated as a relation.
use boardwalk.Common.{
  Bool, true, List, [], ◌∷◌, Str, =s_iff, ◌≡◌, refl, ◌↔◌, arith, Bool-cases, inl, inr,
}
use boardwalk.Events.Crates.{Crates}
use boardwalk.Events.Topic.{
  Segment, literal, single_wild, multi_wild, regex, try_consume, matches_at,
}

module _ (crates : Crates) where
  open crates use {Regex, is_match}

  -- A literal stands for itself, `*` for one part, a regular expression for a part that it
  -- matches, and `**` for one part or more.
  pub data Matches : List (Segment Regex) → List Str → Type 0 where
    done : Matches [] []
    any_part :
        {part : Str} {pat : List (Segment Regex)} {parts : List Str}
        → Matches pat parts
        → Matches (single_wild ∷ pat) (part ∷ parts)
    same_part :
        {s part : Str} {pat : List (Segment Regex)} {parts : List Str}
        → part ≡ s
        → Matches pat parts
        → Matches (literal s ∷ pat) (part ∷ parts)
    regex_part :
        {re : Regex} {part : Str} {pat : List (Segment Regex)} {parts : List Str}
        → is_match re part ≡ true
        → Matches pat parts
        → Matches (regex re ∷ pat) (part ∷ parts)
    last_part :
        {part : Str} {pat : List (Segment Regex)} {parts : List Str}
        → Matches pat parts
        → Matches (multi_wild ∷ pat) (part ∷ parts)
    more_parts :
        {part : Str} {pat : List (Segment Regex)} {parts : List Str}
        → Matches (multi_wild ∷ pat) parts
        → Matches (multi_wild ∷ pat) (part ∷ parts)

  try_consume_sound :
      (f : List Str → Bool) (pat : List (Segment Regex))
      → ((parts : List Str) → f parts ≡ true → Matches pat parts)
      → (parts : List Str) → try_consume f parts ≡ true
      → Matches (multi_wild ∷ pat) parts
  unfolding try_consume
  try_consume_sound f pat h [] e = cc
  try_consume_sound f pat h (part ∷ parts) e = elim (Bool-cases (f parts)) [
    | inl hit ↦ last_part (h parts hit)
    | inr miss ↦ more_parts (try_consume_sound f pat h parts (ground arith))
  ]

  trailing_sound : (part : Str) (parts : List Str) → Matches (multi_wild ∷ []) (part ∷ parts)
  trailing_sound part [] = last_part done
  trailing_sound part (next ∷ parts) = more_parts (trailing_sound next parts)

  matches_at_sound :
      (pat : List (Segment Regex)) (parts : List Str)
      → matches_at crates pat parts ≡ true
      → Matches pat parts
  unfolding matches_at
  matches_at_sound [] [] e = done
  matches_at_sound [] (part ∷ parts) e = cc
  matches_at_sound (multi_wild ∷ []) [] e = cc
  matches_at_sound (multi_wild ∷ []) (part ∷ parts) e = trailing_sound part parts
  matches_at_sound (multi_wild ∷ next ∷ pat) parts e =
      try_consume_sound (matches_at crates (next ∷ pat)) (next ∷ pat)
        (λ ps h. matches_at_sound (next ∷ pat) ps h) parts e
  matches_at_sound (single_wild ∷ pat) [] e = cc
  matches_at_sound (single_wild ∷ pat) (part ∷ parts) e = any_part (matches_at_sound pat parts e)
  matches_at_sound (literal s ∷ pat) [] e = cc
  matches_at_sound (literal s ∷ pat) (part ∷ parts) e =
      same_part ((=s_iff part s).0 (ground arith)) (matches_at_sound pat parts (ground arith))
  matches_at_sound (regex re ∷ pat) [] e = cc
  matches_at_sound (regex re ∷ pat) (part ∷ parts) e =
      regex_part (ground arith) (matches_at_sound pat parts (ground arith))

  matches_at_complete :
      {pat : List (Segment Regex)} {parts : List Str}
      → Matches pat parts
      → matches_at crates pat parts ≡ true
  unfolding matches_at
  matches_at_complete done = refl
  matches_at_complete (any_part m) = matches_at_complete m
  matches_at_complete (same_part {s} {part} e m) =
      ground (arith, =s_iff part s, matches_at_complete m)
  matches_at_complete (regex_part e m) = ground (arith, matches_at_complete m)
  matches_at_complete (last_part {pat = []} m) = refl
  matches_at_complete (last_part {pat = next ∷ pat} m) = ground (arith, matches_at_complete m)
  matches_at_complete (more_parts {pat = []} m) = refl
  matches_at_complete (more_parts {pat = next ∷ pat} m) = ground (arith, matches_at_complete m)

  -- A list of segments matches the parts of a topic exactly when the relation says so.
  pub matches_at_iff :
      (pat : List (Segment Regex)) (parts : List Str)
      → (matches_at crates pat parts ≡ true) ↔ Matches pat parts
  matches_at_iff pat parts = (matches_at_sound pat parts, λ m. matches_at_complete m)
