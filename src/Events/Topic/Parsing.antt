-- ===== src/Events/Topic/Parsing.antt =====
-- Topics without wildcards are patterns that match themselves and nothing else.
use boardwalk.Common.{
  ℕ, ◌+◌, true, false, none, List, [], ◌∷◌, map, Str, codes, ◌=s◌, =s_iff, split, join, join-split,
  Avoids, All, ok, ◌≡◌, ◌≢◌, refl, sym, ◌∙◌, ap, ap₂, ◌↔◌, arith,
}
use boardwalk.Events.Crates.{Crates}
use boardwalk.Events.Topic.{
  literal, TopicPattern, split_once, braced, segment_of, segments_of, split_filter, parse,
  matches_at, matches_topic,
}

-- A part of a topic that a pattern reads literally.
pub record IsPlain (part : Str) : Type 0 where
  pub no_star : (part =s codes "*") ≡ false
  pub no_stars : (part =s codes "**") ≡ false
  pub no_braces : braced part ≡ none

split_once_of_Avoids : (c : ℕ) (s : Str) → Avoids c s → split_once c s ≡ none
unfolding split_once
split_once_of_Avoids c [] h = refl
split_once_of_Avoids c (d ∷ s) (ne, h) = ground (arith, split_once_of_Avoids c s h)

module _ (crates : Crates) where
  segment_of-IsPlain :
      (idx : ℕ) (part : Str) → IsPlain part → segment_of crates idx part ≡ ok (literal part)
  unfolding segment_of
  segment_of-IsPlain idx part h = rw (h.no_star, h.no_stars, h.no_braces)

  segments_of-IsPlain :
      (idx : ℕ) (parts : List Str)
      → All IsPlain parts
      → segments_of crates idx parts ≡ ok (map literal parts)
  unfolding segments_of
  segments_of-IsPlain idx [] h = refl
  segments_of-IsPlain idx (part ∷ parts) (p, h) =
      rw (segment_of-IsPlain idx part p, segments_of-IsPlain (idx + 1) parts h)

  matches_literals_sound :
      (ps qs : List Str) → matches_at crates (map literal ps) qs ≡ true → qs ≡ ps
  unfolding matches_at
  matches_literals_sound [] [] h = refl
  matches_literals_sound [] (q ∷ qs) h = cc
  matches_literals_sound (p ∷ ps) [] h = cc
  matches_literals_sound (p ∷ ps) (q ∷ qs) h =
      ap₂ ◌∷◌ ((=s_iff q p).0 (ground arith)) (matches_literals_sound ps qs (ground arith))

  matches_literals_complete : (ps : List Str) → matches_at crates (map literal ps) ps ≡ true
  unfolding matches_at
  matches_literals_complete [] = refl
  matches_literals_complete (p ∷ ps) = ground (arith, =s_iff p p, matches_literals_complete ps)

  parse_of_IsPlain :
      (t : Str)
      → t ≢ []
      → Avoids b'?' t
      → All IsPlain (split b'/' t)
      → parse crates t
        ≡ ok (record { segments = map literal (split b'/' t); filter = none; raw = t })
  unfolding parse split_filter
  parse_of_IsPlain [] ne a h = absurd (ne refl)
  parse_of_IsPlain (c ∷ t) ne a h = rw (
    split_once_of_Avoids b'?' (c ∷ t) a,
    split_filter,
    segments_of-IsPlain 0 (split b'/' (c ∷ t)) h,
  )

  -- A topic that is not empty, holds no `?`, and has no part that is `*`, `**` or in braces, parses
  -- as a pattern without a filter that matches exactly that topic.
  pub parse_plain :
      (t : Str)
      → t ≢ []
      → Avoids b'?' t
      → All IsPlain (split b'/' t)
      → (p : TopicPattern crates) × (parse crates t ≡ ok p)
        × (p.filter ≡ none)
        × ((u : Str) → (matches_topic crates p u ≡ true) ↔ (u ≡ t))
  unfolding matches_topic
  parse_plain t ne a h = (
    record { segments = map literal (split b'/' t); filter = none; raw = t },
    parse_of_IsPlain t ne a h,
    refl,
    (λ u. (
      (λ m.
          sym (join-split b'/' u)
          ∙ ap (join b'/') (matches_literals_sound (split b'/' t) (split b'/' u) m)
          ∙ join-split b'/' t),
      (λ e. rw e (matches_literals_complete (split b'/' t))),
    )),
  )
