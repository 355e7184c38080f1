-- ===== src/Common/Text.antt =====
-- Text as a list of code points. The source's `String` and `&str` are compared, split and joined
-- here over `List ℕ`; a literal of the source is written `codes "…"`.
use Prim.Native.Nat.{ℕ, ◌+◌, ◌/◌, ◌%◌, ◌<◌}
use Prim.Native.Char.{code}
use Prim.Native.String.{String}
use mathlib.Core.Path.{◌≡◌, refl, ap, ap₂, ◌∙◌, sym}
use mathlib.Core.Logic.{◌↔◌, ◌≢◌, inl, inr}
use mathlib.Core.Bool.{Bool, true, false, ◌&&◌}
use mathlib.Core.List.{List, [], ◌∷◌, ◌++◌}
use native.Mathlib.Omega.{arith}
use boardwalk.Common.Tests.{Bool-cases, ==_iff, ltb, lt→ltb, ◌==◌, if◌then◌else◌}
use boardwalk.Common.Lists.{All}

abbrev pub Str : Type 0
Str = List ℕ

-- `String` has its own `[]` and `∷`.
abbrev pub codes : String → Str
codes String.[] = []
codes (String.◌∷◌ c s) = code c ∷ codes s

-- Equality of texts.
infix 50 ◌=s◌
unfoldable pub ◌=s◌ : Str → Str → Bool
[] =s [] = true
(a ∷ s) =s (b ∷ t) = (a == b) && s =s t
_ =s _ = false

pub eq-of_=s : (s t : Str) → (s =s t) ≡ true → s ≡ t
unfolding ◌=s◌
eq-of_=s [] [] h = refl
eq-of_=s (a ∷ s) (b ∷ t) h = ap₂ ◌∷◌ (ground arith) (eq-of_=s s t (ground arith))
eq-of_=s [] (b ∷ t) h = ground arith
eq-of_=s (a ∷ s) [] h = ground arith

pub =s_self : (s : Str) → (s =s s) ≡ true
unfolding ◌=s◌
=s_self [] = refl
=s_self (a ∷ s) = ground (arith, =s_self s)

pub =s_iff : (s t : Str) → ((s =s t) ≡ true) ↔ (s ≡ t)
=s_iff s t = (eq-of_=s s t, λ e. rw e (=s_self t))

-- `s.split(sep)` for a single character.
split_put : ℕ → List Str → List Str
split_put c [] = (c ∷ []) ∷ []
split_put c (p ∷ ps) = (c ∷ p) ∷ ps

unfoldable pub split : ℕ → Str → List Str
unfolding split_put
split sep [] = [] ∷ []
split sep (c ∷ s) = let rest = split sep s in if c == sep then [] ∷ rest else split_put c rest

-- `parts.join(sep)`.
unfoldable pub join : ℕ → List Str → Str
join sep [] = []
join sep (p ∷ []) = p
join sep (p ∷ q ∷ ps) = p ++ sep ∷ join sep (q ∷ ps)

-- No character of the text is the separator.
abbrev pub Avoids : ℕ → Str → Type 0
Avoids sep s = All (λ c. c ≢ sep) s

pub split_of_Avoids : (sep : ℕ) (s : Str) → Avoids sep s → split sep s ≡ s ∷ []
unfolding split
split_of_Avoids sep [] h = refl
split_of_Avoids sep (c ∷ s) (ne, h) = ground (arith, split_of_Avoids sep s h)

split-append : (sep : ℕ) (p s : Str) → Avoids sep p → split sep (p ++ sep ∷ s) ≡ p ∷ split sep s
unfolding split
split-append sep [] s h = ground arith
split-append sep (c ∷ p) s (ne, h) = ground (arith, split-append sep p s h)

-- Splitting what was joined gives the parts back, when no part holds the separator.
pub split-join :
    (sep : ℕ) (p : Str) (ps : List Str)
    → All (Avoids sep) (p ∷ ps)
    → split sep (join sep (p ∷ ps)) ≡ p ∷ ps
unfolding join
split-join sep p [] (h, _) = split_of_Avoids sep p h
split-join sep p (q ∷ ps) (h, k) =
    split-append sep p (join sep (q ∷ ps)) h ∙ ap (◌∷◌ p) (split-join sep q ps k)

-- The UTF-8 bytes of one character, and of a text.
utf8_char : ℕ → Str
utf8_char c =
    if ltb c 0x80
    then c ∷ []
    else if ltb c 0x800
    then (0xC0 + c / 64) ∷ (0x80 + c % 64) ∷ []
    else if ltb c 0x1_0000
    then (0xE0 + c / 4096) ∷ (0x80 + c / 64 % 64) ∷ (0x80 + c % 64) ∷ []
    else (0xF0 + c / 0x4_0000)
      ∷ (0x80 + c / 4096 % 64)
      ∷ (0x80 + c / 64 % 64)
      ∷ (0x80 + c % 64)
      ∷ []

unfoldable pub utf8 : Str → Str
unfolding utf8_char
utf8 [] = []
utf8 (c ∷ s) = utf8_char c ++ utf8 s

abbrev pub IsAscii : Str → Type 0
IsAscii s = All (λ c. c < 0x80) s

-- A text of ASCII characters is its own bytes.
pub utf8_of_IsAscii : (s : Str) → IsAscii s → utf8 s ≡ s
unfolding utf8
utf8_of_IsAscii [] h = refl
utf8_of_IsAscii (c ∷ s) (h, k) = rw (lt→ltb c 0x80 h) (ap (◌∷◌ c) (utf8_of_IsAscii s k))

split-nonempty : (sep : ℕ) (s : Str) → (p : Str) × (ps : List Str) × (split sep s ≡ p ∷ ps)
unfolding split
split-nonempty sep [] = ([], [], refl)
split-nonempty sep (c ∷ s) =
    let (p, ps, e) = split-nonempty sep s in
    elim (Bool-cases (c == sep)) [
      | inl same ↦ ([], split sep s, rw (same, split))
      | inr other ↦ (c ∷ p, ps, rw (other, split, e))
    ]

join-cons :
    (sep : ℕ) (p q : Str) (ps : List Str) → join sep (p ∷ q ∷ ps) ≡ p ++ (sep ∷ join sep (q ∷ ps))
unfolding join
join-cons sep p q ps = refl

join-put : (sep c : ℕ) (ps : List Str) → ps ≢ [] → join sep (split_put c ps) ≡ c ∷ join sep ps
unfolding join split_put
join-put sep c [] h = absurd (h refl)
join-put sep c (p ∷ []) h = refl
join-put sep c (p ∷ q ∷ ps) h = refl

-- Joining the parts of a split gives the text back.
pub join-split : (sep : ℕ) (s : Str) → join sep (split sep s) ≡ s
unfolding split join
join-split sep [] = refl
join-split sep (c ∷ s) =
    let (p, ps, e) = split-nonempty sep s in
    let ih = join-split sep s in
    elim (Bool-cases (c == sep)) [
      | inl same ↦
          rw (same, e, join-cons sep [] p ps, ← e, ih)
            (ap (λ x. x ∷ s) (sym ((==_iff c sep).0 same)))
      | inr other ↦ rw other (join-put sep c (split sep s) (λ n. cc) ∙ ap (◌∷◌ c) ih)
    ]

-- No part of a split holds the separator.
pub split-Avoids : (sep : ℕ) (s : Str) → All (Avoids sep) (split sep s)
unfolding split split_put
split-Avoids sep [] = (tt, tt)
split-Avoids sep (c ∷ s) = elim (Bool-cases (c == sep)) [
  | inl same ↦ rw same (tt, split-Avoids sep s)
  | inr other ↦
      let (p, ps, e) = split-nonempty sep s in
      let (h, k) = rw e at (split-Avoids sep s) in rw (other, e) ((ground arith, h), k)
]
