-- ===== src/Query/Glob.antt =====
-- The `like` operator of query/eval.rs: globs with `*` and `?`, over characters.
use boardwalk.Common.{
  ℕ, Bool, true, false, [], ◌∷◌, Str, ◌==◌, if◌then◌else◌, ◌≡◌, ◌≢◌, refl, ◌↔◌, arith, Bool-cases,
  inl, inr,
}

-- `helper`: a pattern and a text. The two calls of the `*` branch are made in turn.
unfoldable pub glob_helper : Str → Str → Bool
glob_helper [] [] = true
glob_helper [] (sc ∷ s) = false
glob_helper (pc ∷ p) [] = if pc == b'*' then glob_helper p [] else false
glob_helper (pc ∷ p) (sc ∷ s) = elim (pc == b'*') [
  | true ↦ elim (glob_helper p (sc ∷ s)) [ true ↦ true | false ↦ glob_helper (pc ∷ p) s ]
  | false ↦ elim (pc == b'?') [
    | true ↦ glob_helper p s
    | false ↦ elim (pc == sc) [ true ↦ glob_helper p s | false ↦ false ]
  ]
]

unfoldable pub glob_match : Str → Str → Bool
unfolding glob_helper
glob_match pat s = glob_helper pat s

-- What a glob means: `*` stands for any run of characters, `?` for one, any other for itself.
pub data Globs : Str → Str → Type 0 where
  done : Globs [] []
  star_none : {c : ℕ} {p s : Str} → c ≡ b'*' → Globs p s → Globs (c ∷ p) s
  star_more :
      {c : ℕ} {p : Str} (x : ℕ) {s : Str} → c ≡ b'*' → Globs (c ∷ p) s → Globs (c ∷ p) (x ∷ s)
  one : {c : ℕ} {p : Str} (x : ℕ) {s : Str} → c ≡ b'?' → Globs p s → Globs (c ∷ p) (x ∷ s)
  same :
      {c : ℕ} {p : Str} (x : ℕ) {s : Str}
      → c ≢ b'*'
      → c ≢ b'?'
      → c ≡ x
      → Globs p s
      → Globs (c ∷ p) (x ∷ s)

glob_helper_sound : (p s : Str) → glob_helper p s ≡ true → Globs p s
unfolding glob_helper
glob_helper_sound [] [] h = done
glob_helper_sound [] (sc ∷ s) h = cc
glob_helper_sound (pc ∷ p) [] h = star_none (ground arith) (glob_helper_sound p [] (ground arith))
glob_helper_sound (pc ∷ p) (sc ∷ s) h = elim (Bool-cases (pc == b'*')) [
  | inl star ↦ elim (Bool-cases (glob_helper p (sc ∷ s))) [
    | inl e ↦ star_none (ground arith) (glob_helper_sound p (sc ∷ s) e)
    | inr e ↦ star_more sc (ground arith) (glob_helper_sound (pc ∷ p) s (ground arith))
  ]
  | inr lit ↦ elim (Bool-cases (pc == b'?')) [
    | inl q ↦ one sc (ground arith) (glob_helper_sound p s (ground arith))
    | inr n ↦
        same sc (ground arith) (ground arith) (ground arith) (glob_helper_sound p s (ground arith))
  ]
]

glob_helper_complete : {p s : Str} → Globs p s → glob_helper p s ≡ true
unfolding glob_helper
glob_helper_complete done = refl
glob_helper_complete (star_none {p} {s = []} e g) = ground (arith, glob_helper_complete g)
glob_helper_complete (star_none {p} {s = x ∷ s} e g) = ground (arith, glob_helper_complete g)
glob_helper_complete (star_more x e g) = ground (arith, glob_helper_complete g)
glob_helper_complete (one x e g) = ground (arith, glob_helper_complete g)
glob_helper_complete (same x a b e g) = ground (arith, glob_helper_complete g)

-- The matcher answers true exactly when the text is one that the glob describes.
pub glob_match_iff : (pat s : Str) → (glob_match pat s ≡ true) ↔ Globs pat s
unfolding glob_match
glob_match_iff pat s = (glob_helper_sound pat s, λ g. glob_helper_complete g)
