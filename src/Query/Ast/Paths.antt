-- ===== src/Query/Ast/Paths.antt =====
-- Field paths and their text.
use boardwalk.Common.{
  false, List, [], ◌∷◌, Str, All, Avoids, split, join, split-join, join-split, split-Avoids, any,
  ok, ◌≡◌, ◌≢◌, refl, sym, ◌∙◌, ap, arith, Bool-cases, inl, inr, subst,
}
use boardwalk.Query.Ast.{FieldPath, is_empty, try_parse}

-- A path that a text can stand for: it has a segment, and no segment is empty or holds a dot.
pub record IsWritten (p : FieldPath) : Type 0 where
  pub has_segment : p.segments ≢ []
  pub nonempty : All (λ s. s ≢ []) p.segments
  pub dotless : All (Avoids b'.') p.segments

any_empty_sound : (ss : List Str) → any is_empty ss ≡ false → All (λ s. s ≢ []) ss
unfolding is_empty
any_empty_sound [] h = tt
any_empty_sound ([] ∷ ss) h = cc
any_empty_sound ((c ∷ s) ∷ ss) h = ((λ e. cc), any_empty_sound ss h)

any_empty_complete : (ss : List Str) → All (λ s. s ≢ []) ss → any is_empty ss ≡ false
unfolding is_empty
any_empty_complete [] h = refl
any_empty_complete ([] ∷ ss) (h, k) = absurd (h refl)
any_empty_complete ((c ∷ s) ∷ ss) (h, k) = any_empty_complete ss k

join-nonempty : (p : Str) (ps : List Str) → p ≢ [] → is_empty (join b'.' (p ∷ ps)) ≡ false
unfolding join is_empty
join-nonempty [] ps h = absurd (h refl)
join-nonempty (c ∷ p) [] h = refl
join-nonempty (c ∷ p) (q ∷ ps) h = refl

-- The text of a path parses to the path.
pub try_parse-join : (p : FieldPath) → IsWritten p → try_parse (join b'.' p.segments) ≡ ok p
try_parse-join p w = go p.segments w.has_segment w.nonempty w.dotless
  where
    go :
        (ss : List Str)
        → ss ≢ []
        → All (λ s. s ≢ []) ss
        → All (Avoids b'.') ss
        → try_parse (join b'.' ss) ≡ ok (record { segments = ss })
    go [] h _ _ = absurd (h refl)
    go (s ∷ ss) _ (ne, k) d =
        unfold try_parse in
        (rw (join-nonempty s ss ne, split-join b'.' s ss d, any_empty_complete (s ∷ ss) (ne, k))
          refl)

nonempty_text : (t : Str) → is_empty t ≡ false → t ≢ join b'.' []
unfolding is_empty join
nonempty_text [] h e = cc
nonempty_text (c ∷ t) h e = cc

-- What a text parses to is a written path, whose text it is; no other text parses.
pub try_parse-IsWritten :
    (s : Str) (p : FieldPath) → try_parse s ≡ ok p → IsWritten p × (join b'.' p.segments ≡ s)
unfolding try_parse
try_parse-IsWritten s p h = elim (Bool-cases (is_empty s)) [
  | inl e ↦ absurd (ground arith)
  | inr e ↦ elim (Bool-cases (any is_empty (split b'.' s))) [
    | inl f ↦ absurd (ground arith)
    | inr f ↦
        let same : split b'.' s ≡ p.segments = ground arith in
        (
          record {
            has_segment = λ n.
                (let j : join b'.' (split b'.' s) ≡ s = join-split b'.' s in
                  absurd (nonempty_text s e (sym j ∙ ap (join b'.') (same ∙ n))));
            nonempty = subst (All (λ x. x ≢ [])) same (any_empty_sound (split b'.' s) f);
            dotless = subst (All (Avoids b'.')) same (split-Avoids b'.' s);
          },
          ap (join b'.') (sym same) ∙ join-split b'.' s,
        )
  ]
]
