-- ===== src/Query/Eval/Projected.antt =====
-- `project` of query/eval.rs: a projection holds part of its target, and all that was asked for.
use boardwalk.Common.{some, List, [], ◌∷◌, Str, ◌≡◌, ◌≢◌, refl, subst, Option-cases, inl, inr, Any}
use boardwalk.Query.Json.{Json, Fields, no_fields}
use boardwalk.Query.Ast.{FieldPath, Projection, Query}
use boardwalk.Query.Eval.{lookup_loop, lookup, insert_path, project_loop, project_by, project}
use boardwalk.Query.Eval.Part.{
  IsPart, ArePart, IsPart-of_ArePart, none_ArePart, object_of_lookup, insert_path-ArePart, whole,
}
use boardwalk.Query.Eval.Paths.{lookup-insert_path_self, lookup-insert_path_keeps}

module _ {N : Type 0} where
  project_loop-ArePart :
      (out m : Fields N) (paths : List FieldPath)
      → ArePart out m
      → ArePart (project_loop (Json.obj m) out paths) m
  unfolding project_loop
  project_loop-ArePart out m [] h = h
  project_loop-ArePart out m (p ∷ paths) h = elim (Option-cases (lookup p (Json.obj m))) [
    | inl miss ↦ rw (miss, project_loop) (project_loop-ArePart out m paths h)
    | inr (v, hit) ↦
        rw (hit, project_loop)
          (project_loop-ArePart (insert_path out p.segments v) m paths
            (insert_path-ArePart out m p.segments v h (unfold lookup in hit)))
  ]

  project_loop_keeps :
      (out m : Fields N) (paths : List FieldPath) (p : List Str) (x : Json N)
      → ArePart out m
      → lookup_loop p (Json.obj m) ≡ some x
      → lookup_loop p (Json.obj out) ≡ some x
      → lookup_loop p (Json.obj (project_loop (Json.obj m) out paths)) ≡ some x
  unfolding project_loop
  project_loop_keeps out m [] p x h e f = f
  project_loop_keeps out m (q ∷ paths) p x h e f = elim (Option-cases (lookup q (Json.obj m))) [
    | inl miss ↦ rw (miss, project_loop) (project_loop_keeps out m paths p x h e f)
    | inr (v, hit) ↦
        let hit' : lookup_loop q.segments (Json.obj m) ≡ some v = unfold lookup in hit in
        rw (hit, project_loop)
          (project_loop_keeps (insert_path out q.segments v) m paths p x
            (insert_path-ArePart out m q.segments v h hit') e
            (lookup-insert_path_keeps out m p q.segments x v h e f hit'))
  ]

  lookup-project_loop :
      (out m : Fields N) (paths : List FieldPath) (seg : Str) (segs : List Str) (x : Json N)
      → ArePart out m
      → Any (λ q. q.segments ≡ seg ∷ segs) paths
      → lookup_loop (seg ∷ segs) (Json.obj m) ≡ some x
      → lookup_loop (seg ∷ segs) (Json.obj (project_loop (Json.obj m) out paths)) ≡ some x
  unfolding project_loop lookup
  lookup-project_loop out m [] seg segs x h found e = absurd found
  lookup-project_loop out m (q ∷ paths) seg segs x h (inl same) e =
      let hit : lookup q (Json.obj m) ≡ some x = rw same e in
      rw (hit, project_loop)
        (project_loop_keeps _ m paths (seg ∷ segs) x (insert_path-ArePart out m q.segments x h hit)
          e (rw same (lookup-insert_path_self out m seg segs x h e)))
  lookup-project_loop out m (q ∷ paths) seg segs x h (inr found) e =
      elim (Option-cases (lookup q (Json.obj m))) [
        | inl miss ↦ rw (miss, project_loop) (lookup-project_loop out m paths seg segs x h found e)
        | inr (v, hit) ↦
            rw (hit, project_loop)
              (lookup-project_loop (insert_path out q.segments v) m paths seg segs x
                (insert_path-ArePart out m q.segments v h hit) found e)
      ]

  -- A projection of an object is part of it: each field that it has, at any depth, stands in the
  -- object, with the same value or with an object of which it is a part.
  pub project-IsPart :
      {F : Type 0} (q : Query F) (m : Fields N) → IsPart (project q (Json.obj m)) (Json.obj m)
  unfolding project project_by
  project-IsPart q m = by_projection q.projection
    where
      by_projection : (r : Projection) → IsPart (project_by r (Json.obj m)) (Json.obj m)
      by_projection Projection.all = whole refl
      by_projection (Projection.fields paths) =
          IsPart-of_ArePart _ m (project_loop-ArePart no_fields m paths (none_ArePart m))

  -- Each path that a projection lists, if it has a segment and resolves in the target, resolves in
  -- the projection to the same value, whatever other paths are listed and in whatever order.
  pub lookup-project :
      {F : Type 0} (q : Query F) (paths : List FieldPath) (p : FieldPath) (t x : Json N)
      → q.projection ≡ Projection.fields paths
      → p.segments ≢ []
      → Any (λ r. r.segments ≡ p.segments) paths
      → lookup p t ≡ some x
      → lookup p (project q t) ≡ some x
  unfolding project project_by lookup
  lookup-project q paths p t x is_fields nonempty listed e =
      rw is_fields (by_segments p.segments nonempty listed e)
    where
      by_segments :
          (segs : List Str)
          → segs ≢ []
          → Any (λ r. r.segments ≡ segs) paths
          → lookup_loop segs t ≡ some x
          → lookup_loop segs (project_by (Projection.fields paths) t) ≡ some x
      by_segments [] ne _ _ = absurd (ne refl)
      by_segments (seg ∷ segs) _ found h =
          let (m, isobj) = object_of_lookup seg segs t x h in
          rw isobj (
            lookup-project_loop no_fields m paths seg segs x (none_ArePart m) found
              (subst (λ z. lookup_loop (seg ∷ segs) z ≡ some x) isobj h))
