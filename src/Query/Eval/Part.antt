-- ===== src/Query/Eval/Part.antt =====
-- Parts of JSON values, and `insert_path` of query/eval.rs on parts of an object.
use boardwalk.Common.{
  some, List, [], ◌∷◌, Str, ◌=s◌, =s_iff, ◌≡◌, refl, sym, ◌∙◌, ap, subst, arith, Bool-cases,
  Option-cases, inl, inr, eq-of_some,
}
use boardwalk.Query.Json.{Json, Fields, no_fields, get, insert}
use boardwalk.Query.Json.Laws.{get-insert}
use boardwalk.Query.Eval.{lookup_loop, update_object, insert_path}

module _ {N : Type 0} where
  -- One value is part of another: the same, or an object whose fields are parts of its fields.
  pub data IsPart : Json N → Json N → Type 0 where
    whole : {v w : Json N} → v ≡ w → IsPart v w
    some_of :
        {out m : Fields N}
        → ((k : Str) (v : Json N) → get k out ≡ some v → (w : Json N) × (get k m ≡ some w))
        → ((k : Str) (v w : Json N) → get k out ≡ some v → get k m ≡ some w → IsPart v w)
        → IsPart (Json.obj out) (Json.obj m)

  abbrev pub ArePart : Fields N → Fields N → Type 0
  ArePart out m =
      (k : Str) (v : Json N) → get k out ≡ some v → (w : Json N) × (get k m ≡ some w) × IsPart v w

  pub IsPart-of_ArePart : (out m : Fields N) → ArePart out m → IsPart (Json.obj out) (Json.obj m)
  IsPart-of_ArePart out m h =
      some_of (λ k v e. let (w, f, _) = h k v e in (w, f))
        (λ k v w e g. let (x, f, p) = h k v e in subst (λ y. IsPart v y) (eq-of_some (sym f ∙ g)) p)

  pub ArePart-self : (m : Fields N) → ArePart m m
  ArePart-self m k v e = (v, e, whole refl)

  pub none_ArePart : (m : Fields N) → ArePart no_fields m
  unfolding get
  none_ArePart m k v e = cc

  pub insert-ArePart :
      (out m : Fields N) (k : Str) (v w : Json N)
      → ArePart out m
      → get k m ≡ some w
      → IsPart v w
      → ArePart (insert k v out) m
  insert-ArePart out m k v w h e p j x f = elim (Bool-cases (k =s j)) [
    | inl same ↦
        let here : some v ≡ some x = sym (rw same at (get-insert j k v out)) ∙ f in
        (
          w,
          subst (λ i. get i m ≡ some w) ((=s_iff k j).0 same) e,
          subst (λ y. IsPart y w) (eq-of_some here) p,
        )
    | inr other ↦ h j x (sym (rw other at (get-insert j k v out)) ∙ f)
  ]

  -- An object's field, taken along a path that goes through it.
  pub step_lookup :
      (seg : Str) (segs : List Str) (m : Fields N) (v : Json N)
      → lookup_loop (seg ∷ segs) (Json.obj m) ≡ some v
      → (w : Json N) × (get seg m ≡ some w) × (lookup_loop segs w ≡ some v)
  unfolding lookup_loop
  step_lookup seg segs m v h = elim (Option-cases (get seg m)) [
    | inl miss ↦ absurd (ground arith)
    | inr (w, hit) ↦ (w, hit, ground arith)
  ]

  pub lookup_through :
      (seg : Str) (segs : List Str) (m : Fields N) (w v : Json N)
      → get seg m ≡ some w
      → lookup_loop segs w ≡ some v
      → lookup_loop (seg ∷ segs) (Json.obj m) ≡ some v
  unfolding lookup_loop
  lookup_through seg segs m w v e h = rw (e, lookup_loop) h

  pub lookup_nil : (w v : Json N) → lookup_loop [] w ≡ some v → w ≡ v
  unfolding lookup_loop
  lookup_nil w v h = eq-of_some h

  pub object_of_lookup :
      (seg : Str) (segs : List Str) (t v : Json N)
      → lookup_loop (seg ∷ segs) t ≡ some v
      → (m : Fields N) × (t ≡ Json.obj m)
  unfolding lookup_loop
  object_of_lookup seg segs (Json.obj m) v h = (m, refl)
  object_of_lookup seg segs t v h = cc

  -- A part of an object that is itself an object has parts for fields.
  pub ArePart-of_IsPart :
      {x y : Json N} (out m : Fields N)
      → IsPart x y
      → x ≡ Json.obj out
      → y ≡ Json.obj m
      → ArePart out m
  ArePart-of_IsPart out m (whole e) f g =
      let same : out ≡ m = cc in subst (λ o. ArePart o m) (sym same) (ArePart-self m)
  ArePart-of_IsPart out m (some_of {out = o} {m = n} found part) f g =
      let so : o ≡ out = cc in
      let sn : n ≡ m = cc in
      λ k v e.
        let e' : get k o ≡ some v = rw so e in
        let (w, hit) = found k v e' in (w, rw (← sn) hit, part k v w e' hit)

  pub IsPart-update_object :
      (f : Fields N → Fields N) (old : Json N) (m : Fields N)
      → IsPart old (Json.obj m)
      → ((o : Fields N) → ArePart o m → ArePart (f o) m)
      → IsPart (update_object f old) (Json.obj m)
  unfolding update_object
  IsPart-update_object f (Json.obj o) m p h =
      IsPart-of_ArePart (f o) m (h o (ArePart-of_IsPart o m p refl refl))
  IsPart-update_object f old m p h = p

  pub insert_path-ArePart :
      (out m : Fields N) (segs : List Str) (v : Json N)
      → ArePart out m
      → lookup_loop segs (Json.obj m) ≡ some v
      → ArePart (insert_path out segs v) m
  unfolding insert_path
  insert_path-ArePart out m [] v h e = h
  insert_path-ArePart out m (seg ∷ []) v h e =
      let (w, hit, f) = step_lookup seg [] m v e in
      insert-ArePart out m seg v w h hit (whole (sym (lookup_nil w v f)))
  insert_path-ArePart out m (seg ∷ next ∷ segs) v h e =
      let (w, hit, f) = step_lookup seg (next ∷ segs) m v e in
      let (m', isobj) = object_of_lookup next segs w v f in
      let hit' : get seg m ≡ some (Json.obj m') = hit ∙ ap some isobj in
      let f' = subst (λ x. lookup_loop (next ∷ segs) x ≡ some v) isobj f in
      elim (Option-cases (get seg out)) [
        | inl miss ↦
            rw (miss, insert_path)
              (insert-ArePart out m seg _ (Json.obj m') h hit' (
                IsPart-of_ArePart _ m'
                  (insert_path-ArePart no_fields m' (next ∷ segs) v (none_ArePart m') f')))
        | inr (old, there) ↦
            let (w'', g, p) = h seg old there in
            rw (there, insert_path)
              (insert-ArePart out m seg _ (Json.obj m') h hit' (
                IsPart-update_object _ old m'
                  (subst (λ x. IsPart old x) (eq-of_some (sym g ∙ hit')) p)
                  (λ o k. insert_path-ArePart o m' (next ∷ segs) v k f')))
      ]
