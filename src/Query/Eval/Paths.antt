-- ===== src/Query/Eval/Paths.antt =====
-- What a path finds after `insert_path` of query/eval.rs wrote the same or another path.
use boardwalk.Common.{
  false, some, List, [], ◌∷◌, Str, ◌=s◌, =s_iff, ◌≡◌, refl, sym, ◌∙◌, ap, subst, Bool-cases,
  Option-cases, inl, inr, eq-of_some,
}
use boardwalk.Query.Json.{Json, Fields, no_fields, get, insert}
use boardwalk.Query.Json.Laws.{get-insert, get-insert_self, insert_same}
use boardwalk.Query.Eval.{lookup_loop, update_object, insert_path}
use boardwalk.Query.Eval.Part.{
  IsPart, ArePart, ArePart-self, none_ArePart, step_lookup, lookup_through, lookup_nil,
  object_of_lookup, ArePart-of_IsPart, whole, some_of,
}

module _ {N : Type 0} where
  pub lookup_here : (v : Json N) → lookup_loop [] v ≡ some v
  unfolding lookup_loop
  lookup_here v = refl

  pub object_part :
      {x y : Json N} (m : Fields N)
      → IsPart x y
      → y ≡ Json.obj m
      → (o : Fields N) × (x ≡ Json.obj o) × ArePart o m
  object_part m (whole e) g = (m, e ∙ g, ArePart-self m)
  object_part m (some_of {out = o} found part) g =
      (o, refl, ArePart-of_IsPart o m (some_of found part) refl g)

  -- Writing at a path the value that is there changes nothing.
  pub insert_path_same :
      (m : Fields N) (segs : List Str) (v : Json N)
      → lookup_loop segs (Json.obj m) ≡ some v
      → insert_path m segs v ≡ m
  unfolding insert_path update_object
  insert_path_same m [] v e = refl
  insert_path_same m (seg ∷ []) v e =
      let (w, hit, f) = step_lookup seg [] m v e in
      insert_same seg v m (hit ∙ ap some (lookup_nil w v f))
  insert_path_same m (seg ∷ next ∷ segs) v e =
      let (w, hit, f) = step_lookup seg (next ∷ segs) m v e in
      let (m', isobj) = object_of_lookup next segs w v f in
      let hit' : get seg m ≡ some (Json.obj m') = hit ∙ ap some isobj in
      let f' = subst (λ x. lookup_loop (next ∷ segs) x ≡ some v) isobj f in
      rw (hit', insert_path)
        (rw (insert_path_same m' (next ∷ segs) v f') (insert_same seg (Json.obj m') m hit'))

  -- What is at a path under a field that is written.
  pub lookup-insert_self :
      (seg : Str) (segs : List Str) (x v : Json N) (out : Fields N)
      → lookup_loop segs x ≡ some v
      → lookup_loop (seg ∷ segs) (Json.obj (insert seg x out)) ≡ some v
  lookup-insert_self seg segs x v out h =
      lookup_through seg segs (insert seg x out) x v (get-insert_self seg x out) h

  pub lookup-insert_path_self :
      (out m : Fields N) (seg : Str) (segs : List Str) (v : Json N)
      → ArePart out m
      → lookup_loop (seg ∷ segs) (Json.obj m) ≡ some v
      → lookup_loop (seg ∷ segs) (Json.obj (insert_path out (seg ∷ segs) v)) ≡ some v
  unfolding insert_path update_object
  lookup-insert_path_self out m seg [] v h e = lookup-insert_self seg [] v v out (lookup_here v)
  lookup-insert_path_self out m seg (next ∷ segs) v h e =
      let (w, hit, f) = step_lookup seg (next ∷ segs) m v e in
      let (m', isobj) = object_of_lookup next segs w v f in
      let hit' : get seg m ≡ some (Json.obj m') = hit ∙ ap some isobj in
      let f' = subst (λ x. lookup_loop (next ∷ segs) x ≡ some v) isobj f in
      elim (Option-cases (get seg out)) [
        | inl miss ↦
            rw (miss, insert_path)
              (lookup-insert_self seg (next ∷ segs) _ v out
                (lookup-insert_path_self no_fields m' next segs v (none_ArePart m') f'))
        | inr (old, there) ↦
            let (w'', g, p) = h seg old there in
            let (o, isold, k) =
              object_part m' (subst (λ x. IsPart old x) (eq-of_some (sym g ∙ hit')) p) refl in
            rw (there ∙ ap some isold, insert_path)
              (lookup-insert_self seg (next ∷ segs) _ v out
                (lookup-insert_path_self o m' next segs v k f'))
      ]

  pub lookup-insert_ne :
      (a k : Str) (segs : List Str) (v x : Json N) (out : Fields N)
      → (k =s a) ≡ false
      → lookup_loop (a ∷ segs) (Json.obj out) ≡ some x
      → lookup_loop (a ∷ segs) (Json.obj (insert k v out)) ≡ some x
  lookup-insert_ne a k segs v x out ne h =
      let (w, hit, f) = step_lookup a segs out x h in
      lookup_through a segs (insert k v out) w x (get-insert a k v out ∙ rw ne hit) f

  -- Writing one path of the target keeps what another path of it holds.
  pub lookup-insert_path_keeps :
      (out m : Fields N) (p q : List Str) (x y : Json N)
      → ArePart out m
      → lookup_loop p (Json.obj m) ≡ some x
      → lookup_loop p (Json.obj out) ≡ some x
      → lookup_loop q (Json.obj m) ≡ some y
      → lookup_loop p (Json.obj (insert_path out q y)) ≡ some x
  unfolding insert_path update_object
  lookup-insert_path_keeps out m [] q x y h e f g =
      let same : out ≡ m =
        (let j : Json.obj out ≡ Json.obj m = lookup_nil _ x f ∙ sym (lookup_nil _ x e) in cc) in
      rw (same, insert_path_same m q y g) e
  lookup-insert_path_keeps out m (a ∷ p) [] x y h e f g = f
  lookup-insert_path_keeps out m (a ∷ p) (b ∷ []) x y h e f g = elim (Bool-cases (b =s a)) [
    | inl same ↦
        let (w, hit, k) = step_lookup a p m x e in
        let (w', hit', k') = step_lookup b [] m y g in
        let ba = (=s_iff b a).0 same in
        let wy : w ≡ y =
          eq-of_some (sym hit ∙ subst (λ s. get s m ≡ some w') ba hit') ∙ lookup_nil w' y k' in
        lookup_through a p (insert b y out) y x (get-insert a b y out ∙ rw same)
          (subst (λ z. lookup_loop p z ≡ some x) wy k)
    | inr other ↦ lookup-insert_ne a b p y x out other f
  ]
  lookup-insert_path_keeps out m (a ∷ p) (b ∷ c ∷ q) x y h e f g =
      let (w, hit, k) = step_lookup a p m x e in
      let (old, there, l) = step_lookup a p out x f in
      let (w', hit', k') = step_lookup b (c ∷ q) m y g in
      let (m', isobj) = object_of_lookup c q w' y k' in
      elim (Bool-cases (b =s a)) [
        | inl same ↦
            let ba = (=s_iff b a).0 same in
            let mb : get b m ≡ some (Json.obj m') = hit' ∙ ap some isobj in
            let ma : get a m ≡ some (Json.obj m') =
              subst (λ s. get s m ≡ some (Json.obj m')) ba mb in
            let (w'', g'', part) = h a old there in
            let (o, isold, parts) = object_part m' part (eq-of_some (sym g'' ∙ ma)) in
            let thereb : get b out ≡ some (Json.obj o) =
              subst (λ s. get s out ≡ some (Json.obj o)) (sym ba) (there ∙ ap some isold) in
            rw (thereb, insert_path)
              (lookup_through a p _ _ x (get-insert a b _ out ∙ rw same) (
                lookup-insert_path_keeps o m' p (c ∷ q) x y parts
                  (subst (λ z. lookup_loop p z ≡ some x) (eq-of_some (sym hit ∙ ma)) k)
                  (subst (λ z. lookup_loop p z ≡ some x) isold l)
                  (subst (λ z. lookup_loop (c ∷ q) z ≡ some y) isobj k')))
        | inr other ↦ elim (Option-cases (get b out)) [
          | inl miss ↦ rw (miss, insert_path) (lookup-insert_ne a b p _ x out other f)
          | inr (v, found) ↦ rw (found, insert_path) (lookup-insert_ne a b p _ x out other f)
        ]
      ]
