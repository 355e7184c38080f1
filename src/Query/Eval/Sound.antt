-- ===== src/Query/Eval/Sound.antt =====
-- The evaluator of query/eval.rs decides what a predicate means.
use boardwalk.Common.{
  Bool, true, false, not, Option, none, some, List, [], ◌∷◌, Str, ◌≡◌, refl, sym, subst, inl, inr,
  ◌↔◌, ◌==◌, =s_iff, if◌then◌else◌, arith, Bool-cases, Option-cases, Reflects, Reflects-of_iff,
  Reflects-not, Reflects-map, Reflects-or, eq-of_some,
}
use boardwalk.Query.Numbers.{Numbers}
use boardwalk.Query.Json.{Json, Items, no_items, item, get, any_item}
use boardwalk.Query.Ast.{FieldPath, ComparisonOp, lt, le, gt, ge, Literal, Literals, nil, cons}
use boardwalk.Query.Glob.{glob_match, glob_match_iff}
use boardwalk.Query.Eval.{
  str_lt, lookup_loop, lookup, f64_is, json_eq, any_literal, is_null, order_f64, order_str,
  order_number, compare_order, compare_like, compare_in, eval_contains,
}
use boardwalk.Query.Meaning.{
  Resolves, here, below, Precedes, shorter, smaller, later, Equals, OrderedF64, OrderedStr, Ordered,
  IsLike, AnyEquals, IsIn, Holding, Holds,
}

module _ {N : Type 0} where
  lookup_loop_sound :
      (segs : List Str) (t v : Json N) → lookup_loop segs t ≡ some v → Resolves segs t v
  unfolding lookup_loop
  lookup_loop_sound [] t v h = subst (λ x. Resolves [] t x) (ground arith) here
  lookup_loop_sound (seg ∷ segs) (Json.obj m) v h = elim (Option-cases (get seg m)) [
    | inl miss ↦ absurd (ground arith)
    | inr (w, hit) ↦ below hit (lookup_loop_sound segs w v (ground arith))
  ]
  lookup_loop_sound (seg ∷ segs) t v h = cc

  lookup_loop_complete :
      {segs : List Str} {t v : Json N} → Resolves segs t v → lookup_loop segs t ≡ some v
  unfolding lookup_loop
  lookup_loop_complete here = refl
  lookup_loop_complete (below e r) = rw (e, lookup_loop) (lookup_loop_complete r)

  -- The lookup of a path finds exactly the value that the path resolves to.
  pub lookup_iff : (p : FieldPath) (t v : Json N) → (lookup p t ≡ some v) ↔ Resolves p.segments t v
  unfolding lookup
  lookup_iff p t v = (lookup_loop_sound p.segments t v, λ r. lookup_loop_complete r)

str_lt_sound : (s t : Str) → str_lt s t ≡ true → Precedes s t
unfolding str_lt
str_lt_sound [] [] h = cc
str_lt_sound [] (b ∷ t) h = shorter
str_lt_sound (a ∷ s) [] h = cc
str_lt_sound (a ∷ s) (b ∷ t) h = elim (Bool-cases (a == b)) [
  | inl e ↦ later (ground arith) (str_lt_sound s t (ground arith))
  | inr e ↦ smaller (ground arith)
]

str_lt_complete : {s t : Str} → Precedes s t → str_lt s t ≡ true
unfolding str_lt
str_lt_complete shorter = refl
str_lt_complete (smaller h) = ground arith
str_lt_complete (later e p) = ground (arith, str_lt_complete p)

str_lt-Reflects : (s t : Str) → Reflects (str_lt s t) (Precedes s t)
str_lt-Reflects s t = Reflects-of_iff _ (str_lt_sound s t, λ p. str_lt_complete p)

module _ (numbers : Numbers) where
  open numbers use {F64, f64_eq, f64_lt, f64_le, Number, as_f64}

  bool_eq-Reflects : (a b : Bool) → Reflects (if a then b else not b) (a ≡ b)
  bool_eq-Reflects true true = refl
  bool_eq-Reflects true false = λ e. cc
  bool_eq-Reflects false true = λ e. cc
  bool_eq-Reflects false false = refl

  f64_is-Reflects :
      (o : Option F64) (b : F64)
      → Reflects (f64_is numbers o b) ((l : F64) × (o ≡ some l) × (f64_eq l b ≡ true))
  unfolding f64_is
  f64_is-Reflects none b = λ (l, e, _). cc
  f64_is-Reflects (some a) b =
      Reflects-of_iff _
        (λ h. (a, refl, h), λ (l, e, h). subst (λ x. f64_eq x b ≡ true) (sym (eq-of_some e)) h)

  pub json_eq-Reflects :
      (v : Json Number) (c : Literal F64) → Reflects (json_eq numbers v c) (Equals numbers v c)
  unfolding json_eq
  json_eq-Reflects (Json.str a) (Literal.string b) = Reflects-of_iff _ (=s_iff a b)
  json_eq-Reflects (Json.num a) (Literal.number b) = f64_is-Reflects (as_f64 a) b
  json_eq-Reflects (Json.bool a) (Literal.bool b) = bool_eq-Reflects a b
  json_eq-Reflects Json.null Literal.null = tt
  json_eq-Reflects _ _ = λ h. h

  order_f64-Reflects :
      (op : ComparisonOp) (l r : F64)
      → Reflects (order_f64 numbers op l r) (OrderedF64 numbers op l r)
  unfolding order_f64
  order_f64-Reflects lt l r = Reflects-of_iff _ (λ h. h, λ h. h)
  order_f64-Reflects le l r = Reflects-of_iff _ (λ h. h, λ h. h)
  order_f64-Reflects gt l r = Reflects-of_iff _ (λ h. h, λ h. h)
  order_f64-Reflects ge l r = Reflects-of_iff _ (λ h. h, λ h. h)
  order_f64-Reflects _ l r = λ h. h

  order_str-Reflects :
      (op : ComparisonOp) (l r : Str)
      → Reflects (order_str numbers op l r) (OrderedStr numbers op l r)
  unfolding order_str
  order_str-Reflects lt l r = str_lt-Reflects l r
  order_str-Reflects le l r = Reflects-not (str_lt r l) _ (str_lt-Reflects r l)
  order_str-Reflects gt l r = str_lt-Reflects r l
  order_str-Reflects ge l r = Reflects-not (str_lt l r) _ (str_lt-Reflects l r)
  order_str-Reflects _ l r = λ h. h

  order_number-Reflects :
      (op : ComparisonOp) (o : Option F64) (r : F64)
      → Reflects
          (order_number numbers op o r)
          ((l : F64) × (o ≡ some l) × OrderedF64 numbers op l r)
  unfolding order_number
  order_number-Reflects op none r = λ (l, e, _). cc
  order_number-Reflects op (some a) r =
      Reflects-map (order_f64 numbers op a r) (λ h. (a, refl, h))
        (λ (l, e, h). subst (λ x. OrderedF64 numbers op x r) (sym (eq-of_some e)) h)
        (order_f64-Reflects op a r)

  any_literal-Reflects :
      (v : Json Number) (cs : Literals F64)
      → Reflects (any_literal numbers (json_eq numbers v) cs) (AnyEquals numbers v cs)
  any_literal-Reflects v nil = λ h. h
  any_literal-Reflects v (cons c cs) =
      Reflects-or (json_eq numbers v c) (any_literal numbers (json_eq numbers v) cs)
        (Equals numbers v c) (AnyEquals numbers v cs) (json_eq-Reflects v c)
        (any_literal-Reflects v cs)

  any_item-Reflects :
      (xs : Items Number) (c : Literal F64)
      → Reflects (any_item (λ i. json_eq numbers i c) xs) (Holding numbers xs c)
  any_item-Reflects no_items c = λ h. h
  any_item-Reflects (item x xs) c =
      Reflects-or (json_eq numbers x c) (any_item (λ i. json_eq numbers i c) xs)
        (Equals numbers x c) (Holding numbers xs c) (json_eq-Reflects x c) (any_item-Reflects xs c)

  pub compare_order-Reflects :
      (op : ComparisonOp) (v : Json Number) (rhs : Literal F64)
      → Reflects (compare_order numbers op (some v) rhs) (Ordered numbers op v rhs)
  unfolding compare_order
  compare_order-Reflects op (Json.num n) (Literal.number r) = order_number-Reflects op (as_f64 n) r
  compare_order-Reflects op (Json.str s) (Literal.string r) = order_str-Reflects op s r
  compare_order-Reflects op _ _ = λ h. h

  pub compare_like-Reflects :
      (v : Json Number) (rhs : Literal F64)
      → Reflects (compare_like numbers (some v) rhs) (IsLike numbers v rhs)
  unfolding compare_like
  compare_like-Reflects (Json.str s) (Literal.string pat) =
      Reflects-of_iff (glob_match pat s) (glob_match_iff pat s)
  compare_like-Reflects _ _ = λ h. h

  pub compare_in-Reflects :
      (v : Json Number) (rhs : Literal F64)
      → Reflects (compare_in numbers (some v) rhs) (IsIn numbers v rhs)
  unfolding compare_in
  compare_in-Reflects v (Literal.array items) = any_literal-Reflects v items
  compare_in-Reflects v _ = λ h. h

  pub contains-Reflects :
      (v : Json Number) (c : Literal F64)
      → Reflects (eval_contains numbers (some v) c) (Holds numbers v c)
  unfolding eval_contains
  contains-Reflects (Json.arr items) c = any_item-Reflects items c
  contains-Reflects _ c = λ h. h

  pub is_null-Reflects : (c : Literal F64) → Reflects (is_null numbers c) (c ≡ Literal.null)
  unfolding is_null
  is_null-Reflects Literal.null = refl
  is_null-Reflects _ = λ e. cc
