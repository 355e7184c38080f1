-- ===== src/Query/Eval/Decides.antt =====
-- `eval_pred` of query/eval.rs decides what a predicate means, and never fails.
use boardwalk.Common.{
  Bool, true, false, not, Option, none, some, ◌≡◌, refl, sym, subst, ◌∙◌, ◌⊎◌, inl, inr,
  if◌then◌else◌, Reflects, Reflects-not, Reflects-map, eq-of_some, Result, ok, err, ◌>>=◌,
}
use boardwalk.Query.Numbers.{Numbers}
use boardwalk.Query.Json.{Json}
use boardwalk.Query.Ast.{
  QueryError, FieldPath, ComparisonOp, eq, ne, like, in_set, Literal, Predicate, Predicates,
  none_left, also, Query,
}
use boardwalk.Query.Eval.{
  lookup, json_eq, compare_order, compare_like, compare_in, compare_eq, compare_ne, compare,
  eval_contains, is_some, is_null, eval_pred, eval_and, eval_or, matches,
}
use boardwalk.Query.Eval.Sound.{
  lookup_iff, json_eq-Reflects, compare_order-Reflects, compare_like-Reflects, compare_in-Reflects,
  contains-Reflects, is_null-Reflects,
}
use boardwalk.Query.Meaning.{Equals, Holds, At, EqualsAt, Compares, Means, MeansAll, MeansAny}

-- A result that is no error, whose answer says whether a statement holds.
abbrev pub Decides : Result QueryError Bool → Type 0 → Type 0
Decides (ok b) P = Reflects b P
Decides (err e) P = ⊥

module _ (numbers : Numbers) (p : FieldPath) (t : Json numbers.Number)
    (P : Json numbers.Number → Type 0) where
  At_of_some :
      (v : Json numbers.Number) (b : Bool)
      → lookup p t ≡ some v
      → Reflects b (P v)
      → Reflects b (At numbers p.segments t P)
  At_of_some v b e h =
      Reflects-map b (λ x. (v, (lookup_iff p t v).0 e, x))
        (λ (w, r, x). subst P (eq-of_some (sym ((lookup_iff p t w).1 r) ∙ e)) x) h

  not_At_of_none : lookup p t ≡ none → ¬ At numbers p.segments t P
  not_At_of_none e (w, r, x) = let found = (lookup_iff p t w).1 r in cc

module _ (numbers : Numbers) where
  open numbers use {F64, Number}

  module _ (p : FieldPath) (t : Json Number) (rhs : Literal F64) where
    compare_eq-Reflects :
        (o : Option (Json Number))
        → lookup p t ≡ o
        → Reflects (compare_eq numbers o rhs) (EqualsAt numbers p.segments t rhs)
    unfolding compare_eq
    compare_eq-Reflects (some v) e =
        Reflects-map (json_eq numbers v rhs) inl
          elim [ inl h ↦ h | inr (absent, _) ↦ absurd (absent (v, (lookup_iff p t v).0 e, tt)) ]
          (At_of_some numbers p t (λ w. Equals numbers w rhs) v _ e
            (json_eq-Reflects numbers v rhs))
    compare_eq-Reflects none e =
        Reflects-map (is_null numbers rhs) (λ h. inr (not_At_of_none numbers p t _ e, h))
          elim [ inl h ↦ absurd (not_At_of_none numbers p t _ e h) | inr (_, h) ↦ h ]
          (is_null-Reflects numbers rhs)

    compare_ne-not_eq :
        (o : Option (Json Number)) → compare_ne numbers o rhs ≡ not (compare_eq numbers o rhs)
    unfolding compare_ne compare_eq
    compare_ne-not_eq none = refl
    compare_ne-not_eq (some v) = refl

    compare-Reflects :
        (op : ComparisonOp) (o : Option (Json Number))
        → lookup p t ≡ o
        → Reflects (compare numbers op o rhs) (Compares numbers op p.segments t rhs)
    unfolding compare compare_order compare_like compare_in
    compare-Reflects eq o e = compare_eq-Reflects o e
    compare-Reflects ne o e =
        rw (compare_ne-not_eq o)
          (Reflects-not (compare_eq numbers o rhs) _ (compare_eq-Reflects o e))
    compare-Reflects like (some v) e =
        At_of_some numbers p t _ v _ e (compare_like-Reflects numbers v rhs)
    compare-Reflects like none e = not_At_of_none numbers p t _ e
    compare-Reflects in_set (some v) e =
        At_of_some numbers p t _ v _ e (compare_in-Reflects numbers v rhs)
    compare-Reflects in_set none e = not_At_of_none numbers p t _ e
    compare-Reflects op (some v) e =
        At_of_some numbers p t _ v _ e (compare_order-Reflects numbers op v rhs)
    compare-Reflects op none e = not_At_of_none numbers p t _ e

    contains_at-Reflects :
        (o : Option (Json Number))
        → lookup p t ≡ o
        → Reflects
            (eval_contains numbers o rhs)
            (At numbers p.segments t (λ v. Holds numbers v rhs))
    unfolding eval_contains
    contains_at-Reflects (some v) e =
        At_of_some numbers p t _ v _ e (contains-Reflects numbers v rhs)
    contains_at-Reflects none e = not_At_of_none numbers p t _ e

  exists-Reflects :
      (p : FieldPath) (t : Json Number) (o : Option (Json Number))
      → lookup p t ≡ o
      → Reflects (is_some numbers o) (At numbers p.segments t (λ _. Unit))
  unfolding is_some
  exists-Reflects p t (some v) e = (v, (lookup_iff p t v).0 e, tt)
  exists-Reflects p t none e = not_At_of_none numbers p t _ e

  not-Decides :
      (r : Result QueryError Bool) (P : Type 0)
      → Decides r P
      → Decides (r >>= λ b. ok (not b)) (¬ P)
  not-Decides (ok b) P h = Reflects-not b P h
  not-Decides (err e) P h = h

  and-Decides :
      (r s : Result QueryError Bool) (P Q : Type 0)
      → Decides r P
      → Decides s Q
      → Decides (r >>= λ b. if b then s else ok false) (P × Q)
  and-Decides (ok true) (ok true) P Q h k = (h, k)
  and-Decides (ok true) (ok false) P Q h k = λ x. k x.1
  and-Decides (ok true) (err e) P Q h k = k
  and-Decides (ok false) s P Q h k = λ x. h x.0
  and-Decides (err e) s P Q h k = h

  or-Decides :
      (r s : Result QueryError Bool) (P Q : Type 0)
      → Decides r P
      → Decides s Q
      → Decides (r >>= λ b. if b then ok true else s) (P ⊎ Q)
  or-Decides (ok true) s P Q h k = inl h
  or-Decides (ok false) (ok true) P Q h k = inr k
  or-Decides (ok false) (ok false) P Q h k = elim [ inl p ↦ h p | inr q ↦ k q ]
  or-Decides (ok false) (err e) P Q h k = k
  or-Decides (err e) s P Q h k = h

  mutual
    unfolding eval_pred Means

    eval_pred-Decides_lem :
        (p : Predicate F64) (t : Json Number) → Decides (eval_pred numbers p t) (Means numbers p t)
    eval_pred-Decides_lem Predicate.always t = tt
    eval_pred-Decides_lem Predicate.never t = λ h. h
    eval_pred-Decides_lem (Predicate.and items) t = eval_and-Decides items t
    eval_pred-Decides_lem (Predicate.or items) t = eval_or-Decides items t
    eval_pred-Decides_lem (Predicate.not inner) t =
        not-Decides (eval_pred numbers inner t) _ (eval_pred-Decides_lem inner t)
    eval_pred-Decides_lem (Predicate.compare left op right) t =
        compare-Reflects left t right op (lookup left t) refl
    eval_pred-Decides_lem (Predicate.contains path value) t =
        contains_at-Reflects path t value (lookup path t) refl
    eval_pred-Decides_lem (Predicate.exists path) t = exists-Reflects path t (lookup path t) refl

    eval_and-Decides :
        (items : Predicates F64) (t : Json Number)
        → Decides (eval_and numbers items t) (MeansAll numbers items t)
    eval_and-Decides none_left t = tt
    eval_and-Decides (also i items) t =
        and-Decides (eval_pred numbers i t) (eval_and numbers items t) _ _
          (eval_pred-Decides_lem i t) (eval_and-Decides items t)

    eval_or-Decides :
        (items : Predicates F64) (t : Json Number)
        → Decides (eval_or numbers items t) (MeansAny numbers items t)
    eval_or-Decides none_left t = λ h. h
    eval_or-Decides (also i items) t =
        or-Decides (eval_pred numbers i t) (eval_or numbers items t) _ _ (eval_pred-Decides_lem i t)
          (eval_or-Decides items t)

-- Matching a query against a value returns no error, and its answer is true exactly when the
-- value has what the query's predicate means.
pub matches-Decides :
    (numbers : Numbers) (q : Query numbers.F64) (t : Json numbers.Number)
    → Decides (matches numbers q t) (Means numbers q.predicate t)
unfolding matches
matches-Decides numbers q t = eval_pred-Decides_lem numbers q.predicate t
