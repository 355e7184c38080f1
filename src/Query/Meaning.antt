-- ===== src/Query/Meaning.antt =====
-- What a predicate means, stated without the evaluator of query/eval.rs: as a type that has an
-- element exactly when the predicate is to hold.
use boardwalk.Common.{ℕ, true, some, List, [], ◌∷◌, Str, ◌<◌, ◌≡◌, ◌⊎◌}
use boardwalk.Query.Numbers.{Numbers}
use boardwalk.Query.Json.{Json, Items, no_items, item, Fields, get}
use boardwalk.Query.Ast.{
  ComparisonOp, eq, ne, lt, le, gt, ge, like, in_set, Literal, Literals, nil, cons, Predicate,
  Predicates, none_left, also,
}
use boardwalk.Query.Glob.{Globs}

-- A path resolves to a value when each segment names a field of an object.
pub data Resolves {N : Type 0} : List Str → Json N → Json N → Type 0 where
  here : {t : Json N} → Resolves [] t t
  below :
      {seg : Str} {segs : List Str} {m : Fields N} {v w : Json N}
      → get seg m ≡ some v
      → Resolves segs v w
      → Resolves (seg ∷ segs) (Json.obj m) w

-- Dictionary order of texts.
pub data Precedes : Str → Str → Type 0 where
  shorter : {b : ℕ} {t : Str} → Precedes [] (b ∷ t)
  smaller : {a b : ℕ} {s t : Str} → a < b → Precedes (a ∷ s) (b ∷ t)
  later : {a b : ℕ} {s t : Str} → a ≡ b → Precedes s t → Precedes (a ∷ s) (b ∷ t)

module _ (numbers : Numbers) where
  open numbers use {F64, f64_eq, f64_lt, f64_le, Number, as_f64}

  -- A scalar equals a literal of its own kind; arrays and objects equal no literal.
  abbrev pub Equals : Json Number → Literal F64 → Type 0
  Equals (Json.str a) (Literal.string b) = a ≡ b
  Equals (Json.num a) (Literal.number b) = (l : F64) × (as_f64 a ≡ some l) × (f64_eq l b ≡ true)
  Equals (Json.bool a) (Literal.bool b) = a ≡ b
  Equals Json.null Literal.null = Unit
  Equals _ _ = ⊥

  abbrev pub OrderedF64 : ComparisonOp → F64 → F64 → Type 0
  OrderedF64 lt l r = f64_lt l r ≡ true
  OrderedF64 le l r = f64_le l r ≡ true
  OrderedF64 gt l r = f64_lt r l ≡ true
  OrderedF64 ge l r = f64_le r l ≡ true
  OrderedF64 _ l r = ⊥

  abbrev pub OrderedStr : ComparisonOp → Str → Str → Type 0
  OrderedStr lt l r = Precedes l r
  OrderedStr le l r = ¬ Precedes r l
  OrderedStr gt l r = Precedes r l
  OrderedStr ge l r = ¬ Precedes l r
  OrderedStr _ l r = ⊥

  -- Numbers are ordered with numbers and texts with texts; nothing else is.
  abbrev pub Ordered : ComparisonOp → Json Number → Literal F64 → Type 0
  Ordered op (Json.num n) (Literal.number r) = (l : F64) × (as_f64 n ≡ some l) × OrderedF64 op l r
  Ordered op (Json.str s) (Literal.string r) = OrderedStr op s r
  Ordered op _ _ = ⊥

  abbrev pub IsLike : Json Number → Literal F64 → Type 0
  IsLike (Json.str s) (Literal.string pat) = Globs pat s
  IsLike _ _ = ⊥

  abbrev pub AnyEquals : Json Number → Literals F64 → Type 0
  AnyEquals v nil = ⊥
  AnyEquals v (cons x xs) = Equals v x ⊎ AnyEquals v xs

  abbrev pub IsIn : Json Number → Literal F64 → Type 0
  IsIn v (Literal.array items) = AnyEquals v items
  IsIn v _ = ⊥

  abbrev pub Holding : Items Number → Literal F64 → Type 0
  Holding no_items value = ⊥
  Holding (item x xs) value = Equals x value ⊎ Holding xs value

  abbrev pub Holds : Json Number → Literal F64 → Type 0
  Holds (Json.arr items) value = Holding items value
  Holds _ value = ⊥

  -- A relation of the value at a path; false where the path does not resolve.
  abbrev pub At : List Str → Json Number → (Json Number → Type 0) → Type 0
  At segs t P = (v : Json Number) × Resolves segs t v × P v

  -- An unresolved path counts as null for `=` and `!=`, and has no order, glob or membership.
  abbrev pub EqualsAt : List Str → Json Number → Literal F64 → Type 0
  EqualsAt segs t rhs =
      At segs t (λ v. Equals v rhs) ⊎ ((¬ At segs t (λ _. Unit)) × (rhs ≡ Literal.null))

  abbrev pub Compares : ComparisonOp → List Str → Json Number → Literal F64 → Type 0
  Compares eq segs t rhs = EqualsAt segs t rhs
  Compares ne segs t rhs = ¬ EqualsAt segs t rhs
  Compares like segs t rhs = At segs t (λ v. IsLike v rhs)
  Compares in_set segs t rhs = At segs t (λ v. IsIn v rhs)
  Compares op segs t rhs = At segs t (λ v. Ordered op v rhs)

  unfoldable mutual
    pub Means : Predicate F64 → Json Number → Type 0
    Means Predicate.always t = Unit
    Means Predicate.never t = ⊥
    Means (Predicate.and items) t = MeansAll items t
    Means (Predicate.or items) t = MeansAny items t
    Means (Predicate.not inner) t = ¬ Means inner t
    Means (Predicate.compare left op right) t = Compares op left.segments t right
    Means (Predicate.contains path value) t = At path.segments t (λ v. Holds v value)
    Means (Predicate.exists path) t = At path.segments t (λ _. Unit)

    pub MeansAll : Predicates F64 → Json Number → Type 0
    MeansAll none_left t = Unit
    MeansAll (also i items) t = Means i t × MeansAll items t

    pub MeansAny : Predicates F64 → Json Number → Type 0
    MeansAny none_left t = ⊥
    MeansAny (also i items) t = Means i t ⊎ MeansAny items t
