-- ===== src/Common/Tests.antt =====
-- Boolean tests on the native numbers, the conditional, and splits that keep an equation.
use Prim.Native.Nat.{ℕ, ◌≤◌, ◌<◌, compare, Ordering}
use mathlib.Core.Path.{◌≡◌, refl}
use mathlib.Core.Logic.{◌↔◌, ◌⊎◌, inl, inr}
use mathlib.Core.Bool.{Bool, true, false, not}
use mathlib.Core.Option.{Option, none, some}
use native.Mathlib.Omega.{arith}

abbrev pub ltb : ℕ → ℕ → Bool
ltb a b = elim (compare a b) [ Ordering.lt ↦ true | _ ↦ false ]

abbrev pub leb : ℕ → ℕ → Bool
leb a b = elim (compare a b) [ Ordering.gt ↦ false | _ ↦ true ]

infix 50 ◌==◌
abbrev pub ◌==◌ : ℕ → ℕ → Bool
a == b = elim (compare a b) [ Ordering.eq ↦ true | _ ↦ false ]

infix 1 if◌then◌else◌
abbrev pub if◌then◌else◌ {ℓ} : {A : Type ℓ} → Bool → A → A → A
if true then x else y = x
if false then x else y = y

pub ltb→lt : (a b : ℕ) → ltb a b ≡ true → a < b
ltb→lt a b h = ground arith

pub lt→ltb : (a b : ℕ) → a < b → ltb a b ≡ true
lt→ltb a b h = ground arith

pub leb→le : (a b : ℕ) → leb a b ≡ true → a ≤ b
leb→le a b h = ground arith

pub ==_iff : (a b : ℕ) → ((a == b) ≡ true) ↔ (a ≡ b)
==_iff a b = ground arith

pub ==_self : (a : ℕ) → (a == a) ≡ true
==_self a = ground arith

pub Bool-cases : (b : Bool) → (b ≡ true) ⊎ (b ≡ false)
Bool-cases true = inl refl
Bool-cases false = inr refl

pub Option-cases {ℓ} : {A : Type ℓ} (o : Option A) → (o ≡ none) ⊎ ((a : A) × (o ≡ some a))
Option-cases none = inl refl
Option-cases (some a) = inr (a, refl)

-- A test whose answer says whether a statement holds.
abbrev pub Reflects : Bool → Type 0 → Type 0
Reflects true P = P
Reflects false P = ¬ P

pub Reflects-of_iff : (b : Bool) {P : Type 0} → (b ≡ true) ↔ P → Reflects b P
Reflects-of_iff true h = h.0 refl
Reflects-of_iff false h = λ p. cc (h.1 p)

pub Reflects-not : (b : Bool) (P : Type 0) → Reflects b P → Reflects (not b) (¬ P)
Reflects-not true P h = λ n. n h
Reflects-not false P h = h

pub Reflects-map : (b : Bool) {P Q : Type 0} → (P → Q) → (Q → P) → Reflects b P → Reflects b Q
Reflects-map true f g h = f h
Reflects-map false f g h = λ q. h (g q)

pub Reflects-or :
    (a b : Bool) (P Q : Type 0)
    → Reflects a P
    → Reflects b Q
    → Reflects (if a then true else b) (P ⊎ Q)
Reflects-or true b P Q h k = inl h
Reflects-or false true P Q h k = inr k
Reflects-or false false P Q h k = elim [ inl p ↦ h p | inr q ↦ k q ]

pub eq-of_some {ℓ} : {A : Type ℓ} {a b : A} → some a ≡ some b → a ≡ b
eq-of_some e = cc
