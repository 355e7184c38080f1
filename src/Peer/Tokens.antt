-- ===== src/Peer/Tokens.antt =====
-- The comparison of a presented secret with that of a token, over all the bytes.
use boardwalk.Common.{
  ℕ, zero, suc, ◌+◌, ◌*◌, ◌/◌, ◌%◌, ◌<◌, Bool, true, false, not, ◌||◌, ◌==◌, ==_iff, List, [], ◌∷◌,
  Str, utf8, length, All, if◌then◌else◌, Bool-cases, inl, inr, ◌≡◌, ◌↔◌, refl, sym, ◌∙◌, ap, ap₂,
  subst, arith,
}
use boardwalk.Peer.Capabilities.{bitwise, ◌or8◌}

-- `x ^ y` of bits.
abbrev pub differ : Bool → Bool → Bool
differ true b = not b
differ false b = b

unfoldable pub xor8 : ℕ → ℕ → ℕ
xor8 a b = bitwise differ 8 a b

-- The loop over the pairs, with the bits that differed so far.
unfoldable pub differences : ℕ → List ℕ → List ℕ → ℕ
unfolding xor8 ◌or8◌
differences diff [] b = diff
differences diff (x ∷ a) [] = diff
differences diff (x ∷ a) (y ∷ b) = differences (diff or8 xor8 x y) a b

unfoldable pub constant_time_eq : List ℕ → List ℕ → Bool
unfolding differences
constant_time_eq a b = if not (length a == length b) then false else differences 0 a b == 0

-- `PeerTokenVerifier::verify`.
unfoldable pub verify : Str → Str → Bool
unfolding constant_time_eq
verify secret candidate = constant_time_eq (utf8 secret) (utf8 candidate)

-- No bit beyond so many.
abbrev Fits : ℕ → ℕ → Type 0
Fits zero a = a ≡ 0
Fits (suc w) a = Fits w (a / 2)

Fits-byte : (a : ℕ) → a < 256 → Fits 8 a
Fits-byte a h = omega arith

bit_low : (b : Bool) (r : ℕ) → (((if b then 1 else 0) + 2 * r) % 2 == 1) ≡ b
bit_low true r = ground arith
bit_low false r = ground arith

bit_high : (b : Bool) (r : ℕ) → ((if b then 1 else 0) + 2 * r) / 2 ≡ r
bit_high true r = omega arith
bit_high false r = omega arith

Fits-zero : (w : ℕ) → Fits w 0
Fits-zero zero = refl
Fits-zero (suc w) = Fits-zero w

Fits-bitwise : (op : Bool → Bool → Bool) (w a b : ℕ) → Fits w (bitwise op w a b)
unfolding bitwise
Fits-bitwise op zero a b = refl
Fits-bitwise op (suc w) a b =
    subst (Fits w) (sym (bit_high (op (a % 2 == 1) (b % 2 == 1)) (bitwise op w (a / 2) (b / 2))))
      (Fits-bitwise op w (a / 2) (b / 2))

no_bit : (b : Bool) (r : ℕ) → (if b then 1 else 0) + 2 * r ≡ 0 → (b ≡ false) × (r ≡ 0)
no_bit true r h = absurd (omega arith)
no_bit false r h = (refl, omega arith)

or_false : (x y : Bool) → (x || y) ≡ false → (x ≡ false) × (y ≡ false)
or_false true y h = ground arith
or_false false y h = (refl, h)

differ-false : (x y : Bool) → differ x y ≡ false → x ≡ y
differ-false true true h = refl
differ-false true false h = ground arith
differ-false false y h = sym h

differ_self : (x : Bool) → differ x x ≡ false
differ_self true = refl
differ_self false = refl

-- An `|` is 0 only for two zeros, an `^` only for two equal numbers.
or_zero : (w a b : ℕ) → Fits w a → bitwise ◌||◌ w a b ≡ 0 → a ≡ 0
unfolding bitwise
or_zero zero a b h e = h
or_zero (suc w) a b h e =
    let (low, high) = no_bit (a % 2 == 1 || b % 2 == 1) (bitwise ◌||◌ w (a / 2) (b / 2)) e in
    let rest = or_zero w (a / 2) (b / 2) h high in
    ground (arith, or_false (a % 2 == 1) (b % 2 == 1) low)

or_zero_right : (w a b : ℕ) → Fits w b → bitwise ◌||◌ w a b ≡ 0 → b ≡ 0
unfolding bitwise
or_zero_right zero a b h e = h
or_zero_right (suc w) a b h e =
    let (low, high) = no_bit (a % 2 == 1 || b % 2 == 1) (bitwise ◌||◌ w (a / 2) (b / 2)) e in
    let rest = or_zero_right w (a / 2) (b / 2) h high in
    ground (arith, or_false (a % 2 == 1) (b % 2 == 1) low)

xor_zero : (w a b : ℕ) → Fits w a → Fits w b → bitwise differ w a b ≡ 0 → a ≡ b
unfolding bitwise
xor_zero zero a b h k e = h ∙ sym k
xor_zero (suc w) a b h k e =
    let (low, high) =
      no_bit (differ (a % 2 == 1) (b % 2 == 1)) (bitwise differ w (a / 2) (b / 2)) e in
    let rest = xor_zero w (a / 2) (b / 2) h k high in
    ground (arith, differ-false (a % 2 == 1) (b % 2 == 1) low)

xor_self : (w a : ℕ) → bitwise differ w a a ≡ 0
unfolding bitwise
xor_self zero a = refl
xor_self (suc w) a = rw (differ_self (a % 2 == 1), xor_self w (a / 2)) refl

abbrev pub AreBytes : List ℕ → Type 0
AreBytes a = All (λ x. x < 256) a

differences-zero :
    (diff : ℕ) (a b : List ℕ)
    → Fits 8 diff
    → AreBytes a
    → AreBytes b
    → length a ≡ length b
    → differences diff a b ≡ 0
    → (diff ≡ 0) × (a ≡ b)
unfolding differences ◌or8◌ xor8
differences-zero diff [] [] f h k l e = (e, refl)
differences-zero diff [] (y ∷ b) f h k l e = absurd (omega arith)
differences-zero diff (x ∷ a) [] f h k l e = absurd (omega arith)
differences-zero diff (x ∷ a) (y ∷ b) f (hx, h) (ky, k) l e =
    let both = xor8 x y in
    let (none_yet, same) =
      differences-zero (diff or8 both) a b (Fits-bitwise ◌||◌ 8 diff both) h k (omega arith) e in
    let here =
      xor_zero 8 x y (Fits-byte x hx) (Fits-byte y ky)
        (or_zero_right 8 diff both (Fits-bitwise differ 8 x y) none_yet) in
    (or_zero 8 diff both f none_yet, ap₂ ◌∷◌ here same)

differences_self : (a : List ℕ) → differences 0 a a ≡ 0
unfolding differences ◌or8◌ xor8 bitwise
differences_self [] = refl
differences_self (x ∷ a) = ap (λ d. differences (0 or8 d) a a) (xor_self 8 x) ∙ differences_self a

-- The comparison answers `true` exactly for equal texts of bytes.
pub constant_time_eq_iff :
    (a b : List ℕ) → AreBytes a → AreBytes b → (constant_time_eq a b ≡ true) ↔ (a ≡ b)
unfolding constant_time_eq
constant_time_eq_iff a b h k = elim (Bool-cases (length a == length b)) [
  | inl same ↦ (
    (λ e.
        (let found : (differences 0 a b == 0) ≡ true = (rw (same, constant_time_eq) at e) in
          (differences-zero 0 a b (Fits-zero 8) h k ((==_iff (length a) (length b)).0 same)
            ((==_iff (differences 0 a b) 0).0 found)).1)),
    (λ e.
        rw (same, constant_time_eq)
          ((==_iff (differences 0 a b) 0).1
            (subst (λ x. differences 0 a x ≡ 0) e (differences_self a)))),
  )
  | inr other ↦ (
    (λ e. absurd (let f : false ≡ true = (rw (other, constant_time_eq) at e) in ground arith)),
    (λ e. absurd (let l = ap length e in ground arith)),
  )
]
