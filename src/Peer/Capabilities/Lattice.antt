-- ===== src/Peer/Capabilities/Lattice.antt =====
-- What two sets of capabilities have in common.
use boardwalk.Common.{
  ℕ, zero, suc, ◌+◌, ◌*◌, ◌/◌, ◌%◌, Bool, true, false, ◌&&◌, ◌==◌, ==_iff, if◌then◌else◌,
  Bool-cases, inl, inr, ◌≡◌, refl, sym, ◌∙◌, ap, ap₂, arith,
}
use boardwalk.Peer.Capabilities.{PeerCapabilities, bitwise, ◌and8◌, intersection, contains}

abbrev bit : Bool → ℕ
bit b = if b then 1 else 0

low : (b : Bool) (r : ℕ) → ((bit b + 2 * r) % 2 == 1) ≡ b
low true r = ground arith
low false r = ground arith

high : (b : Bool) (r : ℕ) → (bit b + 2 * r) / 2 ≡ r
high true r = omega arith
high false r = omega arith

-- One more bit of an `&` whose operands were taken apart.
abbrev and_bits : ℕ → ℕ → ℕ → ℕ
and_bits w a b = bitwise ◌&&◌ w a b

and_comm : (w a b : ℕ) → and_bits w a b ≡ and_bits w b a
unfolding bitwise
and_comm zero a b = refl
and_comm (suc w) a b =
    ap₂ (λ x r. bit x + 2 * r) (flip (a % 2 == 1) (b % 2 == 1)) (and_comm w (a / 2) (b / 2))
  where
    flip : (x y : Bool) → (x && y) ≡ (y && x)
    flip true true = refl
    flip true false = refl
    flip false true = refl
    flip false false = refl

-- `&` of three, by bits.
and_assoc : (w a b c : ℕ) → and_bits w (and_bits w a b) c ≡ and_bits w a (and_bits w b c)
unfolding bitwise
and_assoc zero a b c = refl
and_assoc (suc w) a b c =
    let x = a % 2 == 1 in
    let y = b % 2 == 1 in
    let z = c % 2 == 1 in
    let ab = and_bits w (a / 2) (b / 2) in
    let bc = and_bits w (b / 2) (c / 2) in
    ap₂ (λ p q. bit (p && z) + 2 * and_bits w q (c / 2)) (low (x && y) ab) (high (x && y) ab)
    ∙ ap₂ (λ p r. bit p + 2 * r) (group x y z) (and_assoc w (a / 2) (b / 2) (c / 2))
    ∙ sym
        (ap₂ (λ p q. bit (x && p) + 2 * and_bits w (a / 2) q) (low (y && z) bc) (high (y && z) bc))
  where
    group : (x y z : Bool) → ((x && y) && z) ≡ (x && (y && z))
    group true y z = refl
    group false y z = refl

and_again : (w a b : ℕ) → and_bits w a (and_bits w a b) ≡ and_bits w a b
unfolding bitwise
and_again zero a b = refl
and_again (suc w) a b =
    let x = a % 2 == 1 in
    let y = b % 2 == 1 in
    let ab = and_bits w (a / 2) (b / 2) in
    ap₂ (λ p q. bit (x && p) + 2 * and_bits w (a / 2) q) (low (x && y) ab) (high (x && y) ab)
    ∙ ap₂ (λ p r. bit p + 2 * r) (twice x y) (and_again w (a / 2) (b / 2))
  where
    twice : (x y : Bool) → (x && (x && y)) ≡ (x && y)
    twice true y = refl
    twice false y = refl

tests_agree :
    (x y z c : ℕ)
    → (x ≡ c → y ≡ c)
    → (x ≡ c → z ≡ c)
    → (y ≡ c → z ≡ c → x ≡ c)
    → (x == c) ≡ ((y == c) && (z == c))
tests_agree x y z c f g h = elim (Bool-cases (x == c)) [
  | inl same ↦
      let e = (==_iff x c).0 same in rw (same, (==_iff y c).1 (f e), (==_iff z c).1 (g e)) refl
  | inr other ↦ elim (Bool-cases (y == c)) [
    | inl same_y ↦ elim (Bool-cases (z == c)) [
      | inl same_z ↦
          let e = h ((==_iff y c).0 same_y) ((==_iff z c).0 same_z) in ground (arith, ==_iff x c)
      | inr other_z ↦ rw (other, same_y, other_z) refl
    ]
    | inr other_y ↦ rw (other, other_y) refl
  ]
]

left_of : (w a b c : ℕ) → and_bits w (and_bits w a b) c ≡ c → and_bits w a c ≡ c
left_of w a b c e =
    ap (and_bits w a) (sym e)
    ∙ sym (and_assoc w a (and_bits w a b) c)
    ∙ ap (λ x. and_bits w x c) (and_again w a b)
    ∙ e

right_of : (w a b c : ℕ) → and_bits w (and_bits w a b) c ≡ c → and_bits w b c ≡ c
right_of w a b c e = left_of w b a c (ap (λ x. and_bits w x c) (and_comm w b a) ∙ e)

both_of :
    (w a b c : ℕ) → and_bits w a c ≡ c → and_bits w b c ≡ c → and_bits w (and_bits w a b) c ≡ c
both_of w a b c e f = and_assoc w a b c ∙ ap (and_bits w a) f ∙ e

-- The intersection of two sets contains a set exactly where both of them contain it.
pub contains-intersection :
    (a b c : PeerCapabilities) → contains (intersection a b) c ≡ (contains a c && contains b c)
unfolding contains intersection ◌and8◌
contains-intersection a b c =
    tests_agree (and_bits 8 (and_bits 8 a.bits b.bits) c.bits) (and_bits 8 a.bits c.bits)
      (and_bits 8 b.bits c.bits) c.bits (left_of 8 a.bits b.bits c.bits)
      (right_of 8 a.bits b.bits c.bits) (both_of 8 a.bits b.bits c.bits)

-- Each of two sets contains their intersection.
pub contains_right : (a b : PeerCapabilities) → contains b (intersection a b) ≡ true
unfolding contains intersection ◌and8◌
contains_right a b =
    (==_iff (and_bits 8 b.bits (and_bits 8 a.bits b.bits)) (and_bits 8 a.bits b.bits)).1 (
      ap (and_bits 8 b.bits) (and_comm 8 a.bits b.bits)
      ∙ and_again 8 b.bits a.bits
      ∙ and_comm 8 b.bits a.bits)
