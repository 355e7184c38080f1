-- ===== src/Common/Decimal.antt =====
-- The decimal text of a number, as `format!("{}", n)` prints it.
use Prim.Native.Nat.{ℕ, zero, suc, ◌+◌, ◌-◌, ◌*◌, ◌/◌, ◌%◌, ◌<◌}
use mathlib.Core.Path.{◌≡◌, refl, sym, ap, ◌∙◌}
use mathlib.Core.Logic.{◌≢◌, inl, inr}
use mathlib.Core.List.{[], ◌∷◌, ◌++◌}
use mathlib.Core.Bool.{true, false}
use native.Mathlib.Omega.{arith}
use boardwalk.Common.Tests.{ltb, Bool-cases}
use boardwalk.Common.Lists.{All-append}
use boardwalk.Common.Text.{Str, Avoids}

-- With fuel above the number the digits are all printed.
decimal_loop : ℕ → ℕ → Str
decimal_loop zero n = []
decimal_loop (suc f) n = elim (ltb n 10) [
  | true ↦ (n + 48) ∷ []
  | false ↦ decimal_loop f (n / 10) ++ (n % 10 + 48) ∷ []
]

unfoldable pub decimal : ℕ → Str
unfolding decimal_loop
decimal n = decimal_loop (suc n) n

read : ℕ → Str → ℕ
read acc [] = acc
read acc (c ∷ s) = read (acc * 10 + (c - 48)) s

read-append : (acc : ℕ) (s : Str) (c : ℕ) → read acc (s ++ c ∷ []) ≡ read acc s * 10 + (c - 48)
unfolding read
read-append acc [] c = refl
read-append acc (d ∷ s) c = read-append (acc * 10 + (d - 48)) s c

read-one : (n : ℕ) → read 0 ((n + 48) ∷ []) ≡ n
unfolding read
read-one n = omega arith

read-decimal_loop : (f n : ℕ) → n < f → read 0 (decimal_loop f n) ≡ n
unfolding decimal_loop
read-decimal_loop zero n h = absurd (omega arith)
read-decimal_loop (suc f) n h = ground (
  arith,
  read-decimal_loop f (n / 10),
  read-append 0 (decimal_loop f (n / 10)) (n % 10 + 48),
  read-one n,
)

-- Two numbers with the same decimal text are the same.
pub decimal-injective : (m n : ℕ) → decimal m ≡ decimal n → m ≡ n
unfolding decimal
decimal-injective m n e =
    sym (read-decimal_loop (suc m) m (omega arith))
    ∙ ap (read 0) e
    ∙ read-decimal_loop (suc n) n (omega arith)

decimal_loop-Avoids : (sep f n : ℕ) → sep < 48 → Avoids sep (decimal_loop f n)
unfolding decimal_loop
decimal_loop-Avoids sep zero n h = tt
decimal_loop-Avoids sep (suc f) n h = elim (Bool-cases (ltb n 10)) [
  | inl small ↦ rw (small, decimal_loop) (omega arith, tt)
  | inr big ↦
      rw (big, decimal_loop)
        (All-append (λ c. c ≢ sep) (decimal_loop f (n / 10)) _
          (decimal_loop-Avoids sep f (n / 10) h) (omega arith, tt))
]

-- A character below the digits does not occur.
pub decimal-Avoids : (sep n : ℕ) → sep < 48 → Avoids sep (decimal n)
unfolding decimal
decimal-Avoids sep n h = decimal_loop-Avoids sep (suc n) n h
