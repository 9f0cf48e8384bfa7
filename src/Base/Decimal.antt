-- ===== src/Base/Decimal.antt =====
-- Decimal digits, as `strconv.FormatUint`, `fmt` and `String()` print a number.
use Prim.Native.Nat.{ℕ, zero, suc, ◌+◌, ◌-◌, ◌*◌, ◌/◌, ◌%◌, ◌≤◌}
use mathlib.Core.Path.{◌≡◌, refl}
use mathlib.Core.List.{[], ◌∷◌}
use native.Mathlib.Omega.{arith}
use go_fourmeme.Base.Tests.{ltb, if◌then◌else◌}
use go_fourmeme.Base.Text.{Text}

-- The digits in front of `out`; a round for each digit but the last, and fuel for the rounds.
unfoldable pub digits : ℕ → ℕ → Text → Text
digits zero n out = (b'0' + n % 10) ∷ out
digits (suc f) n out =
    let more = digits f (n / 10) ((b'0' + n % 10) ∷ out) in
    if ltb n 10 then (b'0' + n % 10) ∷ out else more

-- The decimal print of a number. `n` rounds are enough, since a round takes a digit away.
unfoldable pub decimal : ℕ → Text
unfolding digits
decimal n = digits n n []

-- The number that a digit string spells behind `acc`.
abbrev pub value : ℕ → Text → ℕ
value acc [] = acc
value acc (c ∷ s) = value (acc * 10 + (c - b'0')) s

value-digits : (f n : ℕ) (out : Text) → n ≤ f → value 0 (digits f n out) ≡ value n out
unfolding digits
value-digits zero n out h = let e : n ≡ 0 = omega arith in rw e refl
value-digits (suc f) n out h = ground (arith, value-digits f (n / 10) ((b'0' + n % 10) ∷ out))

-- Reading back the print of a number gives the number.
pub value-decimal : (n : ℕ) → value 0 (decimal n) ≡ n
unfolding decimal
value-decimal n = value-digits n n [] (omega arith)
