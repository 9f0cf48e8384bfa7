-- ===== src/Utils/Math.antt =====
-- utils/math_utils.go: numbers printed and scaled. `none` outside is a panic.
use go_fourmeme.Base.{suc, ◌^◌, Option, none, some, [], ◌∷◌, if◌then◌else◌}
use go_fourmeme.Base.Text.{Text}
use go_fourmeme.Base.Int.{ℤ, pos, negsuc, pos_part, is_zero}
use go_fourmeme.Base.Decimal.{decimal}
use go_fourmeme.Entity.{BigFloat}
use go_fourmeme.World.{FloatOps}

-- A signed decimal print, of nil too.
abbrev pub big_int_to_string : Option ℤ → Text
big_int_to_string none = b'0' ∷ []
big_int_to_string (some (pos n)) = decimal n
big_int_to_string (some (negsuc n)) = b'-' ∷ decimal (suc n)

module _ (ops : FloatOps) where
  abbrev pub big_float_to_string : Option BigFloat → Text
  big_float_to_string none = b'0' ∷ []
  big_float_to_string (some v) = ops.print v

  -- `Exp` to a negative power without a modulus is 1.
  abbrev pub over_power : ℤ → ℤ → Option BigFloat
  over_power v power =
      if is_zero power
      then some (ops.set_int v)
      else ops.quo (ops.set_int v) (ops.set_int (pos (10 ^ pos_part power)))

  -- `Div10Pow`
  unfoldable pub div_10_pow : Option ℤ → Option ℤ → Option BigFloat
  div_10_pow none power = ops.new_float (ops.literal 0 0)
  div_10_pow (some v) none = some (ops.set_int v)
  div_10_pow (some v) (some power) = over_power v power

  abbrev pub int_over : ℤ → ℤ → Option BigFloat
  int_over a b =
      if is_zero b then ops.new_float (ops.literal 0 0) else ops.quo (ops.set_int a) (ops.set_int b)

  -- `DivInt`
  unfoldable pub div_int : Option ℤ → Option ℤ → Option BigFloat
  div_int (some a) (some b) = int_over a b
  div_int _ _ = ops.new_float (ops.literal 0 0)
