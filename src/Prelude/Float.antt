-- ===== src/Prelude/Float.antt =====
-- A finite double is a whole multiple of 2^-1074, and is modelled by that multiple: comparisons
-- and `min` are then exact. Not a number and the infinities are left out.
use Prim.Native.Nat.{ℕ, ◌*◌, ◌^◌}
use mathlib.Core.Bool.{Bool, not}
use enterprise_rag.Prelude.Int.{ℤ, pos, leb_ℤ}

abbrev pub Float : Type 0
Float = ℤ

-- `a <= b` and `a < b`
abbrev pub le : Float → Float → Bool
le a b = leb_ℤ a b

abbrev pub lt : Float → Float → Bool
lt a b = not (leb_ℤ b a)

unfoldable pub zero_float : Float
zero_float = pos 0

unfoldable pub one_float : Float
one_float = pos (2 ^ 1074)

-- `m * 2^-53`
unfoldable pub fraction : ℕ → Float
fraction m = pos (m * 2 ^ 1021)
