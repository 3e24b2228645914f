-- ===== src/Base/Python.antt =====
-- What the program uses of Python and the model does not define: floats, and `str`, `int` and `str.lower`
-- on any value. It is a parameter of the definitions that use it.
use Prim.Native.String.{String}
use mathlib.Core.Bool.{Bool}
use mathlib.Core.Option.{Option}
use try_ops_try_on_mlops.Base.Int.{ℤ}
use try_ops_try_on_mlops.Base.Json.{Json}

-- What `int(v)` and `float(v)` come to: a number, a `TypeError` or `ValueError`, or an
-- `OverflowError`.
pub data Conversion (A : Type 0) : Type 0 where
  converted : A → Conversion A
  refused : Conversion A
  overflow : Conversion A

-- `json_int` is `none` where `int(v)` raises.
pub record Python : Type 1 where
  pub Float : Type 0
  pub float_lt : Float → Float → Bool
  pub float_text : Float → String
  pub json_text : Json → String
  pub json_int : Json → Option ℤ
  pub lower : String → String
