-- ===== src/Json/Python.antt =====
-- The conversions `int`, `str`, `bool` and `float` of JSON values, as the payload readers call them.
-- What rests on tables of the interpreter (decimal digits of every script, the shortest text of a
-- float, the calendar) is the parameter `Python`.
use alpha_orchestration.Prelude.{
  ℕ, zero, suc, ◌*◌, ◌/◌, ◌^◌, String, Bool, true, false, not, Option, eqb, if◌then◌else◌,
}
use alpha_orchestration.Prelude.Int.{ℤ, pos, negsuc, sub_ℕ}
use alpha_orchestration.Prelude.Text.{is_empty}
use alpha_orchestration.Result.{Result, ok, err, or_raise, value_error, type_error, overflow_error}
use alpha_orchestration.Json.{
  Float, finite, infinite, nan, Json, null, bool, int, float, str, arr, obj, nil, end,
}

-- `text_of` is `str` of a value that is no text, `int_of_text` is `int` of a text, `float_of_int`
-- is `float` of an integer (`none`: OverflowError); a timestamp is held in microseconds since the
-- epoch, `iso_text` is `isoformat` at UTC and `iso_parse` is `datetime.fromisoformat`.
pub record Python : Type 0 where
  pub text_of : Json → String
  pub int_of_text : String → Option ℤ
  pub float_of_int : ℤ → Option Float
  pub iso_text : ℕ → String
  pub iso_parse : String → Option ℕ

negate : ℕ → ℤ
negate zero = pos 0
negate (suc n) = negsuc n

-- `int` of a finite float drops the fraction.
abbrev truncate : ℤ → ℤ → ℤ
truncate (pos m) (pos e) = pos (m * 2 ^ e)
truncate (negsuc m) (pos e) = sub_ℕ 0 (suc m * 2 ^ e)
truncate (pos m) (negsuc e) = pos (m / 2 ^ suc e)
truncate (negsuc m) (negsuc e) = sub_ℕ 0 (suc m / 2 ^ suc e)

abbrev int_of_float : Float → Result ℤ
int_of_float (finite m e) = ok (truncate m e)
int_of_float (infinite s) = err overflow_error
int_of_float nan = err value_error

abbrev non_zero : ℤ → Bool
non_zero (pos n) = not (eqb n 0)
non_zero (negsuc n) = true

-- `bool(value)`
unfoldable pub truthy : Json → Bool
truthy null = false
truthy (bool b) = b
truthy (int n) = non_zero n
truthy (float (finite m e)) = non_zero m
truthy (float f) = true
truthy (str s) = not (is_empty s)
truthy (arr nil) = false
truthy (arr xs) = true
truthy (obj end) = false
truthy (obj fs) = true

module _ (py : Python) where
  -- `int(value)`
  unfoldable pub to_int : Json → Result ℤ
  to_int (bool b) = ok (pos (if b then 1 else 0))
  to_int (int n) = ok n
  to_int (float f) = int_of_float f
  to_int (str s) = or_raise (py.int_of_text s) value_error
  to_int v = err type_error

  -- `str(value)`
  unfoldable pub to_text : Json → String
  to_text (str s) = s
  to_text v = py.text_of v
