-- ===== src/Vm/Values.antt =====
-- The conversions and comparisons of values in vm/vm.c.
pub mod Laws
use open_scm.Prelude.{ℕ, Bool, true, false, ◌||◌, ◌==◌, if◌then◌else◌}
use open_scm.Prelude.Text.{Text, text_eq, Sign, less, same, more, strcmp}
use open_scm.Prelude.Word.{slt}
use open_scm.Prelude.Decimal.{atoi, print_int}
use open_scm.Vm.{Value, int, string, float}
use open_scm.Vm.Floats.{FloatOps}

abbrev pub is_float : Value → Bool
is_float (float f) = true
is_float _ = false

abbrev pub is_string : Value → Bool
is_string (string s) = true
is_string _ = false

-- The sign of `(x > y) - (x < y)`.
unfoldable pub int_sign : ℕ → ℕ → Sign
int_sign x y = if slt y x then more else if slt x y then less else same

module _ (fl : FloatOps) where
  unfoldable pub value_to_int : Value → ℕ
  value_to_int (int i) = i
  value_to_int (float f) = fl.to_int f
  value_to_int (string s) = atoi s

  unfoldable pub value_to_float : Value → ℕ
  value_to_float (float f) = f
  value_to_float (int i) = fl.of_int i
  value_to_float (string s) = fl.parse s

  unfoldable pub float_sign : ℕ → ℕ → Sign
  float_sign x y = if fl.lt y x then more else if fl.lt x y then less else same

  -- What is left of the two comparisons once a pair of strings is dealt with.
  unfoldable pub numbers_equal : Value → Value → Bool
  unfolding value_to_int value_to_float
  numbers_equal a b =
      if is_float a || is_float b
      then fl.eq (value_to_float a) (value_to_float b)
      else value_to_int a == value_to_int b

  unfoldable pub numbers_compare : Value → Value → Sign
  unfolding value_to_int value_to_float float_sign int_sign
  numbers_compare a b =
      if is_float a || is_float b
      then float_sign (value_to_float a) (value_to_float b)
      else int_sign (value_to_int a) (value_to_int b)

  unfoldable pub values_equal : Value → Value → Bool
  unfolding numbers_equal
  values_equal (string s) (string t) = text_eq s t
  values_equal a b = numbers_equal a b

  unfoldable pub values_compare : Value → Value → Sign
  unfolding numbers_compare
  values_compare (string s) (string t) = strcmp s t
  values_compare a b = numbers_compare a b

  -- The buffers that the source prints a number into are long enough for "%d" and "%g".
  unfoldable pub value_to_cstr : Value → Text
  value_to_cstr (string s) = s
  value_to_cstr (float f) = fl.print f
  value_to_cstr (int i) = print_int i
