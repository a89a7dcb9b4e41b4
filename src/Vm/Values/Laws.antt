-- ===== src/Vm/Values/Laws.antt =====
-- The two comparisons agree, and an integer survives its way through text.
use open_scm.Prelude.{ℕ, ◌^◌, ◌<◌, ◌≡◌, ◌↔◌, true, false, [], ◌∷◌, arith, ◌==◌}
use open_scm.Prelude.Text.{Text, text_eq, strcmp, same}
use open_scm.Prelude.Decimal.{atoi, atoi-print_int, skip_spaces, read_signed}
use open_scm.Vm.{Value, int, string, float}
use open_scm.Vm.Floats.{FloatOps}
use open_scm.Vm.Values.{
  is_float, int_sign, value_to_int, value_to_cstr, numbers_equal, numbers_compare, values_equal,
  values_compare,
}

-- An integer that is turned into text is read back as the same number, for all 32-bit patterns.
pub value_to_int-value_to_cstr :
    (fl : FloatOps) (w : ℕ) → w < 2 ^ 32 → value_to_int fl (string (value_to_cstr fl (int w))) ≡ w
unfolding value_to_int value_to_cstr
value_to_int-value_to_cstr fl w small = atoi-print_int w small

-- Integers are 32-bit patterns.
abbrev pub IsWord : Value → Type 0
IsWord (int i) = i < 2 ^ 32
IsWord _ = Unit

strcmp-same : (s t : Text) → (text_eq s t ≡ true) ↔ (strcmp s t ≡ same)
unfolding strcmp
strcmp-same [] [] = ground arith
strcmp-same [] (y ∷ t) = ground arith
strcmp-same (x ∷ s) [] = ground arith
strcmp-same (x ∷ s) (y ∷ t) = ground (arith, strcmp-same s t)

int_sign-same : (x y : ℕ) → x < 2 ^ 32 → y < 2 ^ 32 → ((x == y) ≡ true) ↔ (int_sign x y ≡ same)
unfolding int_sign
int_sign-same x y hx hy = ground arith

read_signed-small : (s : Text) → read_signed s < 2 ^ 32
unfolding read_signed
read_signed-small [] = omega arith
read_signed-small (c ∷ s) = ground arith

atoi-small : (s : Text) → atoi s < 2 ^ 32
unfolding atoi
atoi-small s = read_signed-small (skip_spaces s)

-- On values that are no floats, with integers of 32 bits, IF_EQ's test and the three-way
-- comparison of the other branches agree, also for a string and an integer.
pub values_equal-values_compare :
    (fl : FloatOps) (a b : Value)
    → is_float a ≡ false
    → is_float b ≡ false
    → IsWord a
    → IsWord b
    → (values_equal fl a b ≡ true) ↔ (values_compare fl a b ≡ same)
unfolding values_equal values_compare numbers_equal numbers_compare value_to_int
values_equal-values_compare fl (string s) (string t) fa fb wa wb = strcmp-same s t
values_equal-values_compare fl (string s) (int j) fa fb wa wb =
    int_sign-same (atoi s) j (atoi-small s) wb
values_equal-values_compare fl (int i) (string t) fa fb wa wb =
    int_sign-same i (atoi t) wa (atoi-small t)
values_equal-values_compare fl (int i) (int j) fa fb wa wb = int_sign-same i j wa wb
values_equal-values_compare fl (float f) b fa fb wa wb = ground arith
values_equal-values_compare fl (int i) (float f) fa fb wa wb = ground arith
values_equal-values_compare fl (string s) (float f) fa fb wa wb = ground arith
