-- ===== src/Vm/Floats.antt =====
-- What the machine takes from the floating-point unit and from <math.h>. A `float` is its 32 bits,
-- and every operation is a parameter.
use open_scm.Prelude.{ℕ, Bool}
use open_scm.Prelude.Text.{Text}

pub record FloatOps : Type 0 where
  -- The casts `(float)i` and `(int)f`, from and to the bit pattern of an `int32_t`.
  pub of_int : ℕ → ℕ
  pub to_int : ℕ → ℕ
  pub zero_bits : ℕ
  pub add : ℕ → ℕ → ℕ
  pub sub : ℕ → ℕ → ℕ
  pub mul : ℕ → ℕ → ℕ
  pub div : ℕ → ℕ → ℕ
  pub eq : ℕ → ℕ → Bool
  pub lt : ℕ → ℕ → Bool
  pub sin : ℕ → ℕ
  pub cos : ℕ → ℕ
  pub tan : ℕ → ℕ
  pub sqrt : ℕ → ℕ
  pub floor : ℕ → ℕ
  pub ceil : ℕ → ℕ
  pub round : ℕ → ℕ
  pub abs : ℕ → ℕ
  pub atan2 : ℕ → ℕ → ℕ
  pub pow : ℕ → ℕ → ℕ
  -- `(float)atof(s)` and "%g".
  pub parse : Text → ℕ
  pub print : ℕ → Text
