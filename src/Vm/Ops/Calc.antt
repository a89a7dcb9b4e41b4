-- ===== src/Vm/Ops/Calc.antt =====
-- Arithmetic, bits, mathematical functions and conversions.
use open_scm.Prelude.{
  ℕ, ◌^◌, ◌-◌, Bool, true, false, not, ◌&&◌, ◌||◌, List, ◌==◌, leb, if◌then◌else◌,
}
use open_scm.Prelude.Word.{
  is_neg, add32, sub32, mul32, div32, mod32, and32, or32, xor32, shl32, shr32, not32,
}
use open_scm.Opcode.{
  Opcode, add, sub, mul, div, modulo, bit_and, bit_or, bit_xor, shl, sin, cos, tan, sqrt, floor,
  ceil, round,
}
use open_scm.Vm.{Value, Vm}
use open_scm.Vm.Floats.{FloatOps}
use open_scm.Vm.Values.{is_float, value_to_int, value_to_float}
use open_scm.Vm.Decode.{DecOp}
use open_scm.Vm.Outcome.{
  division_by_zero, mod_by_zero, sqrt_domain_error, invalid_shift_count, Outcome,
}
use open_scm.Vm.Ops.{arg, eval, eval_int, assign, Computed, value, refused, no_value, conclude}

-- INT_MIN / -1, whose quotient is no `int`.
abbrev pub quotient_overflows : ℕ → ℕ → Bool
quotient_overflows x y = x == 2 ^ 31 && y == 2 ^ 32 - 1

-- (MOD is the last case of the source.)
unfoldable pub int_arith : Opcode → ℕ → ℕ → Computed ℕ
int_arith add x y = value (add32 x y)
int_arith sub x y = value (sub32 x y)
int_arith mul x y = value (mul32 x y)
int_arith div x y =
    if y == 0
    then refused division_by_zero
    else if quotient_overflows x y
    then no_value
    else value (div32 x y)
int_arith _ x y =
    if y == 0
    then refused mod_by_zero
    else if quotient_overflows x y
    then no_value
    else value (mod32 x y)

abbrev is_mod : Opcode → Bool
is_mod modulo = true
is_mod _ = false

-- The shifts want a count below 31. (SHR is the last case of the source.)
unfoldable pub int_bits : Opcode → ℕ → ℕ → Computed ℕ
int_bits bit_and x y = value (and32 x y)
int_bits bit_or x y = value (or32 x y)
int_bits bit_xor x y = value (xor32 x y)
int_bits shl x y = if is_neg y || leb 31 y then refused invalid_shift_count else value (shl32 x y)
int_bits _ x y = if is_neg y || leb 31 y then refused invalid_shift_count else value (shr32 x y)

module _ (fl : FloatOps) where
  unfoldable pub float_arith : Opcode → ℕ → ℕ → Computed ℕ
  float_arith add x y = value (fl.add x y)
  float_arith sub x y = value (fl.sub x y)
  float_arith mul x y = value (fl.mul x y)
  float_arith div x y =
      if fl.eq y fl.zero_bits then refused division_by_zero else value (fl.div x y)
  float_arith _ x y = value fl.zero_bits

  unfoldable pub exec_arith : ℕ → Opcode → List DecOp → Vm → Outcome
  exec_arith pc op ops vm =
      let a = eval vm (arg ops 1) in
      let b = eval vm (arg ops 2) in
      if (is_float a || is_float b) && not (is_mod op)
      then conclude pc vm (float_arith op (value_to_float fl a) (value_to_float fl b))
          (λ r. assign vm (arg ops 0) (Value.float r))
      else conclude pc vm (int_arith op (value_to_int fl a) (value_to_int fl b))
          (λ r. assign vm (arg ops 0) (Value.int r))

  unfoldable pub exec_bits : ℕ → Opcode → List DecOp → Vm → Outcome
  exec_bits pc op ops vm =
      conclude pc vm (int_bits op (eval_int fl vm (arg ops 1)) (eval_int fl vm (arg ops 2)))
        (λ r. assign vm (arg ops 0) (Value.int r))

  unfoldable pub exec_bit_not : List DecOp → Vm → Outcome
  exec_bit_not ops vm = assign vm (arg ops 0) (Value.int (not32 (eval_int fl vm (arg ops 1))))

  -- (ABS is the last case of the source.)
  unfoldable pub float_function : Opcode → ℕ → Computed ℕ
  float_function sin x = value (fl.sin x)
  float_function cos x = value (fl.cos x)
  float_function tan x = value (fl.tan x)
  float_function sqrt x =
      if fl.lt x fl.zero_bits then refused sqrt_domain_error else value (fl.sqrt x)
  float_function floor x = value (fl.floor x)
  float_function ceil x = value (fl.ceil x)
  float_function round x = value (fl.round x)
  float_function _ x = value (fl.abs x)

  unfoldable pub exec_math : ℕ → Opcode → List DecOp → Vm → Outcome
  exec_math pc op ops vm =
      conclude pc vm (float_function op (value_to_float fl (eval vm (arg ops 1))))
        (λ r. assign vm (arg ops 0) (Value.float r))

  unfoldable pub exec_atan2 : List DecOp → Vm → Outcome
  exec_atan2 ops vm = assign vm (arg ops 0) (
      Value.float (
        fl.atan2 (value_to_float fl (eval vm (arg ops 1)))
          (value_to_float fl (eval vm (arg ops 2)))))

  unfoldable pub exec_pow : List DecOp → Vm → Outcome
  exec_pow ops vm = assign vm (arg ops 0) (
      Value.float (
        fl.pow (value_to_float fl (eval vm (arg ops 1))) (value_to_float fl (eval vm (arg ops 2)))))

  unfoldable pub exec_to_int : List DecOp → Vm → Outcome
  exec_to_int ops vm = assign vm (arg ops 0) (Value.int (eval_int fl vm (arg ops 1)))

  unfoldable pub exec_to_float : List DecOp → Vm → Outcome
  exec_to_float ops vm =
      assign vm (arg ops 0) (Value.float (value_to_float fl (eval vm (arg ops 1))))
