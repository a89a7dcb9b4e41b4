-- ===== src/Vm/Ops/Texts.antt =====
-- Strings.
use open_scm.Prelude.{
  ℕ, zero, suc, ◌-◌, ◌%◌, ◌^◌, List, [], ◌++◌, if◌then◌else◌, length, take, drop, min,
}
use open_scm.Prelude.Text.{Text}
use open_scm.Prelude.Word.{is_neg}
use open_scm.Vm.{Value, Vm}
use open_scm.Vm.Floats.{FloatOps}
use open_scm.Vm.Values.{value_to_cstr}
use open_scm.Vm.Decode.{DecOp}
use open_scm.Vm.Outcome.{Outcome}
use open_scm.Vm.Ops.{arg, eval, eval_int, assign}

-- A negative number counts as 0.
unfoldable pub clamp_neg : ℕ → ℕ
clamp_neg w = if is_neg w then 0 else w

unfoldable pub repeat_text : ℕ → Text → Text
repeat_text zero s = []
repeat_text (suc n) s = s ++ repeat_text n s

-- The part of the string from `start` on, `len` bytes long, both cut down to what there is.
unfoldable pub substr : Text → ℕ → ℕ → Text
substr s start len =
    let start_index = min (clamp_neg start) (length s) in
    take (min (clamp_neg len) (length s - start_index)) (drop start_index s)

module _ (fl : FloatOps) where
  -- `value_to_cstr` of an operand.
  unfoldable pub eval_text : Vm → DecOp → Text
  eval_text vm o = value_to_cstr fl (eval vm o)

  unfoldable pub exec_str_repeat : List DecOp → Vm → Outcome
  exec_str_repeat ops vm = assign vm (arg ops 0) (
      Value.string
        (repeat_text (clamp_neg (eval_int fl vm (arg ops 2))) (eval_text vm (arg ops 1))))

  unfoldable pub exec_strcat : List DecOp → Vm → Outcome
  exec_strcat ops vm =
      assign vm (arg ops 0) (Value.string (eval_text vm (arg ops 1) ++ eval_text vm (arg ops 2)))

  -- `(int32_t)strlen`.
  unfoldable pub exec_strlen : List DecOp → Vm → Outcome
  exec_strlen ops vm =
      assign vm (arg ops 0) (Value.int (length (eval_text vm (arg ops 1)) % 2 ^ 32))

  unfoldable pub exec_substr : List DecOp → Vm → Outcome
  exec_substr ops vm = assign vm (arg ops 0) (
      Value.string (
        substr (eval_text vm (arg ops 1)) (eval_int fl vm (arg ops 2))
          (eval_int fl vm (arg ops 3))))
