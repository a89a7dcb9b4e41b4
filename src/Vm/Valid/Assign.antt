-- ===== src/Vm/Valid/Assign.antt =====
-- The instructions that compute a value and put it into a variable keep the bounds, and so do those
-- whose output is fixed.
use open_scm.Prelude.{ℕ, List}
use open_scm.Vm.{Vm}
use open_scm.Vm.Floats.{FloatOps}
use open_scm.Vm.Decode.{DecOp}
use open_scm.Vm.Ops.Flow.{exec_push_int, exec_push_str, exec_load}
use open_scm.Vm.Ops.Calc.{exec_bit_not, exec_pow, exec_atan2, exec_to_int, exec_to_float}
use open_scm.Vm.Ops.Texts.{exec_strlen, exec_strcat, exec_substr, exec_str_repeat}
use open_scm.Vm.Ops.Console.{exec_console_clear, exec_console_reset, exec_console_erase_line}
use open_scm.Vm.Valid.{IsValid, Keeps}
use open_scm.Vm.Valid.Handlers.{assign-Keeps, push-Keeps}
use open_scm.Vm.Valid.Objects.{write-Keeps}

pub exec_bit_not-Keeps :
    (fl : FloatOps) (ops : List DecOp) (vm : Vm) → IsValid vm → Keeps (exec_bit_not fl ops vm)
unfolding exec_bit_not
exec_bit_not-Keeps fl ops vm v = assign-Keeps vm _ _ v

pub exec_pow-Keeps :
    (fl : FloatOps) (ops : List DecOp) (vm : Vm) → IsValid vm → Keeps (exec_pow fl ops vm)
unfolding exec_pow
exec_pow-Keeps fl ops vm v = assign-Keeps vm _ _ v

pub exec_atan2-Keeps :
    (fl : FloatOps) (ops : List DecOp) (vm : Vm) → IsValid vm → Keeps (exec_atan2 fl ops vm)
unfolding exec_atan2
exec_atan2-Keeps fl ops vm v = assign-Keeps vm _ _ v

pub exec_to_int-Keeps :
    (fl : FloatOps) (ops : List DecOp) (vm : Vm) → IsValid vm → Keeps (exec_to_int fl ops vm)
unfolding exec_to_int
exec_to_int-Keeps fl ops vm v = assign-Keeps vm _ _ v

pub exec_to_float-Keeps :
    (fl : FloatOps) (ops : List DecOp) (vm : Vm) → IsValid vm → Keeps (exec_to_float fl ops vm)
unfolding exec_to_float
exec_to_float-Keeps fl ops vm v = assign-Keeps vm _ _ v

pub exec_strlen-Keeps :
    (fl : FloatOps) (ops : List DecOp) (vm : Vm) → IsValid vm → Keeps (exec_strlen fl ops vm)
unfolding exec_strlen
exec_strlen-Keeps fl ops vm v = assign-Keeps vm _ _ v

pub exec_strcat-Keeps :
    (fl : FloatOps) (ops : List DecOp) (vm : Vm) → IsValid vm → Keeps (exec_strcat fl ops vm)
unfolding exec_strcat
exec_strcat-Keeps fl ops vm v = assign-Keeps vm _ _ v

pub exec_substr-Keeps :
    (fl : FloatOps) (ops : List DecOp) (vm : Vm) → IsValid vm → Keeps (exec_substr fl ops vm)
unfolding exec_substr
exec_substr-Keeps fl ops vm v = assign-Keeps vm _ _ v

pub exec_str_repeat-Keeps :
    (fl : FloatOps) (ops : List DecOp) (vm : Vm) → IsValid vm → Keeps (exec_str_repeat fl ops vm)
unfolding exec_str_repeat
exec_str_repeat-Keeps fl ops vm v = assign-Keeps vm _ _ v

module _ (pc : ℕ) (vm : Vm) (v : IsValid vm) where
  pub exec_push_int-Keeps : (ops : List DecOp) → Keeps (exec_push_int pc ops vm)
  unfolding exec_push_int
  exec_push_int-Keeps ops = push-Keeps pc vm v _

  pub exec_push_str-Keeps : (ops : List DecOp) → Keeps (exec_push_str pc ops vm)
  unfolding exec_push_str
  exec_push_str-Keeps ops = push-Keeps pc vm v _

  pub exec_load-Keeps : (ops : List DecOp) → Keeps (exec_load pc ops vm)
  unfolding exec_load
  exec_load-Keeps ops = push-Keeps pc vm v _

  pub exec_console_clear-Keeps :
      (fl : FloatOps) (ops : List DecOp) → Keeps (exec_console_clear fl pc ops vm)
  unfolding exec_console_clear
  exec_console_clear-Keeps fl ops = write-Keeps pc vm v _

  pub exec_console_reset-Keeps :
      (fl : FloatOps) (ops : List DecOp) → Keeps (exec_console_reset fl pc ops vm)
  unfolding exec_console_reset
  exec_console_reset-Keeps fl ops = write-Keeps pc vm v _

  pub exec_console_erase_line-Keeps :
      (fl : FloatOps) (ops : List DecOp) → Keeps (exec_console_erase_line fl pc ops vm)
  unfolding exec_console_erase_line
  exec_console_erase_line-Keeps fl ops = write-Keeps pc vm v _
