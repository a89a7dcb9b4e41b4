-- ===== src/Vm/Ops/Flow.antt =====
-- Jumps, calls, the stack and assignment.
use mathlib.Core.Option
use open_scm.Prelude.{
  ℕ, Bool, true, false, not, List, [], ◌∷◌, none, some, leb, if◌then◌else◌, length,
}
use open_scm.Prelude.Text.{Sign, less, more}
use open_scm.Prelude.Word.{to_size}
use open_scm.Opcode.{Opcode, if_eq, if_ne, if_gt, if_lt, if_ge}
use open_scm.Vm.{Value, Vm, stack_max, call_stack_max}
use open_scm.Vm.Floats.{FloatOps}
use open_scm.Vm.Values.{values_equal, values_compare}
use open_scm.Vm.Vars.{set_var}
use open_scm.Vm.Decode.{DecOp}
use open_scm.Vm.Outcome.{
  return_without_call, call_stack_overflow, stack_overflow, variable_table_full, Outcome, next,
  fail_at,
}
use open_scm.Vm.Ops.{arg, op_int, op_text, eval, assign_null}

-- `vm->pc = (size_t)i`.
unfoldable pub jump : Vm → ℕ → Vm
jump vm i = record vm { pc = to_size i }

unfoldable pub exec_jmp : List DecOp → Vm → Outcome
exec_jmp ops vm = next (jump vm (op_int (arg ops 0)))

-- Whether the branch is taken. (IF_LE is the last case of the source.)
unfoldable pub takes : Opcode → Bool → Sign → Bool
takes if_eq eq cmp = eq
takes if_ne eq cmp = not eq
takes if_gt eq cmp = elim cmp [ more ↦ true | _ ↦ false ]
takes if_lt eq cmp = elim cmp [ less ↦ true | _ ↦ false ]
takes if_ge eq cmp = elim cmp [ less ↦ false | _ ↦ true ]
takes _ eq cmp = elim cmp [ more ↦ false | _ ↦ true ]

unfoldable pub exec_if : FloatOps → Opcode → List DecOp → Vm → Outcome
exec_if fl op ops vm =
    let a = eval vm (arg ops 0) in
    let b = eval vm (arg ops 1) in
    if takes op (values_equal fl a b) (values_compare fl a b)
    then next (jump vm (op_int (arg ops 2)))
    else next vm

-- CALL with an address.
unfoldable pub exec_call_address : ℕ → ℕ → Vm → Outcome
exec_call_address pc target vm =
    if leb call_stack_max (length vm.calls)
    then fail_at pc call_stack_overflow vm
    else next (record vm {
      calls = record { return_pc = vm.pc; locals = [] } ∷ vm.calls;
      pc = to_size target;
    })

unfoldable pub exec_return : ℕ → Vm → Outcome
exec_return pc vm = elim vm.calls [
  | [] ↦ fail_at pc return_without_call vm
  | frame ∷ frames ↦ next (record vm { calls = frames; pc = frame.return_pc })
]

-- PUSH_INT, PUSH_STR and LOAD differ in the value.
unfoldable pub push : ℕ → Value → Vm → Outcome
push pc x vm =
    if leb stack_max (length vm.stack)
    then fail_at pc stack_overflow vm
    else next (record vm { stack = x ∷ vm.stack })

unfoldable pub exec_push_int : ℕ → List DecOp → Vm → Outcome
exec_push_int pc ops vm = push pc (Value.int (op_int (arg ops 0))) vm

-- `value_str` makes an empty string of a null pointer.
unfoldable pub exec_push_str : ℕ → List DecOp → Vm → Outcome
exec_push_str pc ops vm = push pc (Value.string (Option.get_or (op_text (arg ops 0)) [])) vm

unfoldable pub exec_load : ℕ → List DecOp → Vm → Outcome
exec_load pc ops vm = push pc (eval vm (arg ops 0)) vm

-- The one write to a variable whose failure is an error.
unfoldable pub exec_store : ℕ → List DecOp → Vm → Outcome
exec_store pc ops vm =
    let x = eval vm (arg ops 1) in
    elim (op_text (arg ops 0)) [
      | none ↦ assign_null vm x
      | some name ↦ elim (set_var vm name x) [
        | none ↦ fail_at pc variable_table_full vm
        | some vm' ↦ next vm'
      ]
    ]
