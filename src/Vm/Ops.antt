-- ===== src/Vm/Ops.antt =====
-- What the instructions of `scml_vm_step` share: operands and their values, and writes to variables.
-- The children hold the cases of the switch.
pub mod Flow
pub mod Calc
pub mod Texts
pub mod Objects
pub mod Console
pub mod Hosted
use mathlib.Core.Option
use open_scm.Prelude.{ℕ, Bool, ◌||◌, List, [], ◌∷◌, Option, none, some, get_or, if◌then◌else◌}
use open_scm.Prelude.Text.{Text}
use open_scm.Prelude.Word.{slt}
use open_scm.Vm.{Value, Vm}
use open_scm.Vm.Floats.{FloatOps}
use open_scm.Vm.Values.{value_to_int}
use open_scm.Vm.Vars.{find_var, set_var, inner_table}
use open_scm.Vm.Decode.{DecOp, absent, int, address, float, string, var}
use open_scm.Vm.Outcome.{Message, variable_table_full, Outcome, next, undefined, fail_at}

-- `ops[i]`: behind the decoded operands the array is zero.
abbrev pub arg : List DecOp → ℕ → DecOp
arg ops i = get_or ops i absent

-- The fields `i` and `s`. A null pointer is `none`.
unfoldable pub op_int : DecOp → ℕ
op_int (int i) = i
op_int (address i) = i
op_int _ = 0

unfoldable pub op_text : DecOp → Option Text
op_text (string s) = some s
op_text (var s) = some s
op_text _ = none

-- `eval`. An operand that is absent would read a variable through a null pointer; the check of the
-- operand count keeps that from happening, and the value here is not used.
unfoldable pub eval : Vm → DecOp → Value
eval vm absent = Value.int 0
eval vm (int i) = Value.int i
eval vm (address i) = Value.int i
eval vm (float f) = Value.float f
eval vm (string s) = Value.string s
eval vm (var s) = Option.get_or (find_var vm s) (Value.int 0)

unfoldable pub eval_int : FloatOps → Vm → DecOp → ℕ
eval_int fl vm o = value_to_int fl (eval vm o)

-- `find_var` with a null name. An empty table is not searched, and a variable with an empty name
-- is made in it; otherwise `strcmp` reads the null pointer.
unfoldable pub assign_null : Vm → Value → Outcome
assign_null vm x = elim (inner_table vm.calls vm.globals) [
  | [] ↦ next (Option.get_or (set_var vm [] x) vm)
  | _ ∷ _ ↦ undefined
]

-- `set_var`, where the instruction does not look at what it returns.
unfoldable pub assign : Vm → DecOp → Value → Outcome
assign vm o x = elim (op_text o) [
  | some name ↦ next (Option.get_or (set_var vm name x) vm)
  | none ↦ assign_null vm x
]

-- The result of a calculation: a value, a refusal, or undefined behaviour.
pub data Computed (A : Type 0) : Type 0 where
  value : A → Computed A
  refused : Message → Computed A
  no_value : Computed A

-- What an instruction does with it.
unfoldable pub conclude : {A : Type 0} → ℕ → Vm → Computed A → (A → Outcome) → Outcome
conclude pc vm (value a) k = k a
conclude pc vm (refused m) k = fail_at pc m vm
conclude pc vm no_value k = undefined

-- `checked_int_arg`, with bounds that are not negative.
unfoldable pub checked_int : ℕ → ℕ → Message → ℕ → Computed ℕ
checked_int low high message x = if slt x low || slt high x then refused message else value x
