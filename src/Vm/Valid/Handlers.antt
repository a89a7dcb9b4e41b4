-- ===== src/Vm/Valid/Handlers.antt =====
-- Each case of the switch keeps the bounds.
use mathlib.Core.Option
use open_scm.Prelude.{
  ℕ, ◌≡◌, refl, Bool, true, false, List, [], ◌∷◌, arith, if◌then◌else◌, length, leb, Option-cases,
  Bool-cases, inl, inr,
}
use open_scm.Opcode.{Opcode}
use open_scm.Vm.{Value, CallFrame, Vm, stack_max, call_stack_max}
use open_scm.Vm.Floats.{FloatOps}
use open_scm.Vm.Vars.{set_var, inner_table}
use open_scm.Vm.Decode.{DecOp}
use open_scm.Vm.Outcome.{Message, Outcome, next, undefined, fail_at, fail}
use open_scm.Vm.Ops.{
  arg, op_text, eval, assign, assign_null, Computed, value, refused, no_value, conclude,
}
use open_scm.Vm.Ops.Flow.{jump, exec_jmp, exec_if, exec_call_address, exec_return, push, exec_store}
use open_scm.Vm.Ops.Calc.{exec_arith, exec_bits, exec_math}
use open_scm.Vm.Valid.{IsValid, Keeps, next_keeps, failed_keeps, undefined_keeps}
use open_scm.Vm.Valid.Parts.{set_var-IsValid, set_var_or-IsValid}

pub fail_at-Keeps : (pc : ℕ) (m : Message) (vm : Vm) → IsValid vm → Keeps (fail_at pc m vm)
unfolding fail_at
fail_at-Keeps pc m vm v = failed_keeps _ vm v

pub fail-Keeps : (m : Message) (vm : Vm) → IsValid vm → Keeps (fail m vm)
unfolding fail
fail-Keeps m vm v = failed_keeps _ vm v

pub if-Keeps : (b : Bool) {x y : Outcome} → Keeps x → Keeps y → Keeps (if b then x else y)
if-Keeps true hx hy = hx
if-Keeps false hx hy = hy

pub assign_null-Keeps : (vm : Vm) (x : Value) → IsValid vm → Keeps (assign_null vm x)
unfolding assign_null
assign_null-Keeps vm x v =
    elim (inner_table vm.calls vm.globals)
      as (λ t.
        Keeps (elim t [ [] ↦ next (Option.get_or (set_var vm [] x) vm) | _ ∷ _ ↦ undefined ])) [
          | [] ↦ next_keeps _ (set_var_or-IsValid vm [] x v)
          | _ ∷ _ ↦ undefined_keeps
        ]

pub assign-Keeps : (vm : Vm) (o : DecOp) (x : Value) → IsValid vm → Keeps (assign vm o x)
unfolding assign
assign-Keeps vm o x v = elim (Option-cases (op_text o)) [
  | inl null ↦ rw (null, assign) (assign_null-Keeps vm x v)
  | inr (name, there) ↦ rw (there, assign) (next_keeps _ (set_var_or-IsValid vm name x v))
]

pub conclude-Keeps :
    {A : Type 0} (pc : ℕ) (vm : Vm) (c : Computed A) {k : A → Outcome}
    → IsValid vm
    → ((a : A) → Keeps (k a))
    → Keeps (conclude pc vm c k)
unfolding conclude
conclude-Keeps pc vm (value a) v h = h a
conclude-Keeps pc vm (refused m) v h = fail_at-Keeps pc m vm v
conclude-Keeps pc vm no_value v h = undefined_keeps

module _ (pc : ℕ) (vm : Vm) (v : IsValid vm) where
  pub push-Keeps : (x : Value) → Keeps (push pc x vm)
  unfolding push
  push-Keeps x = elim (Bool-cases (leb stack_max (length vm.stack))) [
    | inl full ↦ rw full (fail_at-Keeps pc _ vm v)
    | inr room ↦ rw room (next_keeps _ (ground arith))
  ]

  pub exec_call_address-Keeps : (target : ℕ) → Keeps (exec_call_address pc target vm)
  unfolding exec_call_address
  exec_call_address-Keeps target = elim (Bool-cases (leb call_stack_max (length vm.calls))) [
    | inl full ↦ rw full (fail_at-Keeps pc _ vm v)
    | inr room ↦ rw room (next_keeps _ (ground arith))
  ]

  return_at : (calls : List CallFrame) → vm.calls ≡ calls → Keeps (exec_return pc vm)
  unfolding exec_return
  return_at [] c = rw (c, exec_return) (fail_at-Keeps pc _ vm v)
  return_at (frame ∷ frames) c = rw (c, exec_return) (next_keeps _ (ground arith))

  pub exec_return-Keeps : Keeps (exec_return pc vm)
  exec_return-Keeps = return_at vm.calls refl

  module _ (ops : List DecOp) where
    pub exec_store-Keeps : Keeps (exec_store pc ops vm)
    unfolding exec_store
    exec_store-Keeps = elim (Option-cases (op_text (arg ops 0))) [
      | inl null ↦ rw (null, exec_store) (assign_null-Keeps vm _ v)
      | inr (name, there) ↦ elim (Option-cases (set_var vm name (eval vm (arg ops 1)))) [
        | inl full ↦ rw (there, exec_store, full) (fail_at-Keeps pc _ vm v)
        | inr (vm', made) ↦
            rw (there, exec_store, made) (next_keeps _ (set_var-IsValid vm name _ v made))
      ]
    ]

    pub exec_jmp-Keeps : Keeps (exec_jmp ops vm)
    unfolding exec_jmp jump
    exec_jmp-Keeps = next_keeps _ v

    pub exec_if-Keeps : (fl : FloatOps) (op : Opcode) → Keeps (exec_if fl op ops vm)
    unfolding exec_if jump
    exec_if-Keeps fl op = if-Keeps _ (next_keeps _ v) (next_keeps _ v)

    pub exec_arith-Keeps : (fl : FloatOps) (op : Opcode) → Keeps (exec_arith fl pc op ops vm)
    unfolding exec_arith
    exec_arith-Keeps fl op =
        if-Keeps _ (conclude-Keeps pc vm _ v (λ r. assign-Keeps vm (arg ops 0) _ v))
          (conclude-Keeps pc vm _ v (λ r. assign-Keeps vm (arg ops 0) _ v))

    pub exec_bits-Keeps : (fl : FloatOps) (op : Opcode) → Keeps (exec_bits fl pc op ops vm)
    unfolding exec_bits
    exec_bits-Keeps fl op = conclude-Keeps pc vm _ v (λ r. assign-Keeps vm (arg ops 0) _ v)

    pub exec_math-Keeps : (fl : FloatOps) (op : Opcode) → Keeps (exec_math fl pc op ops vm)
    unfolding exec_math
    exec_math-Keeps fl op = conclude-Keeps pc vm _ v (λ r. assign-Keeps vm (arg ops 0) _ v)
