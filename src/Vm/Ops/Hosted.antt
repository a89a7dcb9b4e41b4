-- ===== src/Vm/Ops/Hosted.antt =====
-- Calls into the host program: native functions, module resolvers, and the instructions that go
-- through them. What a host function does is a parameter, its effect on the machine included.
pub mod Registry
use mathlib.Core.Option
use open_scm.Prelude.{
  ℕ, Bool, true, false, ◌||◌, List, [], ◌∷◌, ◌++◌, Option, none, some, map, ◌==◌, leb,
  if◌then◌else◌, length, drop,
}
use open_scm.Prelude.Text.{Text, text_eq, codes}
use open_scm.Vm.{Value, NativeFunc, NativeModule, Vm, native_funcs_max, native_modules_max}
use open_scm.Vm.Floats.{FloatOps}
use open_scm.Vm.Events.{bind_event, trigger_event}
use open_scm.Vm.Vars.{set_var}
use open_scm.Vm.Decode.{DecOp}
use open_scm.Vm.Outcome.{
  Message, native_call_failed, wait_unresolved, file_read_unresolved, file_write_unresolved,
  entity_spawn_unresolved, input_unresolved, event_registry_full, event_queue_full, Outcome, next,
  fail_at, fail,
}
use open_scm.Vm.Ops.{arg, op_int, op_text, eval, assign}
use open_scm.Vm.Ops.Texts.{eval_text}

-- What a host function returns: whether it succeeded, what it left in `*ret`, and the machine.
pub record HostReply : Type 0 where
  pub success : Bool
  pub ret : Value
  pub vm : Vm

-- The functions behind the pointers that the host registers. The numbers are the pointer and the
-- `user_data`; a resolver also gets the name of the function.
pub record Host : Type 0 where
  pub call : ℕ → ℕ → Vm → List Value → HostReply
  pub resolve : ℕ → ℕ → Vm → Text → List Value → HostReply

-- `native_find` and `module_find`.
unfoldable pub native_find : List NativeFunc → Text → Option NativeFunc
native_find [] name = none
native_find (f ∷ natives) name =
    let rest = native_find natives name in if text_eq f.name name then some f else rest

unfoldable pub module_find : List NativeModule → Text → Option NativeModule
module_find [] name = none
module_find (m ∷ modules) name =
    let rest = module_find modules name in if text_eq m.name name then some m else rest

-- What stands before and behind the first dot.
unfoldable pub split_dot : Text → Option (Text × Text)
split_dot [] = none
split_dot (c ∷ s) =
    let rest = Option.map (λ p. (c ∷ p.0, p.1)) (split_dot s) in
    if c == b'.' then some ([], s) else rest

abbrev pub is_empty {ℓ} : {A : Type ℓ} → List A → Bool
is_empty [] = true
is_empty (x ∷ xs) = false

unfoldable pub no_reply : Vm → HostReply
no_reply vm = record { success = false; ret = Value.int 0; vm = vm }

unfoldable pub resolve_in : Host → Vm → Text → Text → List Value → HostReply
resolve_in host vm prefix function args = elim (module_find vm.modules prefix) [
  | none ↦ no_reply vm
  | some m ↦
      if m.resolver == 0 then no_reply vm else host.resolve m.resolver m.user_data vm function args
]

-- `scml_vm_call_native`. The module's name is copied into 64 bytes.
unfoldable pub call_native : Host → Vm → Text → List Value → HostReply
call_native host vm name args = elim (split_dot name) [
  | none ↦ no_reply vm
  | some (prefix, function) ↦
      if is_empty prefix || is_empty function || leb 64 (length prefix)
      then no_reply vm
      else resolve_in host vm prefix function args
]

-- `set_var(vm, "$RETVAL", …)`.
unfoldable pub set_retval : Vm → Value → Vm
set_retval vm x = Option.get_or (set_var vm (codes "$RETVAL") x) vm

-- The values of the operands behind the first.
unfoldable pub call_args : Vm → List DecOp → List Value
call_args vm ops = map (eval vm) (drop 1 ops)

-- The outcome of a call whose result goes into `$RETVAL`.
unfoldable pub return_reply : ℕ → HostReply → Outcome
return_reply pc r =
    if r.success then next (set_retval r.vm r.ret) else fail_at pc native_call_failed r.vm

-- A native function of that name, or else a module's. A null name finds nothing.
unfoldable pub call_named : Host → Vm → Option Text → List Value → HostReply
call_named host vm none args = no_reply vm
call_named host vm (some name) args = elim (native_find vm.natives name) [
  | none ↦ call_native host vm name args
  | some f ↦ if f.fn == 0 then call_native host vm name args else host.call f.fn f.user_data vm args
]

module _ (host : Host) (pc : ℕ) (ops : List DecOp) (vm : Vm) where
  -- CALL with anything but an address.
  unfoldable pub exec_call_name : Outcome
  exec_call_name = return_reply pc (call_named host vm (op_text (arg ops 0)) (call_args vm ops))

  unfoldable pub exec_call_native : Outcome
  exec_call_native =
      return_reply pc
        (call_native host vm (Option.get_or (op_text (arg ops 0)) []) (call_args vm ops))

  -- The result goes nowhere, or into the variable of an operand.
  unfoldable pub call_service : Text → List Value → Message → (HostReply → Outcome) → Outcome
  call_service name args message k =
      let r = call_native host vm name args in if r.success then k r else fail_at pc message r.vm

  unfoldable pub exec_wait : Outcome
  exec_wait =
      call_service (codes "runtime.wait") (eval vm (arg ops 0) ∷ []) wait_unresolved
        (λ r. next r.vm)

  unfoldable pub exec_file_read : Outcome
  exec_file_read =
      call_service (codes "file.read") (eval vm (arg ops 0) ∷ []) file_read_unresolved
        (λ r. assign r.vm (arg ops 1) r.ret)

  unfoldable pub exec_file_write : Outcome
  exec_file_write =
      call_service (codes "file.write") (eval vm (arg ops 0) ∷ eval vm (arg ops 1) ∷ [])
        file_write_unresolved (λ r. next r.vm)

  unfoldable pub exec_entity_spawn : Outcome
  exec_entity_spawn =
      call_service (codes "gpu.entity_spawn")
        (eval vm (arg ops 0) ∷ eval vm (arg ops 1) ∷ eval vm (arg ops 2) ∷ eval vm (arg ops 3) ∷ [])
        entity_spawn_unresolved (λ r. assign r.vm (arg ops 4) r.ret)

  unfoldable pub exec_input : Outcome
  exec_input =
      call_service (codes "input.read") (eval vm (arg ops 0) ∷ []) input_unresolved
        (λ r. assign r.vm (arg ops 1) r.ret)

module _ (fl : FloatOps) (pc : ℕ) (ops : List DecOp) (vm : Vm) where
  unfoldable pub exec_event_bind : Outcome
  exec_event_bind = elim (bind_event vm (eval_text fl vm (arg ops 0)) (op_int (arg ops 1))) [
    | none ↦ fail_at pc event_registry_full vm
    | some vm' ↦ next vm'
  ]

  -- The message of `scml_vm_trigger_event` has no line.
  unfoldable pub exec_event_trigger : Outcome
  exec_event_trigger = elim (trigger_event vm (eval_text fl vm (arg ops 0))) [
    | none ↦ fail event_queue_full vm
    | some vm' ↦ next vm'
  ]

-- `scml_vm_register_function` and `scml_vm_register_module`, and the removal of a module. `none` is
-- a return of 0; a null name is not modelled.
unfoldable pub replace_native : List NativeFunc → NativeFunc → List NativeFunc
replace_native [] new = []
replace_native (f ∷ natives) new =
    let rest = f ∷ replace_native natives new in
    if text_eq f.name new.name then new ∷ natives else rest

unfoldable pub register_function : Vm → Text → ℕ → ℕ → Option Vm
register_function vm name fn user_data =
    let new : NativeFunc = record { name = name; fn = fn; user_data = user_data } in
    if fn == 0 then none else elim (native_find vm.natives name) [
      | some _ ↦ some (record vm { natives = replace_native vm.natives new })
      | none ↦
          if leb native_funcs_max (length vm.natives)
          then none
          else some (record vm { natives = vm.natives ++ new ∷ [] })
    ]

unfoldable pub replace_module : List NativeModule → NativeModule → List NativeModule
replace_module [] new = []
replace_module (m ∷ modules) new =
    let rest = m ∷ replace_module modules new in
    if text_eq m.name new.name then new ∷ modules else rest

unfoldable pub register_module : Vm → Text → ℕ → ℕ → Option Vm
register_module vm name resolver user_data =
    let new : NativeModule = record { name = name; resolver = resolver; user_data = user_data } in
    if resolver == 0 then none else elim (module_find vm.modules name) [
      | some _ ↦ some (record vm { modules = replace_module vm.modules new })
      | none ↦
          if leb native_modules_max (length vm.modules)
          then none
          else some (record vm { modules = vm.modules ++ new ∷ [] })
    ]

unfoldable pub remove_module : List NativeModule → Text → Option (List NativeModule)
remove_module [] name = none
remove_module (m ∷ modules) name =
    let rest = Option.map (λ ms. m ∷ ms) (remove_module modules name) in
    if text_eq m.name name then some modules else rest

unfoldable pub unregister_module : Vm → Text → Option Vm
unregister_module vm name =
    Option.map (λ ms. record vm { modules = ms }) (remove_module vm.modules name)
