-- ===== src/Vm/Valid/Hosted.antt =====
-- Calls into the host and the instructions on events keep the bounds.
use open_scm.Prelude.{
  ℕ, ◌≡◌, Bool-cases, inl, inr, List, Option, none, some, Option-cases, length, ◌||◌, ◌==◌, leb,
}
use open_scm.Prelude.Text.{Text}
use open_scm.Vm.{Value, Vm}
use open_scm.Vm.Floats.{FloatOps}
use open_scm.Vm.Events.{trigger_event}
use open_scm.Vm.Decode.{DecOp}
use open_scm.Vm.Outcome.{Message, Outcome}
use open_scm.Vm.Ops.Hosted.{
  HostReply, Host, native_find, module_find, split_dot, is_empty, no_reply, resolve_in, call_native,
  set_retval, return_reply, call_named, exec_call_name, exec_call_native, call_service, exec_wait,
  exec_file_read, exec_file_write, exec_entity_spawn, exec_input, exec_event_bind,
  exec_event_trigger,
}
use open_scm.Vm.Valid.{IsValid, Keeps, next_keeps, HostKeeps}
use open_scm.Vm.Valid.Parts.{set_var_or-IsValid, bind_event-IsValid, queue_event_handler-IsValid}
use open_scm.Vm.Valid.Handlers.{fail_at-Keeps, fail-Keeps, if-Keeps, assign-Keeps}
use open_scm.Vm.Valid.Objects.{option-Keeps}

module _ (host : Host) (keeps : HostKeeps host) (vm : Vm) (v : IsValid vm) where
  no_reply-IsValid : IsValid (no_reply vm).vm
  unfolding no_reply
  no_reply-IsValid = v

  resolve_in-IsValid :
      (prefix function : Text) (args : List Value)
      → IsValid (resolve_in host vm prefix function args).vm
  unfolding resolve_in
  resolve_in-IsValid prefix function args = elim (Option-cases (module_find vm.modules prefix)) [
    | inl absent ↦ rw (absent, resolve_in) no_reply-IsValid
    | inr (m, there) ↦ elim (Bool-cases (m.resolver == 0)) [
      | inl null ↦ rw (there, resolve_in, null) no_reply-IsValid
      | inr set ↦
          rw (there, resolve_in, set)
            (keeps.resolve_keeps m.resolver m.user_data vm function args v)
    ]
  ]

  call_native-IsValid :
      (name : Text) (args : List Value) → IsValid (call_native host vm name args).vm
  unfolding call_native
  call_native-IsValid name args = elim (Option-cases (split_dot name)) [
    | inl plain ↦ rw (plain, call_native) no_reply-IsValid
    | inr ((prefix, function), parts) ↦
        elim (Bool-cases (is_empty prefix || is_empty function || leb 64 (length prefix))) [
          | inl bad ↦ rw (parts, call_native, bad) no_reply-IsValid
          | inr good ↦ rw (parts, call_native, good) (resolve_in-IsValid prefix function args)
        ]
  ]

  call_named-IsValid :
      (name : Option Text) (args : List Value) → IsValid (call_named host vm name args).vm
  unfolding call_named
  call_named-IsValid none args = no_reply-IsValid
  call_named-IsValid (some name) args = elim (Option-cases (native_find vm.natives name)) [
    | inl absent ↦ rw (absent, call_named) (call_native-IsValid name args)
    | inr (f, there) ↦ elim (Bool-cases (f.fn == 0)) [
      | inl null ↦ rw (there, call_named, null) (call_native-IsValid name args)
      | inr set ↦ rw (there, call_named, set) (keeps.call_keeps f.fn f.user_data vm args v)
    ]
  ]

  return_reply-Keeps : (pc : ℕ) (r : HostReply) → IsValid r.vm → Keeps (return_reply pc r)
  unfolding return_reply set_retval
  return_reply-Keeps pc r h =
      if-Keeps r.success (next_keeps _ (set_var_or-IsValid r.vm _ r.ret h))
        (fail_at-Keeps pc _ r.vm h)

  module _ (pc : ℕ) (ops : List DecOp) where
    pub exec_call_name-Keeps : Keeps (exec_call_name host pc ops vm)
    unfolding exec_call_name
    exec_call_name-Keeps = return_reply-Keeps pc _ (call_named-IsValid _ _)

    pub exec_call_native-Keeps : Keeps (exec_call_native host pc ops vm)
    unfolding exec_call_native
    exec_call_native-Keeps = return_reply-Keeps pc _ (call_native-IsValid _ _)

    call_service-Keeps :
        (name : Text) (args : List Value) (m : Message) {k : HostReply → Outcome}
        → ((r : HostReply) → IsValid r.vm → Keeps (k r))
        → Keeps (call_service host pc ops vm name args m k)
    unfolding call_service
    call_service-Keeps name args m h =
        let valid = call_native-IsValid name args in
        if-Keeps _ (h (call_native host vm name args) valid) (fail_at-Keeps pc m _ valid)

    pub exec_wait-Keeps : Keeps (exec_wait host pc ops vm)
    unfolding exec_wait
    exec_wait-Keeps = call_service-Keeps _ _ _ (λ r h. next_keeps _ h)

    pub exec_file_read-Keeps : Keeps (exec_file_read host pc ops vm)
    unfolding exec_file_read
    exec_file_read-Keeps = call_service-Keeps _ _ _ (λ r h. assign-Keeps r.vm _ _ h)

    pub exec_file_write-Keeps : Keeps (exec_file_write host pc ops vm)
    unfolding exec_file_write
    exec_file_write-Keeps = call_service-Keeps _ _ _ (λ r h. next_keeps _ h)

    pub exec_entity_spawn-Keeps : Keeps (exec_entity_spawn host pc ops vm)
    unfolding exec_entity_spawn
    exec_entity_spawn-Keeps = call_service-Keeps _ _ _ (λ r h. assign-Keeps r.vm _ _ h)

    pub exec_input-Keeps : Keeps (exec_input host pc ops vm)
    unfolding exec_input
    exec_input-Keeps = call_service-Keeps _ _ _ (λ r h. assign-Keeps r.vm _ _ h)

trigger_event-IsValid :
    (vm : Vm) (name : Text) {vm' : Vm} → IsValid vm → trigger_event vm name ≡ some vm' → IsValid vm'
unfolding trigger_event
trigger_event-IsValid vm name v h = queue_event_handler-IsValid vm name 0 v h

module _ (fl : FloatOps) (pc : ℕ) (ops : List DecOp) (vm : Vm) (v : IsValid vm) where
  pub exec_event_bind-Keeps : Keeps (exec_event_bind fl pc ops vm)
  unfolding exec_event_bind
  exec_event_bind-Keeps =
      option-Keeps _ (fail_at-Keeps pc _ vm v)
        (λ vm' made. next_keeps vm' (bind_event-IsValid vm _ _ v made))

  pub exec_event_trigger-Keeps : Keeps (exec_event_trigger fl pc ops vm)
  unfolding exec_event_trigger
  exec_event_trigger-Keeps =
      option-Keeps _ (fail-Keeps _ vm v)
        (λ vm' made. next_keeps vm' (trigger_event-IsValid vm _ v made))
