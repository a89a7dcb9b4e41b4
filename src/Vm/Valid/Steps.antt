-- ===== src/Vm/Valid/Steps.antt =====
-- Every instruction, every step and every run keeps the bounds of the machine's tables.
use mathlib.Core.Option
use open_scm.Prelude.{
  subst, ℕ, zero, suc, ◌+◌, ◌≡◌, arith, true, false, ◌||◌, List, some, ltb, leb, length,
}
use open_scm.Prelude.Result.{ok, err}
use open_scm.Bytes.{r8}
use open_scm.Opcode.{
  Opcode, Opcode, nop, halt, push_int, push_str, store, load, add, sub, mul, div, jmp, wait, if_eq,
  if_ne, if_gt, if_lt, print, log, file_read, file_write, entity_spawn, entity_set, heap_alloc,
  heap_store, heap_load, call, return, end_thread, event_bind, event_trigger, free, array_create,
  modulo, input, strcat, to_int, to_float, if_ge, if_le, bit_and, bit_or, bit_xor, bit_not, shl,
  shr, pow, strlen, substr, array_len, call_native, print_raw, console_clear, sin, cos, tan, sqrt,
  atan2, floor, ceil, round, abs, str_repeat, console_color, console_reset, console_move,
  console_erase_line, console_style, span_create, span_pin, span_fill, span_write_u8, span_read_u8,
  console_render_span, console_render_span_dirty,
}
use open_scm.Opcode.Table.{OpcodeInfo}
use open_scm.Opcode.Lookup.{opcode_info}
use open_scm.Vm.{Vm}
use open_scm.Vm.Floats.{FloatOps}
use open_scm.Vm.Events.{dispatch_next_event}
use open_scm.Vm.Decode.{DecOp, absent, int, float, string, var, address, Decoded, decode_operands}
use open_scm.Vm.Outcome.{undecodable, Outcome, next, ended, failed, undefined, fail}
use open_scm.Vm.Ops.{arg}
use open_scm.Vm.Ops.Hosted.{Host}
use open_scm.Vm.Step.{exec_end_thread, exec_call, exec, exec_info, fetch, idle, step, run}
use open_scm.Vm.Valid.{IsValid, Keeps, next_keeps, ended_keeps, HostKeeps}
use open_scm.Vm.Valid.Parts.{dispatch_next_event-IsValid}
use open_scm.Vm.Valid.Handlers.{
  fail_at-Keeps, fail-Keeps, if-Keeps, exec_call_address-Keeps, exec_return-Keeps, exec_store-Keeps,
  exec_jmp-Keeps, exec_if-Keeps, exec_arith-Keeps, exec_bits-Keeps, exec_math-Keeps,
}
use open_scm.Vm.Valid.Objects.{
  exec_heap_alloc-Keeps, exec_span_create-Keeps, exec_free-Keeps, exec_heap_store-Keeps,
  exec_heap_load-Keeps, exec_span_pin-Keeps, exec_span_fill-Keeps, exec_span_write_u8-Keeps,
  exec_span_read_u8-Keeps, exec_array_len-Keeps, exec_print-Keeps, exec_console_color-Keeps,
  exec_console_move-Keeps, exec_console_style-Keeps, exec_render_span-Keeps,
  exec_render_span_dirty-Keeps, option-Keeps,
}
use open_scm.Vm.Valid.Assign.{
  exec_bit_not-Keeps, exec_pow-Keeps, exec_atan2-Keeps, exec_to_int-Keeps, exec_to_float-Keeps,
  exec_strlen-Keeps, exec_strcat-Keeps, exec_substr-Keeps, exec_str_repeat-Keeps,
  exec_push_int-Keeps, exec_push_str-Keeps, exec_load-Keeps, exec_console_clear-Keeps,
  exec_console_reset-Keeps, exec_console_erase_line-Keeps,
}
use open_scm.Vm.Valid.Hosted.{
  exec_call_name-Keeps, exec_call_native-Keeps, exec_wait-Keeps, exec_file_read-Keeps,
  exec_file_write-Keeps, exec_entity_spawn-Keeps, exec_input-Keeps, exec_event_bind-Keeps,
  exec_event_trigger-Keeps,
}

exec_end_thread-Keeps : (vm : Vm) → IsValid vm → Keeps (exec_end_thread vm)
unfolding exec_end_thread
exec_end_thread-Keeps vm v = next_keeps _ (dispatch_next_event-IsValid vm v)

module _ (host : Host) (fl : FloatOps) (keeps : HostKeeps host) where
  exec_call-Keeps :
      (pc : ℕ) (ops : List DecOp) (o : DecOp) (vm : Vm)
      → IsValid vm
      → Keeps (exec_call host fl pc ops o vm)
  unfolding exec_call
  exec_call-Keeps pc ops (address target) vm v = exec_call_address-Keeps pc vm v target
  exec_call-Keeps pc ops absent vm v = exec_call_name-Keeps host keeps vm v pc ops
  exec_call-Keeps pc ops (int i) vm v = exec_call_name-Keeps host keeps vm v pc ops
  exec_call-Keeps pc ops (float f) vm v = exec_call_name-Keeps host keeps vm v pc ops
  exec_call-Keeps pc ops (string s) vm v = exec_call_name-Keeps host keeps vm v pc ops
  exec_call-Keeps pc ops (var s) vm v = exec_call_name-Keeps host keeps vm v pc ops

  exec-Keeps :
      (pc : ℕ) (op : Opcode) (ops : List DecOp) (vm : Vm)
      → IsValid vm
      → Keeps (exec host fl pc op ops vm)
  unfolding exec
  exec-Keeps pc nop ops vm v = next_keeps _ v
  exec-Keeps pc halt ops vm v = next_keeps _ v
  exec-Keeps pc push_int ops vm v = exec_push_int-Keeps pc vm v ops
  exec-Keeps pc push_str ops vm v = exec_push_str-Keeps pc vm v ops
  exec-Keeps pc store ops vm v = exec_store-Keeps pc vm v ops
  exec-Keeps pc load ops vm v = exec_load-Keeps pc vm v ops
  exec-Keeps pc add ops vm v = exec_arith-Keeps pc vm v ops fl add
  exec-Keeps pc sub ops vm v = exec_arith-Keeps pc vm v ops fl sub
  exec-Keeps pc mul ops vm v = exec_arith-Keeps pc vm v ops fl mul
  exec-Keeps pc div ops vm v = exec_arith-Keeps pc vm v ops fl div
  exec-Keeps pc jmp ops vm v = exec_jmp-Keeps pc vm v ops
  exec-Keeps pc wait ops vm v = exec_wait-Keeps host keeps vm v pc ops
  exec-Keeps pc if_eq ops vm v = exec_if-Keeps pc vm v ops fl if_eq
  exec-Keeps pc if_ne ops vm v = exec_if-Keeps pc vm v ops fl if_ne
  exec-Keeps pc if_gt ops vm v = exec_if-Keeps pc vm v ops fl if_gt
  exec-Keeps pc if_lt ops vm v = exec_if-Keeps pc vm v ops fl if_lt
  exec-Keeps pc print ops vm v = exec_print-Keeps pc vm v fl ops false
  exec-Keeps pc log ops vm v = exec_print-Keeps pc vm v fl ops false
  exec-Keeps pc file_read ops vm v = exec_file_read-Keeps host keeps vm v pc ops
  exec-Keeps pc file_write ops vm v = exec_file_write-Keeps host keeps vm v pc ops
  exec-Keeps pc entity_spawn ops vm v = exec_entity_spawn-Keeps host keeps vm v pc ops
  exec-Keeps pc entity_set ops vm v = next_keeps _ v
  exec-Keeps pc heap_alloc ops vm v = exec_heap_alloc-Keeps pc vm v fl ops
  exec-Keeps pc heap_store ops vm v = exec_heap_store-Keeps pc vm v fl ops
  exec-Keeps pc heap_load ops vm v = exec_heap_load-Keeps pc vm v fl ops
  exec-Keeps pc call ops vm v = exec_call-Keeps pc ops (arg ops 0) vm v
  exec-Keeps pc return ops vm v = exec_return-Keeps pc vm v
  exec-Keeps pc end_thread ops vm v = exec_end_thread-Keeps vm v
  exec-Keeps pc event_bind ops vm v = exec_event_bind-Keeps fl pc ops vm v
  exec-Keeps pc event_trigger ops vm v = exec_event_trigger-Keeps fl pc ops vm v
  exec-Keeps pc free ops vm v = exec_free-Keeps pc vm v fl ops
  exec-Keeps pc array_create ops vm v = exec_heap_alloc-Keeps pc vm v fl ops
  exec-Keeps pc modulo ops vm v = exec_arith-Keeps pc vm v ops fl modulo
  exec-Keeps pc input ops vm v = exec_input-Keeps host keeps vm v pc ops
  exec-Keeps pc strcat ops vm v = exec_strcat-Keeps fl ops vm v
  exec-Keeps pc to_int ops vm v = exec_to_int-Keeps fl ops vm v
  exec-Keeps pc to_float ops vm v = exec_to_float-Keeps fl ops vm v
  exec-Keeps pc if_ge ops vm v = exec_if-Keeps pc vm v ops fl if_ge
  exec-Keeps pc if_le ops vm v = exec_if-Keeps pc vm v ops fl if_le
  exec-Keeps pc bit_and ops vm v = exec_bits-Keeps pc vm v ops fl bit_and
  exec-Keeps pc bit_or ops vm v = exec_bits-Keeps pc vm v ops fl bit_or
  exec-Keeps pc bit_xor ops vm v = exec_bits-Keeps pc vm v ops fl bit_xor
  exec-Keeps pc bit_not ops vm v = exec_bit_not-Keeps fl ops vm v
  exec-Keeps pc shl ops vm v = exec_bits-Keeps pc vm v ops fl shl
  exec-Keeps pc shr ops vm v = exec_bits-Keeps pc vm v ops fl shr
  exec-Keeps pc pow ops vm v = exec_pow-Keeps fl ops vm v
  exec-Keeps pc strlen ops vm v = exec_strlen-Keeps fl ops vm v
  exec-Keeps pc substr ops vm v = exec_substr-Keeps fl ops vm v
  exec-Keeps pc array_len ops vm v = exec_array_len-Keeps pc vm v fl ops
  exec-Keeps pc call_native ops vm v = exec_call_native-Keeps host keeps vm v pc ops
  exec-Keeps pc print_raw ops vm v = exec_print-Keeps pc vm v fl ops true
  exec-Keeps pc console_clear ops vm v = exec_console_clear-Keeps pc vm v fl ops
  exec-Keeps pc sin ops vm v = exec_math-Keeps pc vm v ops fl sin
  exec-Keeps pc cos ops vm v = exec_math-Keeps pc vm v ops fl cos
  exec-Keeps pc tan ops vm v = exec_math-Keeps pc vm v ops fl tan
  exec-Keeps pc sqrt ops vm v = exec_math-Keeps pc vm v ops fl sqrt
  exec-Keeps pc atan2 ops vm v = exec_atan2-Keeps fl ops vm v
  exec-Keeps pc floor ops vm v = exec_math-Keeps pc vm v ops fl floor
  exec-Keeps pc ceil ops vm v = exec_math-Keeps pc vm v ops fl ceil
  exec-Keeps pc round ops vm v = exec_math-Keeps pc vm v ops fl round
  exec-Keeps pc abs ops vm v = exec_math-Keeps pc vm v ops fl abs
  exec-Keeps pc str_repeat ops vm v = exec_str_repeat-Keeps fl ops vm v
  exec-Keeps pc console_color ops vm v = exec_console_color-Keeps pc vm v fl ops
  exec-Keeps pc console_reset ops vm v = exec_console_reset-Keeps pc vm v fl ops
  exec-Keeps pc console_move ops vm v = exec_console_move-Keeps pc vm v fl ops
  exec-Keeps pc console_erase_line ops vm v = exec_console_erase_line-Keeps pc vm v fl ops
  exec-Keeps pc console_style ops vm v = exec_console_style-Keeps pc vm v fl ops
  exec-Keeps pc span_create ops vm v = exec_span_create-Keeps pc vm v fl ops
  exec-Keeps pc span_pin ops vm v = exec_span_pin-Keeps pc vm v fl ops
  exec-Keeps pc span_fill ops vm v = exec_span_fill-Keeps pc vm v fl ops
  exec-Keeps pc span_write_u8 ops vm v = exec_span_write_u8-Keeps pc vm v fl ops
  exec-Keeps pc span_read_u8 ops vm v = exec_span_read_u8-Keeps pc vm v fl ops
  exec-Keeps pc console_render_span ops vm v = exec_render_span-Keeps pc vm v fl ops
  exec-Keeps pc console_render_span_dirty ops vm v = exec_render_span_dirty-Keeps pc vm v fl ops

  decoded-Keeps :
      (pc : ℕ) (info : OpcodeInfo) (vm : Vm)
      → IsValid vm
      → (r : Decoded (List DecOp))
      → Keeps (elim r [
        | err b ↦ fail (undecodable b.reason) (record vm { pc = b.pc })
        | ok (ops, pc') ↦ exec host fl pc info.opcode ops (record vm { pc = pc' })
      ])
  decoded-Keeps pc info vm v (err b) = fail-Keeps _ (record vm { pc = b.pc }) v
  decoded-Keeps pc info vm v (ok (ops, pc')) =
      exec-Keeps pc info.opcode ops (record vm { pc = pc' }) v

  exec_info-Keeps :
      (pc argc : ℕ) (info : OpcodeInfo) (vm : Vm)
      → IsValid vm
      → Keeps (exec_info host fl pc argc info vm)
  unfolding exec_info
  exec_info-Keeps pc argc info vm v =
      if-Keeps (ltb argc info.min_args || ltb info.max_args argc) (fail_at-Keeps pc _ vm v) (
        if-Keeps (ltb 8 argc) (fail_at-Keeps pc _ vm v)
          (decoded-Keeps pc info vm v (decode_operands argc vm.code vm.pc)))

  fetch-Keeps : (vm : Vm) → IsValid vm → Keeps (fetch host fl vm)
  unfolding fetch
  fetch-Keeps vm v =
      if-Keeps (ltb (length vm.code) (vm.pc + 2))
        (fail_at-Keeps vm.pc _ (record vm { halted = true }) v)
        (option-Keeps (opcode_info (r8 vm.code vm.pc))
          (fail_at-Keeps vm.pc _ (record vm { pc = vm.pc + 2 }) v)
          (λ info there. exec_info-Keeps vm.pc _ info _ v))

  idle-Keeps : (vm : Vm) → IsValid vm → Keeps (idle host fl vm)
  unfolding idle
  idle-Keeps vm v =
      let valid = dispatch_next_event-IsValid vm v in
      if-Keeps (dispatch_next_event vm).0 (next_keeps _ valid) (ended_keeps _ valid)

  -- A step from a machine in its bounds, with host functions that keep them, leaves a machine in
  -- its bounds, whether it goes on, ends or fails, unless the behaviour of the C program is
  -- undefined: no table is longer than its array, and the ends of the event queue stay inside it.
  pub step-Keeps : (vm : Vm) → IsValid vm → Keeps (step host fl vm)
  unfolding step
  step-Keeps vm v =
      if-Keeps (vm.halted || leb (length vm.code) vm.pc) (idle-Keeps vm v) (fetch-Keeps vm v)

  after-Keeps :
      (fuel : ℕ) (s : Outcome) {o : Outcome}
      → ((vm : Vm) → IsValid vm → run host fl fuel vm ≡ some o → Keeps o)
      → Keeps s
      → elim s [
        | next vm' ↦ run host fl fuel vm'
        | ended vm' ↦ some (ended vm')
        | failed f vm' ↦ some (failed f vm')
        | undefined ↦ some undefined
      ]
        ≡ some o
      → Keeps o
  after-Keeps fuel (next vm') go (next_keeps _ v) e = go vm' v e
  after-Keeps fuel (ended vm') go k e = subst Keeps (Option.some-injective _ _ e) k
  after-Keeps fuel (failed f vm') go k e = subst Keeps (Option.some-injective _ _ e) k
  after-Keeps fuel undefined go k e = subst Keeps (Option.some-injective _ _ e) k

  -- From a machine in its bounds, with host functions that keep them, every run that ends,
  -- however it ends, leaves a machine in its bounds, unless the behaviour of the C program is
  -- undefined.
  pub run-Keeps :
      (fuel : ℕ) (vm : Vm) {o : Outcome} → IsValid vm → run host fl fuel vm ≡ some o → Keeps o
  unfolding run
  run-Keeps zero vm v h = ground arith
  run-Keeps (suc fuel) vm v h =
      after-Keeps fuel (step host fl vm) (λ vm' v' e. run-Keeps fuel vm' v' e) (step-Keeps vm v) h
