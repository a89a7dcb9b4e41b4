-- ===== src/Vm/Step.antt =====
-- `scml_vm_step` and `scml_vm_run` of vm/vm.c.
pub mod Fetch
pub mod Jumps
use open_scm.Prelude.{
  ℕ, zero, suc, ◌+◌, Bool, true, false, not, ◌||◌, List, Option, none, some, ltb, leb,
  if◌then◌else◌, length,
}
use open_scm.Prelude.Result.{ok, err}
use open_scm.Bytes.{r8}
use open_scm.Opcode.{
  Opcode, nop, halt, push_int, push_str, store, load, add, sub, mul, div, jmp, wait, if_eq, if_ne,
  if_gt, if_lt, print, log, file_read, file_write, entity_spawn, entity_set, heap_alloc, heap_store,
  heap_load, call, return, end_thread, event_bind, event_trigger, free, array_create, modulo, input,
  strcat, to_int, to_float, if_ge, if_le, bit_and, bit_or, bit_xor, bit_not, shl, shr, pow, strlen,
  substr, array_len, call_native, print_raw, console_clear, sin, cos, tan, sqrt, atan2, floor, ceil,
  round, abs, str_repeat, console_color, console_reset, console_move, console_erase_line,
  console_style, span_create, span_pin, span_fill, span_write_u8, span_read_u8, console_render_span,
  console_render_span_dirty,
}
use open_scm.Opcode.Table.{OpcodeInfo}
use open_scm.Opcode.Lookup.{opcode_info}
use open_scm.Vm.{Vm}
use open_scm.Vm.Floats.{FloatOps}
use open_scm.Vm.Events.{dispatch_next_event}
use open_scm.Vm.Decode.{DecOp, address, Decoded, decode_operands}
use open_scm.Vm.Outcome.{
  truncated_header, unknown_opcode, operand_count_mismatch, too_many_operands, undecodable, Failure,
  Outcome, next, ended, failed, undefined, fail_at, fail,
}
use open_scm.Vm.Ops.{arg}
use open_scm.Vm.Ops.Flow.{
  exec_jmp, exec_if, exec_call_address, exec_return, exec_push_int, exec_push_str, exec_load,
  exec_store,
}
use open_scm.Vm.Ops.Calc.{
  exec_arith, exec_bits, exec_bit_not, exec_math, exec_atan2, exec_pow, exec_to_int, exec_to_float,
}
use open_scm.Vm.Ops.Texts.{exec_str_repeat, exec_strcat, exec_strlen, exec_substr}
use open_scm.Vm.Ops.Objects.{
  exec_heap_alloc, exec_free, exec_heap_store, exec_heap_load, exec_span_create, exec_span_pin,
  exec_span_fill, exec_span_write_u8, exec_span_read_u8, exec_array_len,
}
use open_scm.Vm.Ops.Console.{
  exec_print, exec_console_clear, exec_console_color, exec_console_reset, exec_console_move,
  exec_console_erase_line, exec_console_style, exec_render_span, exec_render_span_dirty,
}
use open_scm.Vm.Ops.Hosted.{
  Host, exec_call_name, exec_call_native, exec_wait, exec_file_read, exec_file_write,
  exec_entity_spawn, exec_input, exec_event_bind, exec_event_trigger,
}

-- END_THREAD: the thread ends, and the next event's handler starts if there is one.
unfoldable pub exec_end_thread : Vm → Outcome
exec_end_thread vm =
    let (ran, vm') = dispatch_next_event vm in next (record vm' { halted = not ran })

module _ (host : Host) (fl : FloatOps) where
  -- CALL, by the type of its first operand.
  unfoldable pub exec_call : ℕ → List DecOp → DecOp → Vm → Outcome
  exec_call pc ops (address target) vm = exec_call_address pc target vm
  exec_call pc ops _ vm = exec_call_name host pc ops vm

  -- The switch, for the instruction at `pc`.
  unfoldable pub exec : ℕ → Opcode → List DecOp → Vm → Outcome
  exec pc nop ops vm = next vm
  exec pc halt ops vm = next (record vm { halted = true })
  exec pc push_int ops vm = exec_push_int pc ops vm
  exec pc push_str ops vm = exec_push_str pc ops vm
  exec pc store ops vm = exec_store pc ops vm
  exec pc load ops vm = exec_load pc ops vm
  exec pc add ops vm = exec_arith fl pc add ops vm
  exec pc sub ops vm = exec_arith fl pc sub ops vm
  exec pc mul ops vm = exec_arith fl pc mul ops vm
  exec pc div ops vm = exec_arith fl pc div ops vm
  exec pc jmp ops vm = exec_jmp ops vm
  exec pc wait ops vm = exec_wait host pc ops vm
  exec pc if_eq ops vm = exec_if fl if_eq ops vm
  exec pc if_ne ops vm = exec_if fl if_ne ops vm
  exec pc if_gt ops vm = exec_if fl if_gt ops vm
  exec pc if_lt ops vm = exec_if fl if_lt ops vm
  exec pc print ops vm = exec_print fl pc ops vm false
  exec pc log ops vm = exec_print fl pc ops vm false
  exec pc file_read ops vm = exec_file_read host pc ops vm
  exec pc file_write ops vm = exec_file_write host pc ops vm
  exec pc entity_spawn ops vm = exec_entity_spawn host pc ops vm
  exec pc entity_set ops vm = next vm
  exec pc heap_alloc ops vm = exec_heap_alloc fl pc ops vm
  exec pc heap_store ops vm = exec_heap_store fl pc ops vm
  exec pc heap_load ops vm = exec_heap_load fl pc ops vm
  exec pc call ops vm = exec_call pc ops (arg ops 0) vm
  exec pc return ops vm = exec_return pc vm
  exec pc end_thread ops vm = exec_end_thread vm
  exec pc event_bind ops vm = exec_event_bind fl pc ops vm
  exec pc event_trigger ops vm = exec_event_trigger fl pc ops vm
  exec pc free ops vm = exec_free fl pc ops vm
  exec pc array_create ops vm = exec_heap_alloc fl pc ops vm
  exec pc modulo ops vm = exec_arith fl pc modulo ops vm
  exec pc input ops vm = exec_input host pc ops vm
  exec pc strcat ops vm = exec_strcat fl ops vm
  exec pc to_int ops vm = exec_to_int fl ops vm
  exec pc to_float ops vm = exec_to_float fl ops vm
  exec pc if_ge ops vm = exec_if fl if_ge ops vm
  exec pc if_le ops vm = exec_if fl if_le ops vm
  exec pc bit_and ops vm = exec_bits fl pc bit_and ops vm
  exec pc bit_or ops vm = exec_bits fl pc bit_or ops vm
  exec pc bit_xor ops vm = exec_bits fl pc bit_xor ops vm
  exec pc bit_not ops vm = exec_bit_not fl ops vm
  exec pc shl ops vm = exec_bits fl pc shl ops vm
  exec pc shr ops vm = exec_bits fl pc shr ops vm
  exec pc pow ops vm = exec_pow fl ops vm
  exec pc strlen ops vm = exec_strlen fl ops vm
  exec pc substr ops vm = exec_substr fl ops vm
  exec pc array_len ops vm = exec_array_len fl pc ops vm
  exec pc call_native ops vm = exec_call_native host pc ops vm
  exec pc print_raw ops vm = exec_print fl pc ops vm true
  exec pc console_clear ops vm = exec_console_clear fl pc ops vm
  exec pc sin ops vm = exec_math fl pc sin ops vm
  exec pc cos ops vm = exec_math fl pc cos ops vm
  exec pc tan ops vm = exec_math fl pc tan ops vm
  exec pc sqrt ops vm = exec_math fl pc sqrt ops vm
  exec pc atan2 ops vm = exec_atan2 fl ops vm
  exec pc floor ops vm = exec_math fl pc floor ops vm
  exec pc ceil ops vm = exec_math fl pc ceil ops vm
  exec pc round ops vm = exec_math fl pc round ops vm
  exec pc abs ops vm = exec_math fl pc abs ops vm
  exec pc str_repeat ops vm = exec_str_repeat fl ops vm
  exec pc console_color ops vm = exec_console_color fl pc ops vm
  exec pc console_reset ops vm = exec_console_reset fl pc ops vm
  exec pc console_move ops vm = exec_console_move fl pc ops vm
  exec pc console_erase_line ops vm = exec_console_erase_line fl pc ops vm
  exec pc console_style ops vm = exec_console_style fl pc ops vm
  exec pc span_create ops vm = exec_span_create fl pc ops vm
  exec pc span_pin ops vm = exec_span_pin fl pc ops vm
  exec pc span_fill ops vm = exec_span_fill fl pc ops vm
  exec pc span_write_u8 ops vm = exec_span_write_u8 fl pc ops vm
  exec pc span_read_u8 ops vm = exec_span_read_u8 fl pc ops vm
  exec pc console_render_span ops vm = exec_render_span fl pc ops vm
  exec pc console_render_span_dirty ops vm = exec_render_span_dirty fl pc ops vm

  -- The instruction whose header has been read; `vm.pc` stands behind the header.
  unfoldable pub exec_info : ℕ → ℕ → OpcodeInfo → Vm → Outcome
  exec_info pc argc info vm =
      if ltb argc info.min_args || ltb info.max_args argc
      then fail_at pc operand_count_mismatch vm
      else if ltb 8 argc
      then fail_at pc too_many_operands vm
      else elim (decode_operands argc vm.code vm.pc) [
        | err b ↦ fail (undecodable b.reason) (record vm { pc = b.pc })
        | ok (ops, pc') ↦ exec pc info.opcode ops (record vm { pc = pc' })
      ]

  -- The instruction at `vm.pc`, which lies inside the code.
  unfoldable pub fetch : Vm → Outcome
  fetch vm =
      if ltb (length vm.code) (vm.pc + 2)
      then fail_at vm.pc truncated_header (record vm { halted = true })
      else elim (opcode_info (r8 vm.code vm.pc)) [
        | none ↦ fail_at vm.pc unknown_opcode (record vm { pc = vm.pc + 2 })
        | some info ↦ exec_info vm.pc (r8 vm.code (vm.pc + 1)) info (record vm { pc = vm.pc + 2 })
      ]

  -- Nothing is left to run: an event may start a handler.
  unfoldable pub idle : Vm → Outcome
  idle vm =
      let (ran, vm') = dispatch_next_event vm in
      if ran then next vm' else ended (record vm' { halted = true })

  unfoldable pub step : Vm → Outcome
  step vm = if vm.halted || leb (length vm.code) vm.pc then idle vm else fetch vm

  -- `scml_vm_run` and `scml_vm_update`: steps until one returns 0 or -1. `none`: more steps than
  -- the fuel allows.
  unfoldable pub run : ℕ → Vm → Option Outcome
  run zero vm = none
  run (suc fuel) vm = elim (step vm) [
    | next vm' ↦ run fuel vm'
    | ended vm' ↦ some (ended vm')
    | failed f vm' ↦ some (failed f vm')
    | undefined ↦ some undefined
  ]
