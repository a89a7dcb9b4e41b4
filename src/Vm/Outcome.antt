-- ===== src/Vm/Outcome.antt =====
-- What an instruction leads to, and the message of a failure.
use open_scm.Prelude.{ℕ, List, [], ◌∷◌, leb, if◌then◌else◌}
use open_scm.Vm.{LineEntry, Vm}
use open_scm.Vm.Decode.{DecodeError}

-- The texts that go into the error buffer.
pub data Message : Type 0 where
  truncated_header unknown_opcode operand_count_mismatch too_many_operands : Message
  undecodable : DecodeError → Message
  return_without_call call_stack_overflow native_call_failed : Message
  stack_overflow variable_table_full division_by_zero mod_by_zero : Message
  sqrt_domain_error invalid_shift_count : Message
  bad_foreground bad_background bad_row bad_column bad_style : Message
  wait_unresolved file_read_unresolved file_write_unresolved : Message
  entity_spawn_unresolved input_unresolved : Message
  event_registry_full event_queue_full : Message
  negative_heap_size heap_allocation_failed heap_write_out_of_range : Message
  heap_read_out_of_range negative_span_size span_allocation_failed : Message
  span_pin_invalid span_fill_out_of_range span_write_out_of_range : Message
  span_read_out_of_range render_out_of_range dirty_render_out_of_range : Message

-- The line is in front of the message unless it is 0.
pub record Failure : Type 0 where
  pub line : ℕ
  pub message : Message

-- `scml_vm_step` returns 1, 0 or -1. `undefined` is where the behaviour of the C program is not
-- defined: `strcmp` of a null pointer, and the division of INT_MIN by -1.
pub data Outcome : Type 0 where
  next : Vm → Outcome
  ended : Vm → Outcome
  failed : Failure → Vm → Outcome
  undefined : Outcome

-- The loop of `current_line`, which has found `line` so far and stops at the first later entry.
unfoldable pub line_from : ℕ → List LineEntry → ℕ → ℕ
line_from line [] pc = line
line_from line (l ∷ lines) pc =
    let rest = line_from l.line lines pc in if leb l.pc pc then rest else line

unfoldable pub current_line : Vm → ℕ → ℕ
current_line vm pc = line_from 0 vm.lines pc

-- `error_at`, for the instruction at `pc`, and the return of -1.
unfoldable pub fail_at : ℕ → Message → Vm → Outcome
fail_at pc message vm = failed (record { line = current_line vm pc; message = message }) vm

-- A message that is written without a line.
unfoldable pub fail : Message → Vm → Outcome
fail message vm = failed (record { line = 0; message = message }) vm
