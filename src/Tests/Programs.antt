-- ===== src/Tests/Programs.antt =====
-- A small program, compiled, loaded and run.
use open_scm.Prelude.{
  ℕ, ◌+◌, ◌^◌, ◌≤◌, ◌<◌, ◌≡◌, ◌≢◌, refl, false, true, List, [], ◌∷◌, none, some, inr, arith,
}
use open_scm.Prelude.Text.{c_string, Text, codes, IsCString}
use open_scm.Prelude.Result.{ok, err}
use open_scm.Opcode.{number, push_int, jmp, halt, tag, none_type, int_type, address_type}
use open_scm.Bytes.{r8, r16, r32, w8, w16, w32}
use open_scm.Opcode.Table.{OpcodeInfo, g_opcodes}
use open_scm.Opcode.Lookup.{first_row, opcode_info, opcode_from_name}
use open_scm.Opcode.Arity.{Accepts, opcode_info-Accepts, opcode_of, opcode_of-number}
use open_scm.Compiler.{
  Operand, Statement, Layout, start, layout, place, place_label, place_code, stmt_size,
  operand_size, operands_size, find_label, resolve_value, emit_value, emit_operands, emit_statement,
  emit_code, emit_labels, emit_lines, emit_header, compile_files,
}
use open_scm.Compiler.Addresses.{code_size, find_label-layout-start}
use open_scm.Compiler.Encoding.{IsAssembled, decoded_list, decode_operands_at}
use open_scm.Compiler.Bounds.{AllParsed, IsParsed, LabelsFit, LabelsFit-AddressesFit}
use open_scm.Image.{load_file, read_program, fread, read_lines, read_labels}
use open_scm.Image.Labels.{vm_find_label-load_file}
use open_scm.Image.Lines.{current_line-load_file}
use open_scm.Vm.Api.{vm_find_label}
use open_scm.Image.Loads.{with_program, load_file-compile_files}
use open_scm.Vm.{Vm, create}
use open_scm.Vm.Decode.{decode_operands}
use open_scm.Vm.Outcome.{Outcome, next, ended, current_line}
use open_scm.Vm.Events.{dispatch_next_event}
use open_scm.Vm.Step.{exec_info, fetch, idle, exec, step, run}
use open_scm.Vm.Step.Fetch.{step-emit_code}
use open_scm.Vm.Step.Jumps.{jump_to, step-jump_to}
use open_scm.Vm.Valid.{IsValid, Keeps}
use open_scm.Vm.Valid.Steps.{step-Keeps, run-Keeps}
use open_scm.Tests.Machine.{whole_floats, stopping_host, stopping_host-HostKeeps, create-IsValid}

abbrev loop_name : Text
loop_name = codes "loop"

abbrev loop_label : Statement
loop_label = record { line = 1; label = some loop_name; opcode = halt; operands = [] }

abbrev seven : Operand
seven = record { type = int_type; text = codes "7"; integer = 7; real = 0 }

abbrev push_seven : Statement
push_seven = record { line = 2; label = none; opcode = push_int; operands = seven ∷ [] }

-- A label, a push, and a jump back.
abbrev program : List Statement
program = loop_label ∷ push_seven ∷ jump_to 3 loop_name 0 0 ∷ []

abbrev program_layout : Layout
program_layout = record {
  pc = 14;
  labels = record { name = loop_name; addr = 0 } ∷ [];
  lines = record { addr = 0; line = 2 } ∷ record { addr = 7; line = 3 } ∷ [];
}

abbrev program_code : List ℕ
program_code = 2 ∷ 1 ∷ 1 ∷ 7 ∷ 0 ∷ 0 ∷ 0 ∷ 10 ∷ 1 ∷ 4 ∷ 0 ∷ 0 ∷ 0 ∷ 0 ∷ []

program-layout : layout program start ≡ ok program_layout
unfolding layout place place_label place_code stmt_size operand_size operands_size find_label
program-layout = refl

program-emit_code : emit_code program_layout.labels program ≡ ok program_code
unfolding emit_code emit_statement emit_operands emit_value resolve_value find_label number tag w8
    w32
program-emit_code = refl

int_type-ne : int_type ≢ none_type
int_type-ne e = ground arith

address_type-ne : address_type ≢ none_type
address_type-ne e = ground arith

loop_name-IsCString : IsCString loop_name
loop_name-IsCString = (omega arith, (omega arith, (omega arith, (omega arith, tt))))

seven-IsAssembled : IsAssembled seven
seven-IsAssembled = record {
  typed = int_type-ne;
  integer_fits = omega arith;
  real_fits = omega arith;
  text_clean = (omega arith, tt);
}

target-IsAssembled :
    IsAssembled (record { type = address_type; text = loop_name; integer = 0; real = 0 })
target-IsAssembled = record {
  typed = address_type-ne;
  integer_fits = omega arith;
  real_fits = omega arith;
  text_clean = loop_name-IsCString;
}

push_seven-IsParsed : IsParsed push_seven
push_seven-IsParsed = record {
  line_fits = omega arith;
  label_clean = tt;
  operands_good = (seven-IsAssembled, tt);
  few_operands = omega arith;
}

program-AllParsed : AllParsed program
program-AllParsed =
    let label : IsParsed loop_label = record {
      line_fits = omega arith;
      label_clean = loop_name-IsCString;
      operands_good = tt;
      few_operands = omega arith;
    } in
    let jump : IsParsed (jump_to 3 loop_name 0 0) = record {
      line_fits = omega arith;
      label_clean = tt;
      operands_good = (target-IsAssembled, tt);
      few_operands = omega arith;
    } in
    (label, (push_seven-IsParsed, (jump, tt)))

program-code_size : code_size program ≡ 14
unfolding code_size operands_size operand_size
program-code_size = refl

abbrev program_file : List ℕ
program_file = elim (compile_files program) [ ok file ↦ file | err e ↦ [] ]

program-compile_files : compile_files program ≡ ok program_file
unfolding compile_files layout place place_label place_code stmt_size operand_size operands_size
    find_label emit_code emit_statement emit_operands emit_value resolve_value number tag w8 w16 w32
    emit_labels emit_lines emit_header
program-compile_files = refl

load_file-compile_files_example :
    (l : Layout) × (code : List ℕ) × (layout program start ≡ ok l)
    × (emit_code l.labels program ≡ ok code)
    × (load_file program_file create ≡ ok (with_program create l code))
load_file-compile_files_example =
    load_file-compile_files program program_file create program-AllParsed
      (rw program-code_size (omega arith)) (omega arith) program-compile_files

zero_size : code_size [] < 2 ^ 32
unfolding code_size
zero_size = omega arith

-- A push, and a label behind it.
abbrev labelled : List Statement
labelled = push_seven ∷ loop_label ∷ []

abbrev labelled_layout : Layout
labelled_layout = record {
  pc = 7;
  labels = record { name = loop_name; addr = 7 } ∷ [];
  lines = record { addr = 0; line = 2 } ∷ [];
}

labelled-layout : layout labelled start ≡ ok labelled_layout
unfolding layout place place_label place_code stmt_size operand_size operands_size find_label
labelled-layout = refl

abbrev push_bytes : List ℕ
push_bytes = 2 ∷ 1 ∷ 1 ∷ 7 ∷ 0 ∷ 0 ∷ 0 ∷ []

push-emit_code : emit_code labelled_layout.labels (push_seven ∷ []) ≡ ok push_bytes
unfolding emit_code emit_statement emit_operands emit_value resolve_value number tag w8 w32
push-emit_code = refl

find_label-layout-start_example : find_label labelled_layout.labels loop_name ≡ some 7
find_label-layout-start_example =
    find_label-layout-start (push_seven ∷ []) [] loop_label labelled_layout loop_name push_bytes
      refl labelled-layout push-emit_code (omega arith)

program-LabelsFit : LabelsFit program_layout.labels
program-LabelsFit = (omega arith, loop_name-IsCString, tt)

seven_bytes : emit_operands program_layout.labels (seven ∷ []) ≡ ok (1 ∷ 7 ∷ 0 ∷ 0 ∷ 0 ∷ [])
unfolding emit_operands emit_value resolve_value tag w8 w32
seven_bytes = refl

decode_operands_at_example :
    decode_operands 1 (2 ∷ 1 ∷ 1 ∷ 7 ∷ 0 ∷ 0 ∷ 0 ∷ []) 2
    ≡ ok (decoded_list program_layout.labels (seven ∷ []), 2 + 5)
decode_operands_at_example =
    decode_operands_at program_layout.labels (seven ∷ []) (1 ∷ 7 ∷ 0 ∷ 0 ∷ 0 ∷ []) (2 ∷ 1 ∷ []) [] 2
      (LabelsFit-AddressesFit program_layout.labels program-LabelsFit) (seven-IsAssembled, tt)
      seven_bytes refl

abbrev at_push : Vm
at_push = record create { code = program_code }

push_row :
    (m : OpcodeInfo) × (opcode_info (number push_int) ≡ some m)
    × (m.min_args ≤ 1)
    × (1 ≤ m.max_args)
unfolding opcode_info g_opcodes number
push_row = (_, refl, omega arith, omega arith)

at_push-pc : at_push.pc ≡ code_size (loop_label ∷ [])
unfolding create code_size
at_push-pc = refl

at_push-running : at_push.halted ≡ false
unfolding create
at_push-running = refl

step-emit_code_example :
    step stopping_host whole_floats at_push
    ≡ exec stopping_host whole_floats
        (code_size (loop_label ∷ []))
        push_int
        (decoded_list program_layout.labels (seven ∷ []))
        (record at_push { pc = code_size (loop_label ∷ push_seven ∷ []) })
step-emit_code_example =
    step-emit_code stopping_host whole_floats program_layout.labels (loop_label ∷ [])
      (jump_to 3 loop_name 0 0 ∷ []) push_seven push_row.0 at_push program-LabelsFit
      push_seven-IsParsed refl push_row.1 push_row.2 push_row.3 program-emit_code at_push-pc
      at_push-running

abbrev at_jump : Vm
at_jump = record create { code = program_code; pc = 7 }

at_jump-pc : at_jump.pc ≡ code_size (loop_label ∷ push_seven ∷ [])
unfolding code_size operands_size operand_size
at_jump-pc = refl

at_jump-running : at_jump.halted ≡ false
unfolding create
at_jump-running = refl

step-jump_to_example :
    step stopping_host whole_floats at_jump ≡ next (record at_jump { pc = code_size [] })
step-jump_to_example =
    step-jump_to stopping_host whole_floats (loop_label ∷ push_seven ∷ []) [] []
      (push_seven ∷ jump_to 3 loop_name 0 0 ∷ []) loop_label 3 0 0 loop_name program_layout at_jump
      refl program-AllParsed (rw program-code_size (omega arith)) refl program-layout
      program-emit_code at_jump-pc at_jump-running

at_push-IsValid : IsValid at_push
at_push-IsValid = create-IsValid

step-Keeps_example : Keeps (step stopping_host whole_floats at_push)
step-Keeps_example =
    step-Keeps stopping_host whole_floats stopping_host-HostKeeps at_push at_push-IsValid

-- The code of the statement HALT.
abbrev halting : Vm
halting = record create { code = 1 ∷ 0 ∷ [] }

abbrev halting_end : Outcome
halting_end = ended (record halting { pc = 2; halted = true })

halting-run : run stopping_host whole_floats 2 halting ≡ some halting_end
unfolding run step fetch exec_info exec idle create opcode_info g_opcodes number r8 decode_operands
    dispatch_next_event
halting-run = refl

run-Keeps_example : Keeps halting_end
run-Keeps_example =
    run-Keeps stopping_host whole_floats stopping_host-HostKeeps 2 halting create-IsValid
      halting-run

abbrev goto_row : OpcodeInfo
goto_row = record { scm_code = 10; opcode = jmp; name = codes "GOTO"; min_args = 1; max_args = 1 }

goto-found : opcode_from_name (codes "GOTO") ≡ some goto_row
unfolding opcode_from_name first_row g_opcodes
goto-found = refl

opcode_info-Accepts_example : (m : OpcodeInfo) × Accepts goto_row m
opcode_info-Accepts_example = opcode_info-Accepts 10 (codes "GOTO") goto_row (inr goto-found)

opcode_of-number_example : opcode_of (number jmp) ≡ some jmp
opcode_of-number_example = opcode_of-number jmp

abbrev program_vm : Vm
program_vm = with_program create program_layout program_code

program-load_file : load_file program_file create ≡ ok program_vm
unfolding load_file read_program fread read_lines read_labels r16 r32 r8 c_string compile_files
    layout place place_label place_code stmt_size operand_size operands_size find_label emit_code
    emit_statement emit_operands emit_value resolve_value number tag w8 w16 w32 emit_labels
    emit_lines emit_header
program-load_file = refl

vm_find_label-load_file_example : vm_find_label program_vm (codes "@loop") ≡ some (code_size [])
vm_find_label-load_file_example =
    vm_find_label-load_file [] (push_seven ∷ jump_to 3 loop_name 0 0 ∷ []) loop_label loop_name
      program_file create program_vm program-AllParsed (rw program-code_size (omega arith))
      (omega arith) refl program-compile_files program-load_file

current_line-load_file_example : current_line program_vm (code_size (loop_label ∷ [])) ≡ 2
current_line-load_file_example =
    current_line-load_file (loop_label ∷ []) (jump_to 3 loop_name 0 0 ∷ []) push_seven program_file
      create program_vm program-AllParsed (rw program-code_size (omega arith)) (omega arith) refl
      program-compile_files program-load_file
