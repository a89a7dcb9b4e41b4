-- ===== src/Tests/Sources.antt =====
-- Source text: tokens, statements, a program from its text to a step, and the debugger.
use open_scm.Prelude.{
  ℕ, ◌^◌, ◌<◌, ◌≡◌, ◌≢◌, ◌⊎◌, refl, false, true, List, [], ◌∷◌, none, some, arith, length,
  get_elem?,
}
use open_scm.Prelude.Text.{Text, codes}
use open_scm.Prelude.Decimal.{skip_spaces, atoi, read_signed}
use open_scm.Lexer.Chars.{has}
use open_scm.Image.{load_file, read_program, fread, read_lines, read_labels}
use open_scm.Vm.{Vm, create}
use open_scm.Compiler.Addresses.{code_size}
use open_scm.Compiler.Encoding.{decoded_list}
use open_scm.Vm.Outcome.{next}
use open_scm.Vm.Decode.{decode_operands}
use open_scm.Debugger.{Debugger, stopped, is_breakpoint, among, debug_continue}
use open_scm.Debugger.Continue.{
  First, Undisturbed, debug_continue-reaches, debug_continue-First, debug_continue-run,
}
use open_scm.Vm.Step.{step, exec, fetch, exec_info}
use open_scm.Parser.Runs.{step-parse_text}
use open_scm.Prelude.Result.{ok, err}
use open_scm.Bytes.{r8, r16, r32, w8, w16, w32}
use open_scm.Opcode.{number, push_int, halt, tag, int_type}
use open_scm.Opcode.Table.{OpcodeInfo, g_opcodes}
use open_scm.Opcode.Lookup.{first_row, opcode_info}
use open_scm.Lexer.Tokens.{Token, out_of_fuel, identifier}
use open_scm.Lexer.Print.{
  Lexeme, quote, name, numeral, hexadecimal, real, signed, double, mark, AllLexemes, print_line,
  tokens_from,
}
use open_scm.Lexer.Total.{lex_line-fuel}
use open_scm.Lexer.Columns.{AllPlaced, lex_line-AllPlaced}
use open_scm.Lexer.RoundTrip.{lex_line-print_line}
use open_scm.Lexer.{lex_line, lex_from}
use open_scm.Compiler.{
  place, place_code, emit_code, emit_statement, emit_operands, emit_value, resolve_value,
  emit_labels, emit_lines, emit_header, stmt_size, operands_size, operand_size, Statement, Layout,
  layout, start, compile_files,
}
use open_scm.Compiler.Bounds.{AllParsed}
use open_scm.Parser.{parse_text, lines_of, find_info, unknown_opcode}
use open_scm.Parser.Operands.{ParseFits}
use open_scm.Parser.Accepted.{AllFit, parse_text-checked}
use open_scm.Parser.Names.{hex4, find_info-g_opcodes}
use open_scm.Tests.Machine.{whole_floats, stopping_host}

-- `SET $a -12 "say \"hi\"" ( 00A1 0x1F 2.5 += `
abbrev lexemes : List Lexeme
lexemes =
    name b'S' (codes "ET")
    ∷ name b'$' (codes "a")
    ∷ signed b'-' b'1' (codes "2")
    ∷ quote (codes "say \"hi\"")
    ∷ mark b'('
    ∷ numeral b'0' (codes "0A1")
    ∷ hexadecimal (codes "1F")
    ∷ real b'2' [] (codes "5")
    ∷ double b'+' b'='
    ∷ []

lexemes-AllLexemes : AllLexemes lexemes
unfolding has
lexemes-AllLexemes = (
  (refl, (refl, (refl, tt))),
  (
    (refl, (refl, tt)),
    (
      (refl, (refl, (refl, tt))),
      (
        (
          (
            omega arith,
            (
              omega arith,
              (
                omega arith,
                (omega arith, (omega arith, (omega arith, (omega arith, (omega arith, tt))))),
              ),
            ),
          ),
          omega arith,
        ),
        (
          refl,
          (
            (refl, (refl, (refl, (refl, tt)))),
            ((refl, (refl, tt)), ((refl, tt, (refl, tt)), (refl, tt))),
          ),
        ),
      ),
    ),
  ),
)

lex_line-print_line_example : lex_line (print_line lexemes) 3 ≡ ok (tokens_from 3 1 lexemes)
lex_line-print_line_example = lex_line-print_line 3 lexemes lexemes-AllLexemes

abbrev short_line : Text
short_line = codes "HALT ; end"

lex_line-fuel_example :
    (lex_from 20 7 (length short_line) short_line ≡ lex_line short_line 7)
    × (lex_line short_line 7 ≢ err out_of_fuel)
lex_line-fuel_example = lex_line-fuel short_line 7 20 (omega arith)

abbrev halt_tokens : List Token
halt_tokens = record { type = identifier; text = codes "HALT"; line = 7; column = 1 } ∷ []

halt-lex_line : lex_line short_line 7 ≡ ok halt_tokens
unfolding lex_line
halt-lex_line = refl

lex_line-AllPlaced_example : AllPlaced 7 0 (length short_line) halt_tokens
lex_line-AllPlaced_example = lex_line-AllPlaced short_line 7 halt_tokens halt-lex_line

-- A push and a stop, with an empty line between them.
abbrev source : Text
source = codes "PUSH_INT 7\n\nHALT"

abbrev push : Statement
push = record {
  line = 1;
  label = none;
  opcode = push_int;
  operands = record { type = int_type; text = codes "7"; integer = 7; real = 0 } ∷ [];
}

abbrev stop : Statement
stop = record { line = 2; label = none; opcode = halt; operands = [] }

abbrev source_program : List Statement
source_program = push ∷ stop ∷ []

source-parse_text : parse_text whole_floats source ≡ ok source_program
unfolding parse_text g_opcodes
source-parse_text = refl

source-lines_of : lines_of source ≡ codes "PUSH_INT 7" ∷ codes "HALT" ∷ []
unfolding lines_of
source-lines_of = refl

read_signed-fits : (s : Text) → read_signed s < 2 ^ 32
unfolding read_signed
read_signed-fits [] = omega arith
read_signed-fits (c ∷ s) = ground arith

whole_floats-ParseFits : ParseFits whole_floats
unfolding atoi
whole_floats-ParseFits s = read_signed-fits (skip_spaces s)

parse_text-checked_example : AllParsed source_program × AllFit source_program
parse_text-checked_example =
    parse_text-checked whole_floats source source_program whole_floats-ParseFits
      (rw source-lines_of (omega arith)) source-parse_text

abbrev source_file : List ℕ
source_file = elim (compile_files source_program) [ ok file ↦ file | err e ↦ [] ]

source-compile_files : compile_files source_program ≡ ok source_file
unfolding compile_files layout place place_code emit_code emit_statement emit_operands emit_value
    resolve_value emit_labels emit_lines emit_header stmt_size operands_size operand_size number tag
    w8 w16 w32
source-compile_files = refl

abbrev source_vm : Vm
source_vm = elim (load_file source_file create) [ ok vm ↦ vm | err e ↦ create ]

source-load_file : load_file source_file create ≡ ok source_vm
unfolding load_file read_program fread read_lines read_labels r8 r16 r32 create compile_files layout
    place place_code emit_code emit_statement emit_operands emit_value resolve_value emit_labels
    emit_lines emit_header stmt_size operands_size operand_size number tag w8 w16 w32
source-load_file = refl

source-size : code_size (push ∷ stop ∷ []) < 2 ^ 32
unfolding code_size operands_size operand_size
source-size = omega arith

source_vm-start : (source_vm.pc ≡ code_size []) × (source_vm.halted ≡ false)
unfolding load_file read_program fread read_lines read_labels r8 r16 r32 create compile_files layout
    place place_code emit_code emit_statement emit_operands emit_value resolve_value emit_labels
    emit_lines emit_header stmt_size operands_size operand_size number tag w8 w16 w32 code_size
source_vm-start = (refl, refl)

-- The step at the first statement.
step-parse_text_example :
    (l : Layout) × (layout (push ∷ stop ∷ []) start ≡ ok l)
    × (step stopping_host whole_floats source_vm
        ≡ exec stopping_host whole_floats
            (code_size [])
            push_int
            (decoded_list l.labels push.operands)
            (record source_vm { pc = code_size (push ∷ []) }))
step-parse_text_example =
    step-parse_text stopping_host whole_floats source [] (stop ∷ []) push source_file create
      source_vm source_vm whole_floats-ParseFits (rw source-lines_of (omega arith)) source-size
      (omega arith) source-parse_text refl source-compile_files source-load_file refl
      source_vm-start.0 source_vm-start.1

-- PUSH has its own row, ADD has none.
abbrev push_row : OpcodeInfo
push_row = record {
  scm_code = 2;
  opcode = push_int;
  name = codes "PUSH_INT";
  min_args = 1;
  max_args = 1;
}

push_row-get_elem? : get_elem? g_opcodes 2 ≡ some push_row
unfolding g_opcodes
push_row-get_elem? = refl

find_info-g_opcodes_example :
    ((find_info whole_floats 4 push_row.name ≡ ok push_row)
      ⊎ ((push_row.name ≡ codes "ADD")
          × (find_info whole_floats 4 push_row.name ≡ err (unknown_opcode 4 (codes "ADD")))))
    × ((x : OpcodeInfo) × (find_info whole_floats 4 (hex4 push_row.scm_code) ≡ ok x)
        × (x.opcode ≡ push_row.opcode))
find_info-g_opcodes_example = find_info-g_opcodes whole_floats 4 2 push_row push_row-get_elem?

-- Two times NOP, and a breakpoint behind the second.
abbrev idle_vm : Vm
idle_vm = record create { code = 0 ∷ 0 ∷ 0 ∷ 0 ∷ 1 ∷ 0 ∷ [] }

first_nop : step stopping_host whole_floats idle_vm ≡ next (record idle_vm { pc = 2 })
unfolding step fetch exec_info exec opcode_info first_row g_opcodes number decode_operands create r8
first_nop = refl

second_nop :
    step stopping_host whole_floats (record idle_vm { pc = 2 }) ≡ next (record idle_vm { pc = 4 })
unfolding step fetch exec_info exec opcode_info first_row g_opcodes number decode_operands create r8
second_nop = refl

abbrev stops : Debugger
stops = record { vm = record idle_vm { pc = 4 }; breakpoints = 4 ∷ []; paused = true }

not_yet : is_breakpoint (4 ∷ []) (record idle_vm { pc = 2 }) ≡ false
unfolding is_breakpoint among
not_yet = refl

at_last : is_breakpoint (4 ∷ []) (record idle_vm { pc = 4 }) ≡ true
unfolding is_breakpoint among
at_last = refl

abbrev watched : Debugger
watched = record { vm = idle_vm; breakpoints = 4 ∷ []; paused = false }

debug_continue-reaches_example :
    debug_continue stopping_host whole_floats 5 watched ≡ some (stopped stops)
debug_continue-reaches_example =
    debug_continue-reaches stopping_host whole_floats 1 5 idle_vm (record idle_vm { pc = 2 })
      (record idle_vm { pc = 4 }) (4 ∷ []) false (omega arith)
      (record idle_vm { pc = 2 }, first_nop, not_yet, refl) second_nop at_last

watched-debug_continue : debug_continue stopping_host whole_floats 5 watched ≡ some (stopped stops)
unfolding debug_continue step fetch exec_info exec opcode_info first_row g_opcodes number
    decode_operands create r8 is_breakpoint among
watched-debug_continue = refl

debug_continue-First_example : First stopping_host whole_floats (4 ∷ []) idle_vm stops
debug_continue-First_example =
    debug_continue-First stopping_host whole_floats 5 idle_vm (4 ∷ []) false stops
      watched-debug_continue

debug_continue-run_example : Undisturbed stopping_host whole_floats 5 3 idle_vm (stopped stops)
debug_continue-run_example =
    debug_continue-run stopping_host whole_floats 5 3 idle_vm (4 ∷ []) false (stopped stops)
      watched-debug_continue
