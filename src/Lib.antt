-- ===== src/Lib.antt =====
-- OpenSCM assembles scripts into bytecode and runs them on a virtual machine. This library models
-- the assembler from the preprocessed text on, the bytecode file, the machine and its debugger.
--
-- The parts, and where the source has them:
-- - Opcode: opcode/opcode.c and opcode/opcode.h. `Opcode` and `number` are the enumeration,
--   Opcode/Table is `g_opcodes`, Opcode/Lookup its searches. Opcode/Arity is about the two views
--   that the assembler and the machine have of the operand counts.
-- - Bytes: the little-endian numbers of compiler/compiler.c (`w8`, `w16`, `w32`) and vm/vm.c
--   (`r8`, `r16`, `r32`).
-- - Compiler: compiler/compiler.c. `layout` is the first pass of `scml_compile_files`, `emit_code`,
--   `emit_lines` and `emit_labels` are the second, and `compile_files` is the whole, from the
--   statements that parser/parser.h declares. Compiler/Addresses is about the first pass,
--   Compiler/Encoding about operands that are written and decoded, Compiler/Bounds about the tables.
-- - Image: `scml_vm_load_file` of vm/vm.c. Image/RoundTrip, Image/Loads, Image/Labels and
--   Image/Lines are about files that the compiler has written.
-- - Vm: vm/vm.c and vm/vm.h. Vm.antt has the state `ScmlVM`; Vm/Values and Vm/Vars the values and
--   variables, Vm/Heap the heap, Vm/Events the events, Vm/Decode `decode_operand`, Vm/Outcome the
--   ends of an instruction, Vm/Ops and its children the cases of the switch, Vm/Step `scml_vm_step`
--   and `scml_vm_run`. Vm/Api has the accessors for a host,
--   and Vm/Valid the bounds of the tables.
-- - Lexer: `scml_lex_line` of lexer/lexer.c. Lexer/Tokens has the types of lexer/lexer.h,
--   Lexer/Strings the strings and their escapes, Lexer/Words the numbers and words. Lexer/Total is
--   about its loops, Lexer/Columns about the places of tokens; Lexer/Print writes tokens out, and
--   Lexer/Numerals, Lexer/Leads, Lexer/Reading and Lexer/RoundTrip read them back.
-- - Parser: `scml_parse_file` of parser/parser.c behind the preprocessor. Parser/Numbers has
--   `parse_int` and the tests for numbers. Parser/Operands, Parser/Bounds and Parser/Accepted are
--   about the statements that it makes, Parser/Names about the names of opcodes, Parser/Runs about
--   a program from its text to a step.
-- - Debugger: debugger/debugger.c. Debugger/Continue is about `scml_debugger_continue`.
-- - Runtime: the registry of runtime/scml_runtime_modules.c. Runtime/Tables and Runtime/Install are
--   the built-in modules; Runtime/Reach and Runtime/Builtins are about the calls that reach a
--   module, Runtime/Shift about the removal of one. Runtime/Console has the functions of the module
--   `console`.
-- - Archive: compiler/scmr.c. Archive/Reader is a reader of the layout, and Archive/RoundTrip about
--   what it reads of an archive.
-- - Prelude: lists, texts, decimal numbers, machine words and results.
-- - Tests: concrete inputs.
--
-- How they interact: the lexer makes the tokens of a line, the parser the statements of a text, of
-- which the compiler writes a file; the compiler's file is what the loader reads; the loader's code is what the step
-- fetches from; an instruction changes variables, heap, events, output and `pc`; when nothing is left
-- to run, the step takes an event out of the queue and goes on at its handler. A host program
-- registers functions, which the instructions CALL and CALL_NATIVE run.
--
-- How the state corresponds: a record has the fields of the C struct. A table that the source keeps
-- as an array with a count is the list of its entries in use; the heap and the event queue keep their
-- length. An `int32_t` is its bit pattern, a number below 2 ^ 32, and sums, differences and products
-- wrap round; `size_t` is a number. A text is the list of its bytes. An instruction ends in an
-- `Outcome`: `next`, `ended` and `failed` are the returns 1, 0 and -1 of `scml_vm_step`, and
-- `undefined` stands where C leaves the behaviour open: `strcmp` of a null pointer, and the division
-- of the least integer by -1.
--
-- Parameters: the floating-point operations (`FloatOps`), and what a host function does with the
-- machine (`Host`), or a function of a runtime module; and the files of an archive. The bounds of
-- the tables are kept if the host functions keep them (`HostKeeps`).
--
-- Fuel: the loops of the lexer take a round for each character of the line, since every round moves
-- on. `run` and `debug_continue` count steps, since a script need not end. The rounds of a dirty
-- render over a row take the width of the row, of which each round uses up a cell. Decimal numbers
-- have at most 20 digits.
--
-- Not modelled: the preprocessor of parser/parser.c (its output is the text that `parse_text` starts
-- from), the functions behind the tables of runtime/scml_runtime_modules.c but for those of
-- `console`, most of which call the operating system, and main.c; null pointers; the trace on
-- `stderr`, and `scml_vm_dump_memory`. Memory that the source asks for is
-- taken to be there, and files are their contents.
pub mod Prelude
pub mod Opcode
pub mod Bytes
pub mod Vm
pub mod Compiler
pub mod Image
pub mod Lexer
pub mod Parser
pub mod Debugger
pub mod Runtime
pub mod Archive
pub mod Tests
