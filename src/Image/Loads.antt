-- ===== src/Image/Loads.antt =====
-- A compiled program is loaded as the code and the tables that the compiler made.
use open_scm.Prelude.{ℕ, ◌^◌, ◌<◌, ◌≡◌, false, List, ◌++◌, map, arith, length}
use open_scm.Prelude.Result.{ok, >>=-eq-ok, ok-injective}
use open_scm.Vm.{Vm}
use open_scm.Compiler.{
  Statement, Layout, start, layout, emit_code, emit_lines, emit_labels, emit_header, compile_files,
}
use open_scm.Compiler.Addresses.{code_size, pc-layout, length-emit_code}
use open_scm.Compiler.Bounds.{AllParsed, layout-InBounds}
use open_scm.Image.{load_file}
use open_scm.Image.RoundTrip.{loaded_line, loaded_label, Fits, read_program-file}

-- The machine after loading the code `code` with the tables of `l`.
abbrev pub with_program : Vm → Layout → List ℕ → Vm
with_program vm l code = record vm {
  code = code;
  lines = map loaded_line l.lines;
  labels = map loaded_label l.labels;
  pc = 0;
  halted = false;
}

-- The two passes that a compilation that succeeded has made.
pub compile_files-parts :
    (ss : List Statement) (file : List ℕ)
    → compile_files ss ≡ ok file
    → (l : Layout) × (code : List ℕ) × (labels : List ℕ) × (layout ss start ≡ ok l)
      × (emit_code l.labels ss ≡ ok code)
      × (emit_labels l.labels ≡ ok labels)
      × (emit_header l ++ (code ++ (emit_lines l.lines ++ labels)) ≡ file)
unfolding compile_files
compile_files-parts ss file h =
    let (l, first, more) = >>=-eq-ok (layout ss start) _ h in
    let (code, second, rest) = >>=-eq-ok (emit_code l.labels ss) _ more in
    let (labels, third, done) = >>=-eq-ok (emit_labels l.labels) _ rest in
    (l, code, labels, first, second, third, ok-injective _ _ done)

-- A file compiled from parsed statements, with code of less than 2 ^ 32 bytes and fewer than 2 ^
-- 32 statements, is loaded: the machine gets the code of the second pass and the line and label
-- tables of the first, starts at address 0 and is not halted, and the rest of its state stays.
pub load_file-compile_files :
    (ss : List Statement) (file : List ℕ) (vm : Vm)
    → AllParsed ss
    → code_size ss < 2 ^ 32
    → length ss < 2 ^ 32
    → compile_files ss ≡ ok file
    → (l : Layout) × (code : List ℕ) × (layout ss start ≡ ok l)
      × (emit_code l.labels ss ≡ ok code)
      × (load_file file vm ≡ ok (with_program vm l code))
unfolding load_file
load_file-compile_files ss file vm good small few h =
    let (l, code, labels, first, second, third, same) = compile_files-parts ss file h in
    let b = layout-InBounds ss l good first in
    let size = length-emit_code l.labels ss code second in
    let pc = pc-layout ss start l first (omega arith) in
    let f : Fits l code = record {
      code_size = omega (arith, size, pc);
      code_fits = omega (arith, size);
      line_count = omega (arith, b.entries);
      label_count = omega (arith, b.entries);
      lines = b.lines;
      labels = b.labels;
    } in
    (l, code, first, second, rw (← same, read_program-file l code labels f third))
