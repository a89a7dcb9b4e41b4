-- ===== src/Image/RoundTrip.antt =====
-- What the compiler writes, the machine loads.
use mathlib.Core.List.{append_assoc, append-nil}
use open_scm.Prelude.{
  ℕ, ◌-◌, ◌^◌, ◌<◌, ◌≡◌, refl, sym, false, List, [], ◌∷◌, ◌++◌, map, arith, ltb, length,
  length-append, take-append, drop-append,
}
use open_scm.Prelude.Text.{c_string_id}
use open_scm.Prelude.Result.{ok, ok-injective, reject_if-eq-ok, >>=-eq-ok, reject_if}
use open_scm.Bytes.{w16, w32, r8, r16, r32}
use open_scm.Bytes.Laws.{r16_at, r32_at, length-w32, length-w32_alone, length-w16_alone}
use open_scm.Vm.{LineEntry, LabelEntry}
use open_scm.Compiler.{
  LabelAddr, LineAddr, Layout, label_too_long, emit_lines, emit_labels, emit_header, scml_magic,
  scml_version,
}
use open_scm.Compiler.Bounds.{LinesFit, LabelsFit}
use open_scm.Image.{
  LoadError, truncated_line_table, truncated_label_table, truncated_label_name, bad_header,
  truncated_bytecode, fread, read_lines, read_labels, read_program,
}

fread-append :
    (n : ℕ) (xs ys : List ℕ) (e : LoadError) → n ≡ length xs → fread n (xs ++ ys) e ≡ ok (xs, ys)
unfolding fread
fread-append n xs ys e same =
    rw (take-append xs ys n same, drop-append xs ys n same) (ground (arith, length-append xs ys))

-- An entry of a table, as the machine keeps it.
abbrev pub loaded_line : LineAddr → LineEntry
loaded_line l = record { pc = l.addr; line = l.line }

abbrev pub loaded_label : LabelAddr → LabelEntry
loaded_label l = record { name = l.name; pc = l.addr }

read_lines-emit_lines :
    (lines : List LineAddr) (rest : List ℕ)
    → LinesFit lines
    → read_lines (length lines) (emit_lines lines ++ rest) ≡ ok (map loaded_line lines, rest)
unfolding read_lines emit_lines
read_lines-emit_lines [] rest fits = refl
read_lines-emit_lines (l ∷ lines) rest fits =
    let entry : List ℕ = w32 l.addr ++ w32 l.line in
    let split : (w32 l.addr ++ (w32 l.line ++ emit_lines lines)) ++ rest
        ≡ entry ++ (emit_lines lines ++ rest) =
      simp append_assoc in
    let addr : r32 entry 0 ≡ l.addr = r32_at [] (w32 l.line) l.addr 0 refl fits.0 in
    let line : r32 entry 4 ≡ l.line =
      rw append-nil at (r32_at (w32 l.addr) [] l.line 4 (sym (length-w32_alone l.addr)) fits.1) in
    rw (
      split,
      fread-append 8 entry (emit_lines lines ++ rest) truncated_line_table
          (omega (arith, length-w32 l.addr (w32 l.line), length-w32_alone l.line)),
      read_lines-emit_lines lines rest fits.2,
      addr,
      line,
    )

short_name : (n : ℕ) → ltb (2 ^ 16 - 1) n ≡ false → n < 2 ^ 16
short_name n h = ground arith

read_labels-emit_labels :
    (labels : List LabelAddr) (bytes : List ℕ)
    → LabelsFit labels
    → emit_labels labels ≡ ok bytes
    → read_labels (length labels) bytes ≡ ok (map loaded_label labels, [])
unfolding read_labels emit_labels
read_labels-emit_labels [] bytes fits h = rw (← ok-injective _ _ h)
read_labels-emit_labels (l ∷ labels) bytes fits h =
    let (u, short, more) =
      >>=-eq-ok (reject_if (ltb (2 ^ 16 - 1) (length l.name)) label_too_long) _ h in
    let (rest, others, done) = >>=-eq-ok (emit_labels labels) _ more in
    let entry : List ℕ = w32 l.addr ++ w16 (length l.name) in
    let split : w32 l.addr ++ (w16 (length l.name) ++ (l.name ++ rest))
        ≡ entry ++ (l.name ++ rest) =
      simp append_assoc in
    let size : length l.name < 2 ^ 16 =
      short_name (length l.name) (reject_if-eq-ok _ label_too_long short) in
    let addr : r32 entry 0 ≡ l.addr = r32_at [] (w16 (length l.name)) l.addr 0 refl fits.0 in
    let name_size : r16 entry 4 ≡ length l.name =
      rw append-nil at
        (r16_at (w32 l.addr) [] (length l.name) 4 (sym (length-w32_alone l.addr)) size) in
    rw (
      ← ok-injective _ _ done,
      split,
      fread-append 6 entry (l.name ++ rest) truncated_label_table (
          omega (arith, length-w32 l.addr (w16 (length l.name)), length-w16_alone (length l.name))),
      name_size,
      fread-append (length l.name) l.name rest truncated_label_name refl,
      read_labels-emit_labels labels rest fits.2 others,
      addr,
      c_string_id l.name fits.1,
    )

-- The fields of the header, where the machine reads them.
pub record HeaderReads (hdr : List ℕ) (l : Layout) : Type 0 where
  size : 18 ≡ length hdr
  magic : r32 hdr 0 ≡ scml_magic
  version : r16 hdr 4 ≡ scml_version
  code : r32 hdr 6 ≡ l.pc
  lines : r32 hdr 10 ≡ length l.lines
  labels : r32 hdr 14 ≡ length l.labels

emit_header-HeaderReads :
    (l : Layout)
    → l.pc < 2 ^ 32
    → length l.lines < 2 ^ 32
    → length l.labels < 2 ^ 32
    → HeaderReads (emit_header l) l
unfolding emit_header w32 w16 r32 r16 r8
emit_header-HeaderReads l p n k = record {
  size = refl;
  magic = refl;
  version = refl;
  code = omega arith;
  lines = omega arith;
  labels = omega arith;
}

-- What the tables and the code must satisfy for their sizes and numbers to fit the file format.
pub record Fits (l : Layout) (code : List ℕ) : Type 0 where
  pub code_size : l.pc ≡ length code
  pub code_fits : length code < 2 ^ 32
  pub line_count : length l.lines < 2 ^ 32
  pub label_count : length l.labels < 2 ^ 32
  pub lines : LinesFit l.lines
  pub labels : LabelsFit l.labels

pub read_program-file :
    (l : Layout) (code labels : List ℕ)
    → Fits l code
    → emit_labels l.labels ≡ ok labels
    → read_program (emit_header l ++ (code ++ (emit_lines l.lines ++ labels)))
      ≡ ok (record {
        code = code;
        lines = map loaded_line l.lines;
        labels = map loaded_label l.labels;
      })
unfolding read_program
read_program-file l code labels f h =
    let hdr =
      emit_header-HeaderReads l (omega (arith, f.code_size, f.code_fits)) f.line_count
        f.label_count in
    rw (
      fread-append 18 (emit_header l) (code ++ (emit_lines l.lines ++ labels)) bad_header hdr.size,
      hdr.magic,
      hdr.version,
      hdr.code,
      hdr.lines,
      hdr.labels,
      fread-append l.pc code (emit_lines l.lines ++ labels) truncated_bytecode f.code_size,
      read_lines-emit_lines l.lines labels f.lines,
      read_labels-emit_labels l.labels labels f.labels h,
    )
