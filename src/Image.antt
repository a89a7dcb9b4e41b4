-- ===== src/Image.antt =====
-- `scml_vm_load_file` of vm/vm.c: a `.scmlbin` file, read from front to back.
pub mod RoundTrip
pub mod Loads
pub mod Labels
pub mod Lines
use mathlib.Core.Option
use open_scm.Prelude.{
  ℕ, zero, suc, ◌+◌, ◌*◌, ◌^◌, Bool, false, not, ◌&&◌, ◌||◌, List, [], ◌∷◌, ◌++◌, Option, none,
  some, ◌==◌, ltb, if◌then◌else◌, length, get_or, take, drop,
}
use open_scm.Prelude.Text.{Text, c_string}
use open_scm.Prelude.Result.{Result, ok, err, ◌>>=◌, ◌>>◌, reject_if}
use open_scm.Bytes.{r16, r32}
use open_scm.Vm.{LineEntry, LabelEntry, Vm}
use open_scm.Compiler.{scml_magic, scml_version}

pub data LoadError : Type 0 where
  bad_header not_supported truncated_bytecode truncated_line_table : LoadError
  truncated_label_table truncated_label_name : LoadError

-- `fread` of `n` bytes: what was read and what is left. A short read is an error.
unfoldable pub fread : ℕ → List ℕ → LoadError → Result LoadError (List ℕ × List ℕ)
fread n file e = if ltb (length file) n then err e else ok (take n file, drop n file)

unfoldable pub read_lines : ℕ → List ℕ → Result LoadError (List LineEntry × List ℕ)
read_lines zero file = ok ([], file)
read_lines (suc n) file = do
  (b, file₁) ← fread 8 file truncated_line_table
  (rest, file₂) ← read_lines n file₁
  ok (record { pc = r32 b 0; line = r32 b 4 } ∷ rest, file₂)

unfoldable pub read_labels : ℕ → List ℕ → Result LoadError (List LabelEntry × List ℕ)
read_labels zero file = ok ([], file)
read_labels (suc n) file = do
  (b, file₁) ← fread 6 file truncated_label_table
  (name, file₂) ← fread (r16 b 4) file₁ truncated_label_name
  (rest, file₃) ← read_labels n file₂
  ok (record { name = c_string name; pc = r32 b 0 } ∷ rest, file₃)

pub record Program : Type 0 where
  pub code : List ℕ
  pub lines : List LineEntry
  pub labels : List LabelEntry

-- The file's contents.
unfoldable pub read_program : List ℕ → Result LoadError Program
read_program file = do
  (hdr, file₁) ← fread 18 file bad_header
  reject_if (not (r32 hdr 0 == scml_magic) || not (r16 hdr 4 == scml_version)) not_supported
  (code, file₂) ← fread (r32 hdr 6) file₁ truncated_bytecode
  (lines, file₃) ← read_lines (r32 hdr 10) file₂
  (labels, file₄) ← read_labels (r32 hdr 14) file₃
  ok (record { code = code; lines = lines; labels = labels })

-- The machine with the program in place of the old one; the rest of its state stays.
unfoldable pub load_file : List ℕ → Vm → Result LoadError Vm
load_file file vm = do
  p ← read_program file
  ok (record vm { code = p.code; lines = p.lines; labels = p.labels; pc = 0; halted = false })
