-- ===== src/Compiler.antt =====
-- compiler/compiler.c: two passes over the parsed statements. The first gives every label an address
-- and every statement a line entry; the second writes the bytes of a `.scmlbin` file.
-- The statements are those of all source files, one file after the other. What goes to the output
-- file is a list of bytes; on an error the source removes the file.
pub mod Addresses
pub mod Encoding
pub mod Bounds
use open_scm.Prelude.{
  ℕ, ◌+◌, ◌-◌, ◌%◌, ◌^◌, Bool, true, false, ◌||◌, List, [], ◌∷◌, ◌++◌, Option, none, some, ◌==◌,
  ltb, if◌then◌else◌, length,
}
use open_scm.Prelude.Text.{Text, text_eq}
use open_scm.Prelude.Result.{Result, ok, err, ◌>>=◌, ◌>>◌, reject_if}
use open_scm.Bytes.{w8, w16, w32}
use open_scm.Opcode.{Opcode, number, OperandType, tag, int_type, address_type, float_type}

-- `ScmlOperand`, `ScmlStatement` and `ScmlProgram` of parser/parser.h. A statement with a label is
-- only a label; the parser makes two of a line with both.
pub record Operand : Type 0 where
  pub type : OperandType
  pub text : Text
  pub integer : ℕ
  pub real : ℕ

pub record Statement : Type 0 where
  pub line : ℕ
  pub label : Option Text
  pub opcode : Opcode
  pub operands : List Operand

pub record LabelAddr : Type 0 where
  pub name : Text
  pub addr : ℕ

pub record LineAddr : Type 0 where
  pub addr : ℕ
  pub line : ℕ

pub data CompileError : Type 0 where
  duplicate_label unresolved_label : Text → CompileError
  string_too_long label_too_long : CompileError

abbrev pub is_word : OperandType → Bool
is_word int_type = true
is_word address_type = true
is_word float_type = true
is_word _ = false

unfoldable pub operand_size : Operand → ℕ
operand_size o = if is_word o.type then 5 else 3 + length o.text

unfoldable pub operands_size : List Operand → ℕ
operands_size [] = 0
operands_size (o ∷ os) = operand_size o + operands_size os

-- A `uint32_t`.
unfoldable pub stmt_size : Statement → ℕ
stmt_size s = elim s.label [ some _ ↦ 0 | none ↦ (2 + operands_size s.operands) % 2 ^ 32 ]

unfoldable pub find_label : List LabelAddr → Text → Option ℕ
find_label [] name = none
find_label (l ∷ labels) name =
    let rest = find_label labels name in if text_eq l.name name then some l.addr else rest

-- What the first pass has found so far.
pub record Layout : Type 0 where
  pub pc : ℕ
  pub labels : List LabelAddr
  pub lines : List LineAddr

abbrev pub start : Layout
start = record { pc = 0; labels = []; lines = [] }

unfoldable pub place_label : Text → Layout → Result CompileError Layout
place_label name l = elim (find_label l.labels name) [
  | some _ ↦ err (duplicate_label name)
  | none ↦ ok (record l { labels = l.labels ++ record { name = name; addr = l.pc } ∷ [] })
]

unfoldable pub place_code : Statement → Layout → Layout
place_code s l = record l {
  pc = (l.pc + stmt_size s) % 2 ^ 32;
  lines = l.lines ++ record { addr = l.pc; line = s.line } ∷ [];
}

-- The body of the first loop.
unfoldable pub place : Statement → Layout → Result CompileError Layout
place s l = elim s.label [ some name ↦ place_label name l | none ↦ ok (place_code s l) ]

unfoldable pub layout : List Statement → Layout → Result CompileError Layout
layout [] l = ok l
layout (s ∷ ss) l = do l' ← place s l; layout ss l'

unfoldable pub resolve_value : List LabelAddr → Operand → Result CompileError ℕ
resolve_value labels o = elim o.type [
  | address_type ↦ elim (find_label labels o.text) [
    | none ↦ err (unresolved_label o.text)
    | some addr ↦ ok addr
  ]
  | _ ↦ ok o.integer
]

unfoldable pub emit_text : Text → Result CompileError (List ℕ)
emit_text text = do
  reject_if (ltb (2 ^ 16 - 1) (length text)) string_too_long
  ok (w16 (length text) ++ text)

unfoldable pub emit_value : List LabelAddr → Operand → Result CompileError (List ℕ)
emit_value labels o = elim o.type [
  | float_type ↦ ok (w32 o.real)
  | int_type ↦ do v ← resolve_value labels o; ok (w32 v)
  | address_type ↦ do v ← resolve_value labels o; ok (w32 v)
  | _ ↦ emit_text o.text
]

unfoldable pub emit_operands : List LabelAddr → List Operand → Result CompileError (List ℕ)
emit_operands labels [] = ok []
emit_operands labels (o ∷ os) = do
  v ← emit_value labels o
  rest ← emit_operands labels os
  ok (w8 (tag o.type) ++ (v ++ rest))

unfoldable pub emit_statement : List LabelAddr → Statement → Result CompileError (List ℕ)
emit_statement labels s = elim s.label [
  | some _ ↦ ok []
  | none ↦ do
    os ← emit_operands labels s.operands
    ok (w8 (number s.opcode) ++ (w8 (length s.operands) ++ os))
]

unfoldable pub emit_code : List LabelAddr → List Statement → Result CompileError (List ℕ)
emit_code labels [] = ok []
emit_code labels (s ∷ ss) = do
  bytes ← emit_statement labels s
  rest ← emit_code labels ss
  ok (bytes ++ rest)

unfoldable pub emit_lines : List LineAddr → List ℕ
emit_lines [] = []
emit_lines (l ∷ lines) = w32 l.addr ++ (w32 l.line ++ emit_lines lines)

unfoldable pub emit_labels : List LabelAddr → Result CompileError (List ℕ)
emit_labels [] = ok []
emit_labels (l ∷ labels) = do
  reject_if (ltb (2 ^ 16 - 1) (length l.name)) label_too_long
  rest ← emit_labels labels
  ok (w32 l.addr ++ (w16 (length l.name) ++ (l.name ++ rest)))

-- SCML_MAGIC and SCML_VERSION.
abbrev pub scml_magic : ℕ
scml_magic = 0x4c4d4353

abbrev pub scml_version : ℕ
scml_version = 5

unfoldable pub emit_header : Layout → List ℕ
emit_header l =
    w32 scml_magic
    ++ (w16 scml_version ++ (w32 l.pc ++ (w32 (length l.lines) ++ w32 (length l.labels))))

-- `scml_compile_files` from the parsed programs on, whose statements stand in one list.
unfoldable pub compile_files : List Statement → Result CompileError (List ℕ)
compile_files statements = do
  l ← layout statements start
  code ← emit_code l.labels statements
  labels ← emit_labels l.labels
  ok (emit_header l ++ (code ++ (emit_lines l.lines ++ labels)))
