-- ===== src/Image/Lines.antt =====
-- The line of a message: the machine finds the source line of an instruction in the loaded table.
use open_scm.Prelude.{
  ℕ, ◌+◌, ◌^◌, ◌<◌, ◌≡◌, refl, ap, sym, ◌∙◌, List, [], ◌∷◌, ◌++◌, Option, none, some, map, arith,
  length, Option-cases, inl, inr,
}
use mathlib.Core.List.{append_assoc, append-nil}
use open_scm.Prelude.Text.{Text}
use open_scm.Prelude.Result.{ok, >>=-eq-ok, ok-injective}
use open_scm.Opcode.{Opcode}
use open_scm.Compiler.{
  Operand, Statement, LineAddr, Layout, start, place, place_label, place_code, stmt_size,
  operands_size, layout, compile_files,
}
use open_scm.Compiler.Addresses.{statement_bytes, code_size}
use open_scm.Compiler.Bounds.{AllParsed}
use open_scm.Image.{load_file}
use open_scm.Image.RoundTrip.{loaded_line}
use open_scm.Image.Loads.{with_program, load_file-compile_files}
use open_scm.Vm.{Vm}
use open_scm.Vm.Outcome.{line_from, current_line}

-- The entries of statements of which the first stands at `pc`.
abbrev entry_of : Option Text → ℕ → ℕ → List LineAddr
entry_of (some name) pc line = []
entry_of none pc line = record { addr = pc; line = line } ∷ []

lines_of : List Statement → ℕ → List LineAddr
lines_of [] pc = []
lines_of (s ∷ ss) pc = entry_of s.label pc s.line ++ lines_of ss (pc + statement_bytes s)

lines-place :
    (line : ℕ) (label : Option Text) (op : Opcode) (os : List Operand) (l l' : Layout)
    → place (record { line = line; label = label; opcode = op; operands = os }) l ≡ ok l'
    → l.pc + statement_bytes (record { line = line; label = label; opcode = op; operands = os })
      < 2 ^ 32
    → (l'.lines ≡ l.lines ++ entry_of label l.pc line)
      × (l'.pc
          ≡ l.pc
            + statement_bytes (record { line = line; label = label; opcode = op; operands = os }))
unfolding place place_label place_code stmt_size
lines-place line (some name) op os l l' h fits = ground (arith, append-nil l.lines)
lines-place line none op os l l' h fits = ground arith

lines-layout :
    (ss : List Statement) (l l' : Layout)
    → layout ss l ≡ ok l'
    → l.pc + code_size ss < 2 ^ 32
    → l'.lines ≡ l.lines ++ lines_of ss l.pc
unfolding layout code_size lines_of
lines-layout [] l l' h fits = ground (arith, append-nil l.lines)
lines-layout (s ∷ ss) l l' h fits =
    let (m, placed, more) = >>=-eq-ok (place s l) (layout ss) h in
    let (here, pc) = lines-place s.line s.label s.opcode s.operands l m placed (omega arith) in
    lines-layout ss m l' more (omega (arith, pc))
    ∙ ap (λ t. t ++ lines_of ss m.pc) here
    ∙ append_assoc l.lines (entry_of s.label l.pc s.line) (lines_of ss m.pc)
    ∙ ap (λ n. l.lines ++ (entry_of s.label l.pc s.line ++ lines_of ss n)) pc

-- Entries that stand behind `pc` do not change the line.
line_from-behind :
    (ss : List Statement) (k q pc : ℕ)
    → pc < q
    → line_from k (map loaded_line (lines_of ss q)) pc ≡ k
unfolding line_from lines_of
line_from-behind [] k q pc h = refl
line_from-behind (s ∷ ss) k q pc h = elim (Option-cases s.label) [
  | inl code ↦ rw (code, lines_of) (ground arith)
  | inr (name, label) ↦ rw (label, lines_of) (line_from-behind ss k (q + 0) pc (omega arith))
]

bytes_code : (s : Statement) → s.label ≡ none → statement_bytes s ≡ 2 + operands_size s.operands
bytes_code s h = rw (h, statement_bytes) refl

bytes_label : (s : Statement) (name : Text) → s.label ≡ some name → statement_bytes s ≡ 0
bytes_label s name h = rw (h, statement_bytes) refl

line_from-lines_of :
    (pre post : List Statement) (s : Statement) (k p pc : ℕ)
    → s.label ≡ none
    → pc ≡ p + code_size pre
    → line_from k (map loaded_line (lines_of (pre ++ s ∷ post) p)) pc ≡ s.line
unfolding line_from lines_of code_size
line_from-lines_of [] post s k p pc plain e =
    rw (plain, lines_of)
      (ground
        (arith, line_from-behind post s.line (p + (2 + operands_size s.operands)) pc (omega arith)))
line_from-lines_of (x ∷ pre) post s k p pc plain e = elim (Option-cases x.label) [
  | inl code ↦
      let rest =
        line_from-lines_of pre post s x.line (p + (2 + operands_size x.operands)) pc plain
          (omega (arith, bytes_code x code)) in
      rw (code, lines_of) (ground (arith, rest))
  | inr (name, label) ↦
      rw (label, lines_of)
        (line_from-lines_of pre post s k (p + 0) pc plain (omega (arith, bytes_label x name label)))
]

-- In a file compiled from parsed statements, with code of less than 2 ^ 32 bytes and fewer than 2
-- ^ 32 statements, and loaded, the line that the machine finds for the address of a statement
-- with an opcode, and puts in front of its messages, is the line number that the statement
-- carries.
pub current_line-load_file :
    (pre post : List Statement) (s : Statement) (file : List ℕ) (vm vm' : Vm)
    → AllParsed (pre ++ s ∷ post)
    → code_size (pre ++ s ∷ post) < 2 ^ 32
    → length (pre ++ s ∷ post) < 2 ^ 32
    → s.label ≡ none
    → compile_files (pre ++ s ∷ post) ≡ ok file
    → load_file file vm ≡ ok vm'
    → current_line vm' (code_size pre) ≡ s.line
unfolding current_line
current_line-load_file pre post s file vm vm' good small few plain compiled loaded =
    let (l, code, first, second, image) =
      load_file-compile_files (pre ++ s ∷ post) file vm good small few compiled in
    let same : with_program vm l code ≡ vm' = ok-injective _ _ (sym image ∙ loaded) in
    let lines = lines-layout (pre ++ s ∷ post) start l first (omega arith) in
    ap (λ m. line_from 0 m.lines (code_size pre)) (sym same)
    ∙ ap (λ t. line_from 0 (map loaded_line t) (code_size pre)) lines
    ∙ line_from-lines_of pre post s 0 0 (code_size pre) plain (omega arith)
