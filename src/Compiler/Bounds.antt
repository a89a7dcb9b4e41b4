-- ===== src/Compiler/Bounds.antt =====
-- The tables that the first pass makes hold 32-bit numbers and C strings, and no more entries than
-- there are statements.
use open_scm.Prelude.{
  ℕ, ◌+◌, ◌^◌, ◌≤◌, ◌<◌, ◌≡◌, List, [], ◌∷◌, ◌++◌, Option, none, some, arith, length, length-append,
}
use open_scm.Prelude.Text.{Text, IsCString}
use open_scm.Prelude.Result.{ok, >>=-eq-ok}
use open_scm.Opcode.{Opcode}
use open_scm.Compiler.{
  Operand, Statement, LabelAddr, LineAddr, Layout, start, place, place_label, place_code, layout,
  find_label,
}
use open_scm.Compiler.Encoding.{AllAssembled, AddressesFit}

-- The numbers are `uint32_t`, and the names C strings.
abbrev pub LinesFit : List LineAddr → Type 0
LinesFit [] = Unit
LinesFit (l ∷ lines) = (l.addr < 2 ^ 32) × (l.line < 2 ^ 32) × LinesFit lines

abbrev pub LabelsFit : List LabelAddr → Type 0
LabelsFit [] = Unit
LabelsFit (l ∷ labels) = (l.addr < 2 ^ 32) × IsCString l.name × LabelsFit labels

-- What the parser makes: a line number that fits, a label that is a C string, and at most eight
-- operands.
abbrev pub CleanLabel : Option Text → Type 0
CleanLabel none = Unit
CleanLabel (some name) = IsCString name

pub record IsParsed (s : Statement) : Type 0 where
  pub line_fits : s.line < 2 ^ 32
  pub label_clean : CleanLabel s.label
  pub operands_good : AllAssembled s.operands
  pub few_operands : length s.operands ≤ 8

abbrev pub AllParsed : List Statement → Type 0
AllParsed [] = Unit
AllParsed (s ∷ ss) = IsParsed s × AllParsed ss

LinesFit-append :
    (xs : List LineAddr) (y : LineAddr)
    → LinesFit xs
    → y.addr < 2 ^ 32
    → y.line < 2 ^ 32
    → LinesFit (xs ++ y ∷ [])
LinesFit-append [] y h a l = (a, l, tt)
LinesFit-append (x ∷ xs) y h a l = (h.0, h.1, LinesFit-append xs y h.2 a l)

LabelsFit-append :
    (xs : List LabelAddr) (y : LabelAddr)
    → LabelsFit xs
    → y.addr < 2 ^ 32
    → IsCString y.name
    → LabelsFit (xs ++ y ∷ [])
LabelsFit-append [] y h a n = (a, n, tt)
LabelsFit-append (x ∷ xs) y h a n = (h.0, h.1, LabelsFit-append xs y h.2 a n)

-- What holds throughout the first pass, `count` statements from the start.
pub record InBounds (l : Layout) (count : ℕ) : Type 0 where
  pub pc_fits : l.pc < 2 ^ 32
  pub entries : length l.lines + length l.labels ≡ count
  pub lines : LinesFit l.lines
  pub labels : LabelsFit l.labels

place-InBounds :
    (line : ℕ) (label : Option Text) (op : Opcode) (os : List Operand) (l l' : Layout) (count : ℕ)
    → InBounds l count
    → line < 2 ^ 32
    → CleanLabel label
    → place (record { line = line; label = label; opcode = op; operands = os }) l ≡ ok l'
    → InBounds l' (count + 1)
unfolding place place_label place_code
place-InBounds line (some name) op os l l' count b fits clean h = ground (
  arith,
  length-append l.labels (record { name = name; addr = l.pc } ∷ []),
  LabelsFit-append l.labels (record { name = name; addr = l.pc }) b.labels b.pc_fits clean,
)
place-InBounds line none op os l l' count b fits clean h = ground (
  arith,
  length-append l.lines (record { addr = l.pc; line = line } ∷ []),
  LinesFit-append l.lines (record { addr = l.pc; line = line }) b.lines b.pc_fits fits,
)

layout-InBounds_from :
    (ss : List Statement) (l l' : Layout) (count : ℕ)
    → InBounds l count
    → AllParsed ss
    → layout ss l ≡ ok l'
    → InBounds l' (count + length ss)
unfolding layout
layout-InBounds_from [] l l' count b good h = ground arith
layout-InBounds_from (s ∷ ss) l l' count b good h =
    let (m, placed, more) = >>=-eq-ok (place s l) (layout ss) h in
    let here =
      place-InBounds s.line s.label s.opcode s.operands l m count b good.0.line_fits
        good.0.label_clean placed in
    let there = layout-InBounds_from ss m l' (count + 1) here good.1 more in ground (arith, there)

-- After a first pass over parsed statements that succeeds all addresses and line numbers are
-- 32-bit numbers, all labels are C strings, and the two tables have one entry for each statement.
pub layout-InBounds :
    (ss : List Statement) (l : Layout)
    → AllParsed ss
    → layout ss start ≡ ok l
    → InBounds l (length ss)
layout-InBounds ss l good h = ground (arith, layout-InBounds_from ss start l 0 (omega arith) good h)

-- So every address that a label is resolved to is a `uint32_t`.
pub LabelsFit-AddressesFit : (labels : List LabelAddr) → LabelsFit labels → AddressesFit labels
unfolding find_label
LabelsFit-AddressesFit [] fits name a h = ground arith
LabelsFit-AddressesFit (l ∷ labels) fits name a h =
    ground (arith, LabelsFit-AddressesFit labels fits.2 name a)
