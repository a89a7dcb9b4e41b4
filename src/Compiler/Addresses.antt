-- ===== src/Compiler/Addresses.antt =====
-- The first pass: the address of a label is the number of bytes that the second pass writes for the
-- statements before it.
use open_scm.Prelude.{
  ℕ, ◌+◌, ◌^◌, ◌<◌, ◌≡◌, ap, sym, ◌∙◌, List, [], ◌∷◌, ◌++◌, Option, none, some, arith, ltb, ◌-◌,
  length, length-append, Option-cases, inl, inr,
}
use open_scm.Prelude.Text.{Text, text_eq_refl}
use open_scm.Prelude.Result.{ok, >>=-eq-ok, reject_if}
use open_scm.Bytes.{w8, w16, w32}
use open_scm.Opcode.{
  Opcode, OperandType, none_type, int_type, string_type, var_type, address_type, float_type,
}
use open_scm.Compiler.{
  Operand, Statement, LabelAddr, string_too_long, Layout, start, operand_size, operands_size,
  stmt_size, find_label, place_label, place_code, place, layout, resolve_value, emit_text,
  emit_value, emit_operands, emit_statement, emit_code,
}

-- The number of bytes of a statement, and of a list of them.
abbrev pub statement_bytes : Statement → ℕ
statement_bytes s = elim s.label [ some _ ↦ 0 | none ↦ 2 + operands_size s.operands ]

unfoldable pub code_size : List Statement → ℕ
code_size [] = 0
code_size (s ∷ ss) = statement_bytes s + code_size ss

pub code_size-append : (xs ys : List Statement) → code_size (xs ++ ys) ≡ code_size xs + code_size ys
unfolding code_size
code_size-append [] ys = omega arith
code_size-append (x ∷ xs) ys = omega (arith, code_size-append xs ys)

-- The sizes that the first pass adds up are those of the bytes that the second pass writes.
length-emit_text : (text : Text) (b : List ℕ) → emit_text text ≡ ok b → length b ≡ 2 + length text
unfolding emit_text w16
length-emit_text text b h =
    let (u, short, done) =
      >>=-eq-ok (reject_if (ltb (2 ^ 16 - 1) (length text)) string_too_long) _ h in
    ground (arith, length-append (w16 (length text)) text)

length-emit_value_of :
    (labels : List LabelAddr) (t : OperandType) (text : Text) (integer real : ℕ) (b : List ℕ)
    → emit_value labels (record { type = t; text = text; integer = integer; real = real }) ≡ ok b
    → 1 + length b ≡ operand_size (record { type = t; text = text; integer = integer; real = real })
unfolding emit_value resolve_value operand_size w32
length-emit_value_of labels none_type text i r b h = omega (arith, length-emit_text text b h)
length-emit_value_of labels string_type text i r b h = omega (arith, length-emit_text text b h)
length-emit_value_of labels var_type text i r b h = omega (arith, length-emit_text text b h)
length-emit_value_of labels int_type text i r b h = ground arith
length-emit_value_of labels float_type text i r b h = ground arith
length-emit_value_of labels address_type text i r b h = ground arith

pub length-emit_operands :
    (labels : List LabelAddr) (os : List Operand) (b : List ℕ)
    → emit_operands labels os ≡ ok b
    → length b ≡ operands_size os
unfolding emit_operands operands_size w8
length-emit_operands labels [] b h = ground arith
length-emit_operands labels (o ∷ os) b h =
    let (v, value, more) = >>=-eq-ok (emit_value labels o) _ h in
    let (rest, others, done) = >>=-eq-ok (emit_operands labels os) _ more in
    ground (
      arith,
      length-emit_value_of labels o.type o.text o.integer o.real v value,
      length-emit_operands labels os rest others,
      length-append v rest,
    )

length-emit_statement :
    (labels : List LabelAddr) (line : ℕ) (label : Option Text) (op : Opcode) (os : List Operand)
    (b : List ℕ)
    → emit_statement labels (record { line = line; label = label; opcode = op; operands = os })
      ≡ ok b
    → length b ≡ statement_bytes (record { line = line; label = label; opcode = op; operands = os })
unfolding emit_statement w8
length-emit_statement labels line (some name) op os b h = ground arith
length-emit_statement labels line none op os b h =
    let (v, value, done) = >>=-eq-ok (emit_operands labels os) _ h in
    ground (arith, length-emit_operands labels os v value)

pub length-emit_code :
    (labels : List LabelAddr) (ss : List Statement) (b : List ℕ)
    → emit_code labels ss ≡ ok b
    → length b ≡ code_size ss
unfolding emit_code code_size
length-emit_code labels [] b h = ground arith
length-emit_code labels (s ∷ ss) b h =
    let (v, value, more) = >>=-eq-ok (emit_statement labels s) _ h in
    let (rest, others, done) = >>=-eq-ok (emit_code labels ss) _ more in
    ground (
      arith,
      length-emit_statement labels s.line s.label s.opcode s.operands v value,
      length-emit_code labels ss rest others,
      length-append v rest,
    )

-- One statement of the first pass moves the address on by its bytes.
pc-place :
    (line : ℕ) (label : Option Text) (op : Opcode) (os : List Operand) (l l' : Layout)
    → place (record { line = line; label = label; opcode = op; operands = os }) l ≡ ok l'
    → l.pc + statement_bytes (record { line = line; label = label; opcode = op; operands = os })
      < 2 ^ 32
    → l'.pc
      ≡ l.pc + statement_bytes (record { line = line; label = label; opcode = op; operands = os })
unfolding place place_label place_code stmt_size
pc-place line (some name) op os l l' h fits = ground arith
pc-place line none op os l l' h fits = ground arith

-- The address at the end of a first pass that succeeds is the one at its start plus the size of
-- the code, if that is less than 2 ^ 32.
pub pc-layout :
    (ss : List Statement) (l l' : Layout)
    → layout ss l ≡ ok l'
    → l.pc + code_size ss < 2 ^ 32
    → l'.pc ≡ l.pc + code_size ss
unfolding layout code_size
pc-layout [] l l' h fits = ground arith
pc-layout (s ∷ ss) l l' h fits =
    let (m, placed, more) = >>=-eq-ok (place s l) (layout ss) h in
    let here = pc-place s.line s.label s.opcode s.operands l m placed (omega arith) in
    omega (arith, here, pc-layout ss m l' more (omega (arith, here)))

find_label-append :
    (labels : List LabelAddr) (new : LabelAddr) (name : Text) (a : ℕ)
    → find_label labels name ≡ some a
    → find_label (labels ++ new ∷ []) name ≡ some a
unfolding find_label
find_label-append [] new name a h = ground arith
find_label-append (x ∷ labels) new name a h = ground (arith, find_label-append labels new name a)

find_label-new :
    (labels : List LabelAddr) (name : Text) (a : ℕ)
    → find_label labels name ≡ none
    → find_label (labels ++ record { name = name; addr = a } ∷ []) name ≡ some a
unfolding find_label
find_label-new [] name a h = rw (text_eq_refl name)
find_label-new (x ∷ labels) name a h = ground (arith, find_label-new labels name a)

-- A label that has an address keeps it.
find_label-place :
    (line : ℕ) (label : Option Text) (op : Opcode) (os : List Operand) (l l' : Layout) (name : Text)
    (a : ℕ)
    → place (record { line = line; label = label; opcode = op; operands = os }) l ≡ ok l'
    → find_label l.labels name ≡ some a
    → find_label l'.labels name ≡ some a
unfolding place place_label place_code
find_label-place line (some new) op os l l' name a h found =
    ground (arith, find_label-append l.labels (record { name = new; addr = l.pc }) name a found)
find_label-place line none op os l l' name a h found = ground arith

find_label-layout :
    (ss : List Statement) (l l' : Layout) (name : Text) (a : ℕ)
    → layout ss l ≡ ok l'
    → find_label l.labels name ≡ some a
    → find_label l'.labels name ≡ some a
unfolding layout
find_label-layout [] l l' name a h found = ground arith
find_label-layout (s ∷ ss) l l' name a h found =
    let (m, placed, more) = >>=-eq-ok (place s l) (layout ss) h in
    find_label-layout ss m l' name a more
      (find_label-place s.line s.label s.opcode s.operands l m name a placed found)

-- A label that the first pass places.
find_label-place_new :
    (s : Statement) (l l' : Layout) (name : Text)
    → s.label ≡ some name
    → place s l ≡ ok l'
    → find_label l'.labels name ≡ some l.pc
unfolding place place_label
find_label-place_new s l l' name e h = elim (Option-cases (find_label l.labels name)) [
  | inl fresh ↦ ground (arith, find_label-new l.labels name l.pc fresh)
  | inr (a, taken) ↦ ground arith
]

find_label-layout_from :
    (pre post : List Statement) (s : Statement) (l l' : Layout) (name : Text)
    → s.label ≡ some name
    → layout (pre ++ s ∷ post) l ≡ ok l'
    → l.pc + code_size pre < 2 ^ 32
    → find_label l'.labels name ≡ some (l.pc + code_size pre)
unfolding layout code_size
find_label-layout_from [] post s l l' name e h fits =
    let (m, placed, more) = >>=-eq-ok (place s l) (layout post) h in
    rw (let z : l.pc + 0 ≡ l.pc = omega arith in z)
      (find_label-layout post m l' name l.pc more (find_label-place_new s l m name e placed))
find_label-layout_from (x ∷ pre) post s l l' name e h fits =
    let (m, placed, more) = >>=-eq-ok (place x l) (layout (pre ++ s ∷ post)) h in
    let here = pc-place x.line x.label x.opcode x.operands l m placed (omega arith) in
    let there = find_label-layout_from pre post s m l' name e more (omega (arith, here)) in
    there ∙ ap some (omega (arith, here))

pub find_label-layout-code_size :
    (pre post : List Statement) (s : Statement) (l : Layout) (name : Text)
    → s.label ≡ some name
    → layout (pre ++ s ∷ post) start ≡ ok l
    → code_size pre < 2 ^ 32
    → find_label l.labels name ≡ some (code_size pre)
find_label-layout-code_size pre post s l name e h fits =
    find_label-layout_from pre post s start l name e h (omega arith) ∙ ap some (omega arith)

-- The address that a first pass that succeeds gives to a label is the number of bytes that the
-- second pass writes for the statements before it, if that is less than 2 ^ 32.
pub find_label-layout-start :
    (pre post : List Statement) (s : Statement) (l : Layout) (name : Text) (bytes : List ℕ)
    → s.label ≡ some name
    → layout (pre ++ s ∷ post) start ≡ ok l
    → emit_code l.labels pre ≡ ok bytes
    → length bytes < 2 ^ 32
    → find_label l.labels name ≡ some (length bytes)
find_label-layout-start pre post s l name bytes e h emitted fits =
    let size = length-emit_code l.labels pre bytes emitted in
    find_label-layout-code_size pre post s l name e h (omega (arith, size, fits))
    ∙ ap some (sym size)
