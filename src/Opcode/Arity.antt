-- ===== src/Opcode/Arity.antt =====
-- The operand counts that the assembler accepts are those that the machine accepts, although the
-- two look the opcode up in different ways and a row may be an alias of an earlier one.
use mathlib.Core.Option
use open_scm.Prelude.{
  ℕ, ◌≤◌, ◌≡◌, refl, ◌⊎◌, inl, inr, Bool, true, false, ◌&&◌, List, [], ◌∷◌, Option, none, some,
  arith, leb,
}
use open_scm.Prelude.Text.{Text}
use open_scm.Opcode.{Opcode, number, nop}
use open_scm.Opcode.Table.{OpcodeInfo, g_opcodes}
use open_scm.Opcode.Lookup.{first_row, opcode_from_scm_code, opcode_from_name, opcode_info}

-- The opcode of the first row with the given number.
abbrev pub opcode_of : ℕ → Option Opcode
opcode_of byte = Option.map (λ r. r.opcode) (opcode_info byte)

-- Every opcode has a row in the table, and its number leads back to it and to no other opcode.
pub opcode_of-number : (op : Opcode) → opcode_of (number op) ≡ some op
unfolding opcode_info g_opcodes
opcode_of-number nop = refl
opcode_of-number _ = refl

-- A test that all rows pass, a lookup's result passes.
abbrev all_rows : (OpcodeInfo → Bool) → List OpcodeInfo → Bool
all_rows test [] = true
all_rows test (r ∷ rows) = test r && all_rows test rows

first_row-all :
    (test keep : OpcodeInfo → Bool) (rows : List OpcodeInfo) (r : OpcodeInfo)
    → all_rows keep rows ≡ true
    → first_row test rows ≡ some r
    → keep r ≡ true
unfolding first_row
first_row-all test keep [] r h e = ground arith
first_row-all test keep (x ∷ rows) r h e = ground (arith, first_row-all test keep rows r)

-- The machine's row allows every operand count of this row, of which none is above eight.
abbrev allows : OpcodeInfo → Option OpcodeInfo → Bool
allows r none = false
allows r (some m) = leb m.min_args r.min_args && leb r.max_args m.max_args && leb r.max_args 8

-- What the machine's check finds for a row that the assembler has used.
pub record Accepts (r m : OpcodeInfo) : Type 0 where
  pub found : opcode_info (number r.opcode) ≡ some m
  pub low : m.min_args ≤ r.min_args
  pub high : r.max_args ≤ m.max_args
  pub fits : r.max_args ≤ 8

keep_all : all_rows (λ r. allows r (opcode_info (number r.opcode))) g_opcodes ≡ true
unfolding opcode_info g_opcodes
keep_all = refl

allows-Accepts :
    (r : OpcodeInfo) (o : Option OpcodeInfo)
    → opcode_info (number r.opcode) ≡ o
    → allows r o ≡ true
    → (m : OpcodeInfo) × Accepts r m
allows-Accepts r none e h = ground arith
allows-Accepts r (some m) e h =
    (m, record { found = e; low = ground arith; high = ground arith; fits = ground arith })

first_row-Accepts :
    (test : OpcodeInfo → Bool) (r : OpcodeInfo)
    → first_row test g_opcodes ≡ some r
    → (m : OpcodeInfo) × Accepts r m
first_row-Accepts test r e =
    allows-Accepts r (opcode_info (number r.opcode)) refl
      (first_row-all test (λ x. allows x (opcode_info (number x.opcode))) g_opcodes r keep_all e)

-- An operand count that fits the row which the assembler finds, by code or by name, also fits the
-- row which the machine finds for the opcode's byte, and no such count is above eight.
pub opcode_info-Accepts :
    (code : ℕ) (name : Text) (r : OpcodeInfo)
    → (opcode_from_scm_code code ≡ some r) ⊎ (opcode_from_name name ≡ some r)
    → (m : OpcodeInfo) × Accepts r m
unfolding opcode_from_scm_code opcode_from_name
opcode_info-Accepts code name r (inl e) = first_row-Accepts _ r e
opcode_info-Accepts code name r (inr e) = first_row-Accepts _ r e
