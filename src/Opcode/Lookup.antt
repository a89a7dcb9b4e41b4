-- ===== src/Opcode/Lookup.antt =====
-- The lookups of opcode/opcode.c. Each is a scan of the table that stops at the first fit.
use open_scm.Prelude.{
  ℕ, ◌-◌, Bool, true, false, ◌&&◌, List, [], ◌∷◌, Option, none, some, ◌==◌, leb, if◌then◌else◌,
}
use open_scm.Prelude.Text.{Text, codes}
use open_scm.Opcode.{number}
use open_scm.Opcode.Table.{OpcodeInfo, g_opcodes}

-- `toupper` in the C locale.
unfoldable pub toupper : ℕ → ℕ
toupper c = if leb b'a' c && leb c b'z' then c - 32 else c

-- Equality up to the case of letters.
unfoldable pub eq_ci : Text → Text → Bool
unfolding toupper
eq_ci [] [] = true
eq_ci [] (y ∷ b) = false
eq_ci (x ∷ a) [] = false
eq_ci (x ∷ a) (y ∷ b) = toupper x == toupper y && eq_ci a b

-- The loop that the three lookups share: the first row that passes the test.
unfoldable pub first_row : (OpcodeInfo → Bool) → List OpcodeInfo → Option OpcodeInfo
first_row test [] = none
first_row test (r ∷ rows) = let rest = first_row test rows in if test r then some r else rest

-- A `uint16_t` code.
unfoldable pub opcode_from_scm_code : ℕ → Option OpcodeInfo
unfolding first_row
opcode_from_scm_code code = first_row (λ r. r.scm_code == code) g_opcodes

unfoldable pub opcode_from_name : Text → Option OpcodeInfo
unfolding first_row eq_ci
opcode_from_name name = first_row (λ r. eq_ci r.name name) g_opcodes

-- The argument is the number of an opcode: the machine casts any byte to `ScmlOpcode`.
unfoldable pub opcode_info : ℕ → Option OpcodeInfo
unfolding first_row number
opcode_info byte = first_row (λ r. number r.opcode == byte) g_opcodes

-- The name of an opcode, `UNKNOWN` for what the table lacks.
unfoldable pub opcode_name : ℕ → Text
unfolding opcode_info g_opcodes
opcode_name byte = elim (opcode_info byte) [ none ↦ codes "UNKNOWN" | some r ↦ r.name ]
