-- ===== src/Parser/Names.antt =====
-- The opcodes that an instruction can be written with.
use mathlib.Core.Option
use open_scm.Opcode.Arity.{opcode_of, opcode_of-number}
use open_scm.Prelude.{
  zero, sym, ◌∙◌, ◌≢◌, Option-cases, ℕ, suc, ◌+◌, ◌-◌, ◌/◌, ◌%◌, ◌^◌, ◌≡◌, refl, ◌⊎◌, inl, inr,
  Bool, true, false, ◌&&◌, ◌||◌, List, [], ◌∷◌, Option, none, some, arith, ltb, ◌==◌, if◌then◌else◌,
  get_elem?, ap, Bool-cases,
}
use open_scm.Prelude.Text.{Text, codes, text_eq, text_eq→eq}
use open_scm.Prelude.Decimal.{skip_spaces}
use open_scm.Prelude.Result.{Result, ok, err}
use open_scm.Opcode.{number}
use open_scm.Opcode.Table.{OpcodeInfo, g_opcodes}
use open_scm.Opcode.Lookup.{first_row, eq_ci, toupper, opcode_from_name, opcode_from_scm_code}
use open_scm.Lexer.Chars.{has}
use open_scm.Vm.Floats.{FloatOps}
use open_scm.Parser.{ParseError, unknown_opcode, find_info}
use open_scm.Parser.Numbers.{is_number_token, all_xdigits, strtol, strtol_value, digits_in}

-- A number below 2 ^ 16 in four hexadecimal digits.
abbrev hex_digit : ℕ → ℕ
hex_digit d = if ltb d 10 then b'0' + d else b'A' + (d - 10)

abbrev pub hex4 : ℕ → Text
hex4 n =
    hex_digit (n / 4096 % 16)
    ∷ hex_digit (n / 256 % 16)
    ∷ hex_digit (n / 16 % 16)
    ∷ hex_digit (n % 16)
    ∷ []

abbrev same_row : OpcodeInfo → Result ParseError OpcodeInfo → Bool
same_row r (err e) = false
same_row r (ok x) =
    x.scm_code == r.scm_code
    && (number x.opcode == number r.opcode
        && (text_eq x.name r.name && (x.min_args == r.min_args && x.max_args == r.max_args)))

abbrev all_rows : (OpcodeInfo → Bool) → List OpcodeInfo → Bool
all_rows test [] = true
all_rows test (r ∷ rows) = test r && all_rows test rows

abbrev same_found : OpcodeInfo → Option OpcodeInfo → Bool
same_found r none = false
same_found r (some x) = number x.opcode == number r.opcode

by_code : all_rows (λ r. same_found r (opcode_from_scm_code r.scm_code)) g_opcodes ≡ true
unfolding g_opcodes number opcode_from_scm_code first_row
by_code = refl

both : (a b : Bool) → (a && b) ≡ true → (a ≡ true) × (b ≡ true)
both a b h = ground arith

equal : (a b : ℕ) → (a == b) ≡ true → a ≡ b
equal a b h = ground arith

bool_clash : ◌≢◌ {A = Bool} false true
bool_clash h = cc

all_rows-at :
    (test : OpcodeInfo → Bool) (rows : List OpcodeInfo) (i : ℕ) (r : OpcodeInfo)
    → all_rows test rows ≡ true
    → get_elem? rows i ≡ some r
    → test r ≡ true
all_rows-at test [] i r h e = cc
all_rows-at test (x ∷ rows) zero r h e = rw (← Option.some-injective _ _ e) (both (test x) _ h).0
all_rows-at test (x ∷ rows) (suc i) r h e = all_rows-at test rows i r (both (test x) _ h).1 e

-- Opcodes with the same number are the same.
opcode_eq : (x r : OpcodeInfo) → (number x.opcode == number r.opcode) ≡ true → x.opcode ≡ r.opcode
opcode_eq x r h = Option.some-injective _ _ (
    sym (opcode_of-number x.opcode)
    ∙ (ap opcode_of (equal (number x.opcode) (number r.opcode) h) ∙ opcode_of-number r.opcode))

row_eq :
    (x r : OpcodeInfo)
    → x.scm_code ≡ r.scm_code
    → x.opcode ≡ r.opcode
    → x.name ≡ r.name
    → x.min_args ≡ r.min_args
    → x.max_args ≡ r.max_args
    → ◌≡◌ {A = Result ParseError OpcodeInfo} (ok x) (ok r)
row_eq x r a b c d e = rw (a, b, c, d, e) refl

same_row-eq :
    (r : OpcodeInfo) (found : Result ParseError OpcodeInfo) → same_row r found ≡ true → found ≡ ok r
same_row-eq r (err e) h = absurd (bool_clash h)
same_row-eq r (ok x) h =
    let (code, more) = both (x.scm_code == r.scm_code) _ h in
    let (op, more') = both (number x.opcode == number r.opcode) _ more in
    let (name, more'') = both (text_eq x.name r.name) _ more' in
    let (low, high) = both (x.min_args == r.min_args) _ more'' in
    row_eq x r (equal _ _ code) (opcode_eq x r op) (text_eq→eq _ _ name) (equal _ _ low)
      (equal _ _ high)

module _ (fl : FloatOps) where
  names :
      (line : ℕ)
      → all_rows
          (λ r. text_eq r.name (codes "ADD") || same_row r (find_info fl line r.name))
          g_opcodes
        ≡ true
  unfolding g_opcodes number find_info is_number_token all_xdigits opcode_from_name
      opcode_from_scm_code strtol strtol_value digits_in first_row eq_ci toupper has skip_spaces
  names line = refl

  digits :
      all_rows
        (λ r.
          is_number_token (hex4 r.scm_code) && strtol 16 (hex4 r.scm_code) % 2 ^ 16 == r.scm_code)
        g_opcodes
      ≡ true
  unfolding g_opcodes is_number_token all_xdigits strtol strtol_value digits_in skip_spaces
  digits = refl

  add_refused :
      (line : ℕ) → find_info fl line (codes "ADD") ≡ err (unknown_opcode line (codes "ADD"))
  unfolding g_opcodes find_info is_number_token all_xdigits opcode_from_scm_code strtol strtol_value
      digits_in first_row has skip_spaces
  add_refused line = refl

  found_by_code :
      (line : ℕ) (op : Text) (code : ℕ) (r : OpcodeInfo)
      → (is_number_token op && strtol 16 op % 2 ^ 16 == code) ≡ true
      → same_found r (opcode_from_scm_code code) ≡ true
      → (x : OpcodeInfo) × (find_info fl line op ≡ ok x) × (x.opcode ≡ r.opcode)
  unfolding find_info g_opcodes
  found_by_code line op code r h k = elim (Option-cases (opcode_from_scm_code code)) [
    | inl e ↦ absurd (bool_clash (rw e at k))
    | inr (x, e) ↦
        let (number_like, value) = both (is_number_token op) _ h in
        let same : strtol 16 op % 2 ^ 16 ≡ code = equal (strtol 16 op % 2 ^ 16) code value in
        (x, rw (number_like, same, e, find_info) refl, opcode_eq x r (rw e at k))
  ]

  -- Every name of the opcode table is parsed as its own row, except ADD, which is refused as
  -- unknown since it is a hexadecimal number; and the code of every row, in four hexadecimal
  -- digits, as a row of the same opcode.
  pub find_info-g_opcodes :
      (line i : ℕ) (r : OpcodeInfo)
      → get_elem? g_opcodes i ≡ some r
      → ((find_info fl line r.name ≡ ok r)
          ⊎ ((r.name ≡ codes "ADD")
              × (find_info fl line r.name ≡ err (unknown_opcode line (codes "ADD")))))
        × ((x : OpcodeInfo) × (find_info fl line (hex4 r.scm_code) ≡ ok x) × (x.opcode ≡ r.opcode))
  find_info-g_opcodes line i r h =
      let coded =
        found_by_code line (hex4 r.scm_code) r.scm_code r
          (all_rows-at
            (λ x.
              is_number_token (hex4 x.scm_code)
              && strtol 16 (hex4 x.scm_code) % 2 ^ 16 == x.scm_code)
            g_opcodes i r digits h)
          (all_rows-at (λ x. same_found x (opcode_from_scm_code x.scm_code)) g_opcodes i r by_code
            h) in
      let named =
        all_rows-at (λ x. text_eq x.name (codes "ADD") || same_row x (find_info fl line x.name))
          g_opcodes i r (names line) h in
      elim (Bool-cases (text_eq r.name (codes "ADD"))) [
        | inl e ↦
            let is_add = text_eq→eq r.name (codes "ADD") e in
            (inr (is_add, rw is_add (add_refused line)), coded)
        | inr e ↦ (inl (same_row-eq r (find_info fl line r.name) (rw e at named)), coded)
      ]
