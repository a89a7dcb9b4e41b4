-- ===== src/Parser.antt =====
-- `scml_parse_file` of parser/parser.c, from the preprocessed text on: the lines, their tokens, and
-- the statements that these make. `strtod` is the `parse` of the floating-point parameter.
pub mod Numbers
pub mod Operands
pub mod Bounds
pub mod Accepted
pub mod Runs
pub mod Names
use open_scm.Prelude.{
  ℕ, zero, suc, ◌+◌, ◌-◌, ◌%◌, ◌^◌, Bool, true, false, not, ◌&&◌, ◌||◌, List, [], ◌∷◌, ◌++◌, Option,
  none, some, map, ltb, ◌==◌, if◌then◌else◌, length, take, drop,
}
use open_scm.Prelude.Text.{Text, codes, text_eq}
use open_scm.Prelude.Result.{Result, ok, err, ◌>>=◌, ◌>>◌, reject_if}
use open_scm.Opcode.{
  Opcode, nop, number, call_native, OperandType, int_type, string_type, var_type, address_type,
  float_type,
}
use open_scm.Opcode.Table.{OpcodeInfo}
use open_scm.Opcode.Lookup.{opcode_from_scm_code, opcode_from_name}
use open_scm.Vm.Floats.{FloatOps}
use open_scm.Compiler.{Operand, Statement}
use open_scm.Lexer.Tokens.{TokenType, Token, LexError, string_token, label_ref, number_token, colon}
use open_scm.Lexer.Chars.{has, char_at}
use open_scm.Lexer.{lex_line}
use open_scm.Parser.Numbers.{strtol, parse_int, is_float_token, is_number_token}

pub data ParseError : Type 0 where
  lexical : LexError → ParseError
  unknown_opcode too_many_operands : ℕ → Text → ParseError
  expects : ℕ → Text → ℕ → ℕ → ParseError

-- A text without the `:` at its end.
unfoldable pub trim_colon : Text → Text
trim_colon [] = []
trim_colon (c ∷ []) = if c == b':' then [] else c ∷ []
trim_colon (c ∷ d ∷ s) = c ∷ trim_colon (d ∷ s)

unfoldable pub is_colon : TokenType → Bool
is_colon colon = true
is_colon _ = false

-- `idx++` at a colon.
unfoldable pub skip_colon : List Token → List Token
unfolding is_colon
skip_colon [] = []
skip_colon (t ∷ toks) = if is_colon t.type then toks else t ∷ toks

abbrev no_operand : OperandType → Text → Operand
no_operand type text = record { type = type; text = text; integer = 0; real = 0 }

abbrev label_statement : ℕ → Text → Statement
label_statement line name = record { line = line; label = some name; opcode = nop; operands = [] }

module _ (fl : FloatOps) where
  -- The chain of tests on the type of an operand's token.
  unfoldable pub operand_of : Token → Operand
  unfolding is_float_token parse_int
  operand_of t = elim t.type [
    | string_token ↦ no_operand string_type t.text
    | label_ref ↦ no_operand address_type t.text
    | number_token ↦
        if is_float_token t.text
        then record (no_operand float_type t.text) { real = fl.parse t.text }
        else record (no_operand int_type t.text) { integer = parse_int t.text }
    | _ ↦ no_operand var_type t.text
  ]

  -- What a line's statement has become, and the tokens that are left.
  pub record Parsed : Type 0 where
    pub info : OpcodeInfo
    pub operands : List Operand
    pub left : List Token

  -- `=`, `+=` and `-=` as second token stand for SET, ADD and SUB.
  unfoldable pub assigned : Text → Option Text
  assigned text =
      if text_eq text (codes "=")
      then some (codes "SET")
      else if text_eq text (codes "+=")
      then some (codes "ADD")
      else if text_eq text (codes "-=")
      then some (codes "SUB")
      else none

  -- The table has the three rows.
  unfoldable pub row_of : ℕ → Text → Text → Result ParseError OpcodeInfo
  unfolding opcode_from_name
  row_of line op name = elim (opcode_from_name name) [
    | none ↦ err (unknown_opcode line op)
    | some info ↦ ok info
  ]

  abbrev targets : Text → Text → Operand → List Operand
  targets name dst value =
      if text_eq name (codes "SET")
      then no_operand var_type dst ∷ value ∷ []
      else no_operand var_type dst ∷ no_operand var_type dst ∷ value ∷ []

  -- `a = v` is SET a v, and `a += v` is ADD a a v.
  unfoldable pub assignment : ℕ → Text → Token → Token → List Token → Result ParseError Parsed
  unfolding row_of operand_of
  assignment line name dst value left = do
    info ← row_of line dst.text name
    ok (record { info = info; operands = targets name dst.text (operand_of value); left = left })

  -- The row of an opcode that is written as a number or a name; a name with a point is that of a
  -- native function.
  unfoldable pub find_info : ℕ → Text → Result ParseError OpcodeInfo
  unfolding is_number_token strtol opcode_from_scm_code opcode_from_name row_of has
  find_info line op =
      elim (if is_number_token op
        then opcode_from_scm_code (strtol 16 op % 2 ^ 16)
        else opcode_from_name op) [
          | some info ↦ ok info
          | none ↦
              if has b'.' op
              then row_of line op (codes "CALL_NATIVE")
              else err (unknown_opcode line op)
        ]

  -- The callee of a native function, which is the first operand.
  abbrev callee : OpcodeInfo → Text → Bool
  callee info op = number info.opcode == number call_native && has b'.' op

  -- The operands of an instruction, eight with the callee; what is left of the line is too much.
  unfoldable pub gather : Text → OpcodeInfo → List Token → Parsed
  unfolding skip_colon operand_of has number
  gather op info toks =
      if callee info op
      then record {
        info = info;
        operands = no_operand string_type op ∷ map operand_of (take 7 (skip_colon toks));
        left = drop 7 (skip_colon toks);
      }
      else record { info = info; operands = map operand_of (take 8 toks); left = drop 8 toks }

  unfoldable pub instruction : ℕ → Token → List Token → Result ParseError Parsed
  unfolding find_info skip_colon trim_colon gather
  instruction line first toks = do
    info ← find_info line (trim_colon first.text)
    ok (gather (trim_colon first.text) info (skip_colon toks))

  -- An assignment needs a token behind the sign.
  unfoldable pub instruction_or_assignment : ℕ → Token → List Token → Result ParseError Parsed
  unfolding instruction assignment assigned
  instruction_or_assignment line first (sign ∷ value ∷ left) = elim (assigned sign.text) [
    | some name ↦ assignment line name first value left
    | none ↦ instruction line first (sign ∷ value ∷ left)
  ]
  instruction_or_assignment line first toks = instruction line first toks

  -- The checks on what was parsed, and the statement.
  unfoldable pub finish : ℕ → Parsed → Result ParseError Statement
  finish line p = do
    reject_if (ltb 0 (length p.left)) (too_many_operands line p.info.name)
    reject_if (ltb (length p.operands) p.info.min_args || ltb p.info.max_args (length p.operands))
        (expects line p.info.name p.info.min_args p.info.max_args)
    ok (record { line = line; label = none; opcode = p.info.opcode; operands = p.operands })

  -- The statement behind a label, if there is one.
  unfoldable pub parse_code : ℕ → List Token → Result ParseError (List Statement)
  unfolding finish instruction_or_assignment
  parse_code line [] = ok []
  parse_code line (t ∷ toks) = do
    p ← instruction_or_assignment line t toks
    s ← finish line p
    ok (s ∷ [])

  -- The statements of a line: a label, if the line starts with a colon and a name, and the rest.
  unfoldable pub parse_tokens : ℕ → List Token → Result ParseError (List Statement)
  unfolding parse_code is_colon
  parse_tokens line (c ∷ name ∷ toks) = elim (is_colon c.type) [
    | true ↦ do code ← parse_code line toks; ok (label_statement line name.text ∷ code)
    | false ↦ parse_code line (c ∷ name ∷ toks)
  ]
  parse_tokens line toks = parse_code line toks

  unfoldable pub lex : Text → ℕ → Result ParseError (List Token)
  unfolding lex_line
  lex text line = elim (lex_line text line) [ ok toks ↦ ok toks | err e ↦ err (lexical e) ]

  -- The loop over the lines. `ln` counts those that `strtok_r` returns, which are the lines with a
  -- character.
  unfoldable pub parse_lines : ℕ → List Text → Result ParseError (List Statement)
  unfolding lex parse_tokens
  parse_lines ln [] = ok []
  parse_lines ln (text ∷ texts) = do
    toks ← lex text ln
    here ← parse_tokens ln toks
    rest ← parse_lines (suc ln) texts
    ok (here ++ rest)

-- A line, unless it is empty.
unfoldable pub with_line : Text → List Text → List Text
with_line [] lines = lines
with_line (c ∷ line) lines = (c ∷ line) ∷ lines

-- The line at the front, and the lines that `strtok_r` finds after it.
unfoldable pub split_lines : Text → Text × List Text
unfolding with_line
split_lines [] = ([], [])
split_lines (c ∷ s) =
    let (line, lines) = split_lines s in
    if c == 10 then ([], with_line line lines) else (c ∷ line, lines)

-- All that `strtok_r(…, "\n", …)` returns, of which none is empty.
unfoldable pub lines_of : Text → List Text
unfolding with_line split_lines
lines_of text = let (line, lines) = split_lines text in with_line line lines

unfoldable pub parse_text : FloatOps → Text → Result ParseError (List Statement)
unfolding parse_lines lines_of
parse_text fl text = parse_lines fl 1 (lines_of text)
