-- ===== src/Parser/Operands.antt =====
-- The operands that the parser makes are operands that the compiler can write.
use open_scm.Prelude.{
  ℕ, zero, suc, ◌^◌, ◌<◌, ◌≢◌, Bool, true, false, List, [], ◌∷◌, map, arith, take, if◌then◌else◌,
}
use open_scm.Prelude.Text.{Text, IsCString}
use open_scm.Opcode.{
  none_type, int_type, string_type, var_type, address_type, float_type, OperandType,
}
use open_scm.Vm.Floats.{FloatOps}
use open_scm.Compiler.Encoding.{IsAssembled, AllAssembled}
use open_scm.Lexer.Tokens.{Token, TokenType, number_token, string_token, label_ref}
use open_scm.Lexer.Columns.{AllPlaced}
use open_scm.Parser.Numbers.{is_float_token, parse_int}
use open_scm.Parser.{trim_colon, skip_colon, no_operand, operand_of}

abbrev pub AllClean : List Token → Type 0
AllClean [] = Unit
AllClean (t ∷ toks) = IsCString t.text × AllClean toks

pub AllPlaced-AllClean :
    (line_no low total : ℕ) (toks : List Token) → AllPlaced line_no low total toks → AllClean toks
AllPlaced-AllClean line_no low total [] h = tt
AllPlaced-AllClean line_no low total (t ∷ toks) h =
    (h.3, AllPlaced-AllClean line_no t.column total toks h.4)

pub trim_colon-IsCString : (s : Text) → IsCString s → IsCString (trim_colon s)
unfolding trim_colon
trim_colon-IsCString [] h = tt
trim_colon-IsCString (c ∷ []) h = ground arith
trim_colon-IsCString (c ∷ d ∷ s) h = (h.0, trim_colon-IsCString (d ∷ s) h.1)

pub skip_colon-AllClean : (toks : List Token) → AllClean toks → AllClean (skip_colon toks)
unfolding skip_colon
skip_colon-AllClean [] h = tt
skip_colon-AllClean (t ∷ toks) h = ground (arith, h.1)

pub take-AllClean : (n : ℕ) (toks : List Token) → AllClean toks → AllClean (take n toks)
take-AllClean zero toks h = tt
take-AllClean (suc n) [] h = tt
take-AllClean (suc n) (t ∷ toks) h = (h.0, take-AllClean n toks h.1)

pub no_operand-IsAssembled :
    (type : OperandType) (text : Text)
    → type ≢ none_type
    → IsCString text
    → IsAssembled (no_operand type text)
no_operand-IsAssembled type text typed clean = record {
  typed = typed;
  integer_fits = omega arith;
  real_fits = omega arith;
  text_clean = clean;
}

pub var-ne : var_type ≢ none_type
var-ne e = cc

pub string-ne : string_type ≢ none_type
string-ne e = cc

parse_int-fits : (s : Text) → parse_int s < 2 ^ 32
unfolding parse_int
parse_int-fits s = ground arith

-- A `float` has 32 bits.
abbrev pub ParseFits : FloatOps → Type 0
ParseFits fl = (s : Text) → fl.parse s < 2 ^ 32

module _ (fl : FloatOps) (fits : ParseFits fl) where
  number-IsAssembled :
      (is_float : Bool) (text : Text)
      → IsCString text
      → IsAssembled (
          if is_float
          then record (no_operand float_type text) { real = fl.parse text }
          else record (no_operand int_type text) { integer = parse_int text })
  number-IsAssembled true text h = record {
    typed = λ e. cc;
    integer_fits = omega arith;
    real_fits = fits text;
    text_clean = h;
  }
  number-IsAssembled false text h = record {
    typed = λ e. cc;
    integer_fits = parse_int-fits text;
    real_fits = omega arith;
    text_clean = h;
  }

  pub operand_of-IsAssembled :
      (type : TokenType) (text : Text) (line column : ℕ)
      → IsCString text
      → IsAssembled
          (operand_of fl (record { type = type; text = text; line = line; column = column }))
  unfolding operand_of
  operand_of-IsAssembled string_token text line column h =
      no_operand-IsAssembled string_type text string-ne h
  operand_of-IsAssembled label_ref text line column h =
      no_operand-IsAssembled address_type text (λ e. cc) h
  operand_of-IsAssembled number_token text line column h =
      number-IsAssembled (is_float_token text) text h
  operand_of-IsAssembled _ text line column h = no_operand-IsAssembled var_type text var-ne h

  pub map-AllAssembled :
      (toks : List Token) → AllClean toks → AllAssembled (map (operand_of fl) toks)
  map-AllAssembled [] h = tt
  map-AllAssembled (t ∷ toks) h =
      (operand_of-IsAssembled t.type t.text t.line t.column h.0, map-AllAssembled toks h.1)
