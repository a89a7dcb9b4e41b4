-- ===== src/Parser/Accepted.antt =====
-- Every statement that the parser makes is one that the compiler writes and the machine accepts.
use open_scm.Prelude.{
  ℕ, suc, ◌+◌, ◌^◌, ◌≤◌, ◌<◌, ◌≡◌, refl, ap, inl, inr, Bool, true, false, ◌||◌, List, [], ◌∷◌, ◌++◌,
  none, some, arith, ltb, length, Bool-cases,
}
use open_scm.Prelude.Text.{Text}
use open_scm.Prelude.Result.{err-ne_ok, reject_if, ◌>>◌, Result, ok, err, >>=-eq-ok, ok-injective}
use open_scm.Opcode.Table.{OpcodeInfo, g_opcodes}
use open_scm.Vm.Floats.{FloatOps}
use open_scm.Compiler.{Statement}
use open_scm.Compiler.Bounds.{IsParsed, AllParsed}
use open_scm.Lexer.Tokens.{LexError, Token}
use open_scm.Lexer.Columns.{lex_line-AllPlaced}
use open_scm.Lexer.{lex_line}
use open_scm.Parser.{
  ParseError, lexical, too_many_operands, expects, Parsed, is_colon, instruction_or_assignment,
  finish, parse_code, parse_tokens, lex, parse_lines, lines_of, parse_text, label_statement,
}
use open_scm.Opcode.{number}
use open_scm.Opcode.Lookup.{opcode_info}
use open_scm.Parser.Operands.{AllClean, AllPlaced-AllClean, ParseFits}
use open_scm.Parser.Bounds.{Good, instruction_or_assignment-Good}

-- The machine has a row for the opcode, and the number of operands fits it.
abbrev pub FitsRow : Statement → Type 0
FitsRow s =
    (m : OpcodeInfo) × (opcode_info (number s.opcode) ≡ some m)
    × (m.min_args ≤ length s.operands)
    × (length s.operands ≤ m.max_args)

abbrev pub AllFit : List Statement → Type 0
AllFit [] = Unit
AllFit (s ∷ ss) = FitsRow s × AllFit ss

AllParsed-append : (xs ys : List Statement) → AllParsed xs → AllParsed ys → AllParsed (xs ++ ys)
AllParsed-append [] ys h k = k
AllParsed-append (x ∷ xs) ys h k = (h.0, AllParsed-append xs ys h.1 k)

AllFit-append : (xs ys : List Statement) → AllFit xs → AllFit ys → AllFit (xs ++ ys)
AllFit-append [] ys h k = k
AllFit-append (x ∷ xs) ys h k = (h.0, AllFit-append xs ys h.1 k)

nop-FitsRow : (line : ℕ) (name : Text) → FitsRow (label_statement line name)
unfolding opcode_info number g_opcodes
nop-FitsRow line name = (_, refl, omega arith, omega arith)

passed :
    (a b : Bool) (e e' : ParseError) (made s : Statement)
    → (do reject_if a e; reject_if b e'; ok made) ≡ ok s
    → (b ≡ false) × (made ≡ s)
passed true b e e' made s h = absurd (err-ne_ok h)
passed false true e e' made s h = absurd (err-ne_ok h)
passed false false e e' made s h = (refl, ok-injective made s h)

in_range : (n low high : ℕ) → (ltb n low || ltb high n) ≡ false → (low ≤ n) × (n ≤ high)
in_range n low high h = (ground arith, ground arith)

lexed :
    (r : Result LexError (List Token)) (toks : List Token)
    → ◌≡◌ {A = Result ParseError (List Token)}
        (elim r [ ok ts ↦ ok ts | err e ↦ err (lexical e) ])
        (ok toks)
    → r ≡ ok toks
lexed (ok ts) toks h = ap ok (ok-injective ts toks h)
lexed (err e) toks h = absurd (err-ne_ok h)

module _ (fl : FloatOps) (fits : ParseFits fl) where
  finish-checked :
      (line : ℕ) (p : Parsed fl) (s : Statement)
      → line < 2 ^ 32
      → Good fl fits p
      → finish fl line p ≡ ok s
      → IsParsed s × FitsRow s
  unfolding finish
  finish-checked line p s small good h =
      let (count, same) =
        passed (ltb 0 (length p.left))
          (ltb (length p.operands) p.info.min_args || ltb p.info.max_args (length p.operands))
          (too_many_operands line p.info.name)
          (expects line p.info.name p.info.min_args p.info.max_args)
          (record { line = line; label = none; opcode = p.info.opcode; operands = p.operands }) s
          h in
      let (low, high) = in_range (length p.operands) p.info.min_args p.info.max_args count in
      let enough : good.row.min_args ≤ length p.operands = omega (arith, good.known.low, low) in
      let few : length p.operands ≤ good.row.max_args = omega (arith, good.known.high, high) in
      rw (← same) (
        record {
          line_fits = small;
          label_clean = tt;
          operands_good = good.operands_good;
          few_operands = good.few;
        },
        (good.row, good.known.found, enough, few),
      )

  parse_code-checked :
      (line : ℕ) (toks : List Token) (ss : List Statement)
      → line < 2 ^ 32
      → AllClean toks
      → parse_code fl line toks ≡ ok ss
      → AllParsed ss × AllFit ss
  unfolding parse_code
  parse_code-checked line [] ss small clean h = rw (← ok-injective _ _ h) (tt, tt)
  parse_code-checked line (t ∷ toks) ss small clean h =
      let (p, first, more) = >>=-eq-ok (instruction_or_assignment fl line t toks) _ h in
      let (s, second, done) = >>=-eq-ok (finish fl line p) _ more in
      let good = instruction_or_assignment-Good fl fits line t toks p clean first in
      let (parsed, fit) = finish-checked line p s small good second in
      rw (← ok-injective _ _ done) ((parsed, tt), (fit, tt))

  parse_tokens-checked :
      (line : ℕ) (toks : List Token) (ss : List Statement)
      → line < 2 ^ 32
      → AllClean toks
      → parse_tokens fl line toks ≡ ok ss
      → AllParsed ss × AllFit ss
  unfolding parse_tokens
  parse_tokens-checked line [] ss small clean h = parse_code-checked line [] ss small clean h
  parse_tokens-checked line (t ∷ []) ss small clean h =
      parse_code-checked line (t ∷ []) ss small clean h
  parse_tokens-checked line (c ∷ name ∷ toks) ss small clean h =
      elim (Bool-cases (is_colon c.type)) [
        | inl e ↦
            let (code, rest, done) =
              >>=-eq-ok (parse_code fl line toks) _ (rw (e, parse_tokens) at h) in
            let (parsed, fit) = parse_code-checked line toks code small clean.1.1 rest in
            let label : IsParsed (label_statement line name.text) = record {
              line_fits = small;
              label_clean = clean.1.0;
              operands_good = tt;
              few_operands = omega arith;
            } in
            rw (← ok-injective _ _ done) ((label, parsed), (nop-FitsRow line name.text, fit))
        | inr e ↦
            parse_code-checked line (c ∷ name ∷ toks) ss small clean (rw (e, parse_tokens) at h)
      ]

  lex-AllClean :
      (text : Text) (line : ℕ) (toks : List Token) → lex fl text line ≡ ok toks → AllClean toks
  unfolding lex
  lex-AllClean text line toks h =
      AllPlaced-AllClean line 0 (length text) toks
        (lex_line-AllPlaced text line toks (lexed (lex_line text line) toks h))

  parse_lines-checked :
      (ln : ℕ) (texts : List Text) (ss : List Statement)
      → ln + length texts ≤ 2 ^ 32
      → parse_lines fl ln texts ≡ ok ss
      → AllParsed ss × AllFit ss
  unfolding parse_lines
  parse_lines-checked ln [] ss small h = rw (← ok-injective _ _ h) (tt, tt)
  parse_lines-checked ln (text ∷ texts) ss small h =
      let (toks, lexed, more) = >>=-eq-ok (lex fl text ln) _ h in
      let (here, parsed, more') = >>=-eq-ok (parse_tokens fl ln toks) _ more in
      let (rest, others, done) = >>=-eq-ok (parse_lines fl (suc ln) texts) _ more' in
      let first =
        parse_tokens-checked ln toks here (omega arith) (lex-AllClean text ln toks lexed) parsed in
      let later = parse_lines-checked (suc ln) texts rest (omega arith) others in
      rw (← ok-injective _ _ done)
        (AllParsed-append here rest first.0 later.0, AllFit-append here rest first.1 later.1)

-- All statements of a text of fewer than 2 ^ 32 lines that is parsed have line numbers of 32
-- bits, labels and texts that are C strings, and at most eight operands of the five types, as
-- many as the row allows that the machine has for the opcode, if `strtod` gives 32-bit floats.
pub parse_text-checked :
    (fl : FloatOps) (text : Text) (ss : List Statement)
    → ParseFits fl
    → length (lines_of text) < 2 ^ 32
    → parse_text fl text ≡ ok ss
    → AllParsed ss × AllFit ss
unfolding parse_text
parse_text-checked fl text ss fits small h =
    parse_lines-checked fl fits 1 (lines_of text) ss (omega arith) h
