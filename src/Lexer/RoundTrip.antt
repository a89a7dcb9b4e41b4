-- ===== src/Lexer/RoundTrip.antt =====
-- Tokens that are written out are read back.
use open_scm.Prelude.{
  ℕ, zero, suc, ◌+◌, ◌-◌, ◌≤◌, ◌<◌, ◌≡◌, length-append, ◌∙◌, ◌++◌, refl, true, Bool, List, [], ◌∷◌,
  arith, ltb, ltb→lt, length, none, some,
}
use open_scm.Prelude.Text.{Text, c_string_id, c_string, IsCString}
use open_scm.Prelude.Decimal.{isdigit}
use open_scm.Prelude.Result.{◌>>=◌, ok, err, Result}
use open_scm.Lexer.Tokens.{Token, TokenType, LexError}
use open_scm.Lexer.Chars.{AllIn, is_label_char, is_word_char, has}
use open_scm.Lexer.Print.{
  print_line, tokens_from, AllLexemes, Lexeme, quote, label, name, numeral, hexadecimal, real,
  signed, double, mark, colon_mark, IsLexeme, head_of, tail_of, lexeme_type, lexeme_text,
  print_chars, print_char, marks,
}
use open_scm.Lexer.Leads.{has-all_pass, operator_lead, operators, doubles-taken}
use open_scm.Lexer.Numerals.{IsWord, name-IsWord, numeral-IsWord, hexadecimal-IsWord, real-IsWord}
use open_scm.Lexer.{lex_from, lex_line, add_token, is_double, is_sign}
use open_scm.Lexer.Reading.{name_start-word_char, lex_piece-lexeme, lexeme-not_comment}

AllIn-IsCString :
    (class : ℕ → Bool) (s : Text) → ((c : ℕ) → class c ≡ true → 0 < c) → AllIn class s → IsCString s
AllIn-IsCString class [] h k = tt
AllIn-IsCString class (c ∷ s) h k = (h c k.0, AllIn-IsCString class s h k.1)

label_char-positive : (c : ℕ) → is_label_char c ≡ true → 0 < c
label_char-positive c h = ground arith

word_char-positive : (c : ℕ) → is_word_char c ≡ true → 0 < c
word_char-positive c h = ground arith

digit-positive : (c : ℕ) → isdigit c ≡ true → 0 < c
digit-positive c h = ground arith

sign-positive : (c : ℕ) → is_sign c ≡ true → 0 < c
sign-positive c h = ground arith

mark-positive : (c : ℕ) → has c marks ≡ true → 0 < c
mark-positive c h = ltb→lt 0 c (has-all_pass (λ x. ltb 0 x) c marks refl h)

double-positive : (c d : ℕ) → IsLexeme (double c d) → (0 < c) × (0 < d)
unfolding is_double
double-positive c d h =
    let taken = doubles-taken c d h in
    (
      ltb→lt 0 c (has-all_pass (λ x. ltb 0 x) c operators refl (operator_lead c d taken)),
      ground arith,
    )

word-IsCString : (c : ℕ) (s : Text) → IsWord c s → IsCString (c ∷ s)
word-IsCString c s h =
    AllIn-IsCString is_word_char (c ∷ s) word_char-positive (name_start-word_char c h.0, h.1)

lexeme_text-IsCString : (l : Lexeme) → IsLexeme l → IsCString (lexeme_text l)
unfolding lexeme_text
lexeme_text-IsCString (quote s) h = h.0
lexeme_text-IsCString (label c s) h = AllIn-IsCString is_label_char (c ∷ s) label_char-positive h
lexeme_text-IsCString (name c s) h = word-IsCString c s (name-IsWord c s h.0 h.1)
lexeme_text-IsCString (numeral d s) h = word-IsCString d s (numeral-IsWord d s h.0 h.1)
lexeme_text-IsCString (hexadecimal s) h = word-IsCString b'0' (b'x' ∷ s) (hexadecimal-IsWord s h)
lexeme_text-IsCString (real d s t) h =
    word-IsCString d (s ++ b'.' ∷ t) (real-IsWord d s t h.0 h.1 h.2)
lexeme_text-IsCString (signed c d s) h =
    (sign-positive c h.0, AllIn-IsCString isdigit (d ∷ s) digit-positive h.1)
lexeme_text-IsCString (double c d) h = let (p, q) = double-positive c d h in (p, (q, tt))
lexeme_text-IsCString (mark c) h = (mark-positive c h, tt)
lexeme_text-IsCString colon_mark h = (omega arith, tt)

length-print_chars-rest :
    (s rest : Text) → length (print_chars s rest) ≡ length (print_chars s []) + length rest
unfolding print_chars print_char
length-print_chars-rest [] rest = omega arith
length-print_chars-rest (c ∷ s) rest = ground (arith, length-print_chars-rest s rest)

length-tail_of :
    (l : Lexeme) (rest : Text) → length (tail_of l rest) ≡ length (tail_of l []) + length rest
unfolding tail_of
length-tail_of (quote s) rest = length-print_chars-rest s rest
length-tail_of (label c s) rest = omega (arith, length-append s rest, length-append s [])
length-tail_of (name c s) rest = omega (arith, length-append s rest, length-append s [])
length-tail_of (numeral d s) rest = omega (arith, length-append s rest, length-append s [])
length-tail_of (hexadecimal s) rest = omega (arith, length-append s rest, length-append s [])
length-tail_of (real d s t) rest =
    let word = s ++ b'.' ∷ t in omega (arith, length-append word rest, length-append word [])
length-tail_of (signed c d s) rest = omega (arith, length-append s rest, length-append s [])
length-tail_of (double c d) rest = omega arith
length-tail_of (mark c) rest = omega arith
length-tail_of colon_mark rest = omega arith

two_rounds :
    (line_no col col' : ℕ) (type : TokenType) (text : Text) (more : Result LexError (List Token))
    → c_string text ≡ text
    → (do
      tokens ← (do tokens ← more; ok (add_token line_no col' none tokens))
      ok (add_token line_no col (some (type, text)) tokens))
      ≡ (do
        tokens ← more
        ok (record { type = type; text = text; line = line_no; column = col } ∷ tokens))
unfolding add_token
two_rounds line_no col col' type text (ok tokens) h = rw h refl
two_rounds line_no col col' type text (err e) h = refl

-- A round of the loop at a lexeme, and the one at the space after it.
lex_from-lexeme :
    (fuel line_no total col : ℕ) (l : Lexeme) (rest : Text)
    → IsLexeme l
    → 0 < col
    → total + 1 ≡ col + (suc (length (tail_of l (b' ' ∷ rest))))
    → lex_from (suc (suc fuel)) line_no total (head_of l ∷ tail_of l (b' ' ∷ rest)) ≡ (do
      tokens ← lex_from fuel line_no total rest
      ok (
          record { type = lexeme_type l; text = lexeme_text l; line = line_no; column = col }
          ∷ tokens))
unfolding lex_from add_token
lex_from-lexeme fuel line_no total col l rest h first e =
    let place : suc (total - suc (length (tail_of l (b' ' ∷ rest)))) ≡ col =
      omega (arith, first, e) in
    rw (lexeme-not_comment l rest h, lex_from)
      (rw (place, lex_piece-lexeme l h col rest)
        (two_rounds line_no col (suc (total - suc (length rest))) (lexeme_type l) (lexeme_text l)
          (lex_from fuel line_no total rest)
          (c_string_id (lexeme_text l) (lexeme_text-IsCString l h))))

lex_from-print_line :
    (fuel line_no total col : ℕ) (ls : List Lexeme)
    → AllLexemes ls
    → length (print_line ls) ≤ fuel
    → 0 < col
    → total + 1 ≡ col + length (print_line ls)
    → lex_from fuel line_no total (print_line ls) ≡ ok (tokens_from line_no col ls)
unfolding print_line tokens_from lex_from
lex_from-print_line fuel line_no total col [] h enough first e = refl
lex_from-print_line zero line_no total col (l ∷ ls) h enough first e = absurd (omega arith)
lex_from-print_line (suc zero) line_no total col (l ∷ ls) h enough first e =
    absurd (omega (arith, enough, length-tail_of l (b' ' ∷ print_line ls)))
lex_from-print_line (suc (suc fuel)) line_no total col (l ∷ ls) h enough first e =
    let rest = print_line ls in
    let size = length-tail_of l (b' ' ∷ rest) in
    let more =
      lex_from-print_line fuel line_no total (col + 2 + length (tail_of l [])) ls h.1
        (omega (arith, enough, size)) (omega arith) (omega (arith, e, size)) in
    lex_from-lexeme fuel line_no total col l rest h.0 first e ∙ rw more refl

-- A line of strings with at most 4094 characters, label references, names that do not start with
-- a digit, numerals of a digit and hexadecimal digits, hexadecimal numbers after 0x, real numbers
-- with a point, signed decimal numbers, operators of two characters, marks of one, and colons,
-- each written with a space after it and strings with their escapes, is read back as these
-- tokens, with their columns: the numbers as numbers, and names, operators and marks as
-- identifiers.
pub lex_line-print_line :
    (line_no : ℕ) (ls : List Lexeme)
    → AllLexemes ls
    → lex_line (print_line ls) line_no ≡ ok (tokens_from line_no 1 ls)
unfolding lex_line
lex_line-print_line line_no ls h =
    lex_from-print_line (length (print_line ls)) line_no (length (print_line ls)) 1 ls h
      (omega arith) (omega arith) (omega arith)
