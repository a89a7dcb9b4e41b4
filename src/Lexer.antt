-- ===== src/Lexer.antt =====
-- lexer/lexer.c: the tokens of one line of source text. The place `line + i` is the text from
-- there on, so that `line[i]` is its first character and `i` is what is missing from the line.
pub mod Tokens
pub mod Chars
pub mod Strings
pub mod Words
pub mod Total
pub mod Columns
pub mod Print
pub mod Numerals
pub mod Leads
pub mod Reading
pub mod RoundTrip
use open_scm.Prelude.{
  ℕ, zero, suc, ◌-◌, Bool, true, false, ◌&&◌, ◌||◌, List, [], ◌∷◌, ◌++◌, Option, none, some, leb,
  ◌==◌, if◌then◌else◌, length, take, drop,
}
use open_scm.Prelude.Text.{Text, codes, c_string}
use open_scm.Prelude.Decimal.{isspace, isdigit}
use open_scm.Prelude.Result.{Result, ok, err, ◌>>=◌}
use open_scm.Lexer.Tokens.{
  TokenType, Token, LexError, identifier, number_token, string_token, label_ref, colon, empty_label,
  out_of_fuel, unexpected,
}
use open_scm.Lexer.Chars.{char_at, has, span, is_label_char, is_word_start, is_word_char}
use open_scm.Lexer.Strings.{quoted}
use open_scm.Lexer.Words.{unsigned_number, word_type}

-- What one round of the loop adds: nothing, or a token of this type and text.
abbrev pub Piece : Type 0
Piece = Option (TokenType × Text) × Text

abbrev pub piece : TokenType → Text × Text → Piece
piece type (text, rest) = (some (type, text), rest)

-- The operators of two characters that the long condition names, and then `+=` and `-=`.
unfoldable pub is_double : ℕ → ℕ → Bool
is_double c d =
    c == b'&' && d == b'&'
    || (c == b'|' && d == b'|'
        || (c == b'=' && d == b'='
            || (c == b'!' && d == b'='
                || (c == b'<' && d == b'='
                    || (c == b'>' && d == b'='
                        || (c == b'<' && d == b'<'
                            || (c == b'>' && d == b'>'
                                || (c == b':' && d == b':'
                                    || (c == b'-' && d == b'>'
                                        || (c == b'+' && d == b'+'
                                            || c == b'-' && d == b'-'))))))))))

abbrev pub is_sign : ℕ → Bool
is_sign c = c == b'+' || c == b'-'

abbrev pub punctuation : Text
punctuation = codes "+-*/%&|^~!?()[]{}.<>,"

-- After `@`.
unfoldable pub lex_label : Text → Result LexError Piece
unfolding span
lex_label s = elim (span is_label_char s).0 [
  | [] ↦ err empty_label
  | c ∷ name ↦ ok (piece label_ref (c ∷ name, (span is_label_char s).1))
]

-- After the opening quote. Every round of the string's loop takes a character, so one more round
-- than there are characters is enough.
unfoldable pub lex_string : Text → Result LexError Piece
unfolding quoted
lex_string s = do (chars, rest) ← quoted (suc (length s)) 0 s; ok (piece string_token (chars, rest))

unfoldable pub lex_word : Text → Result LexError Piece
unfolding span word_type
lex_word s = let (word, rest) = span is_word_char s in ok (piece (word_type word) (word, rest))

-- The operators, signed numbers and words.
unfoldable pub lex_other : ℕ → ℕ → Text → Result LexError Piece
unfolding is_double has unsigned_number lex_word
lex_other col c s =
    if is_double c (char_at s 0)
    then ok (piece identifier (c ∷ take 1 s, drop 1 s))
    else if is_sign c && char_at s 0 == b'='
    then ok (piece identifier (c ∷ take 1 s, drop 1 s))
    else if is_sign c && isdigit (char_at s 0)
    then ok (piece number_token (c ∷ (unsigned_number s).0, (unsigned_number s).1))
    else if has c punctuation
    then ok (piece identifier (c ∷ [], s))
    else if c == b'='
    then ok (piece identifier (c ∷ [], s))
    else if is_word_start c
    then lex_word (c ∷ s)
    else err (unexpected col c)

-- One round of the loop at the character `c` of column `col`, before the text `s`.
unfoldable pub lex_piece : ℕ → ℕ → Text → Result LexError Piece
unfolding lex_label lex_string lex_other
lex_piece col c s =
    if isspace c || c == b','
    then ok (none, s)
    else if c == b':'
    then ok (piece colon (c ∷ [], s))
    else if c == b'@'
    then lex_label s
    else if c == b'"'
    then lex_string s
    else lex_other col c s

-- `add_token`: the copy of the text ends at its first zero.
unfoldable pub add_token : ℕ → ℕ → Option (TokenType × Text) → List Token → List Token
unfolding c_string
add_token line_no col none tokens = tokens
add_token line_no col (some (type, text)) tokens =
    record { type = type; text = c_string text; line = line_no; column = col } ∷ tokens

-- A comment takes the rest of the line.
unfoldable pub is_comment : ℕ → Text → Bool
is_comment c s = c == b';' || (c == b'/' && char_at s 0 == b'/')

-- The loop over a line of `total` characters, from the text that is left on.
unfoldable pub lex_from : ℕ → ℕ → ℕ → Text → Result LexError (List Token)
unfolding is_comment lex_piece add_token
lex_from fuel line_no total [] = ok []
lex_from zero line_no total (c ∷ s) = err out_of_fuel
lex_from (suc fuel) line_no total (c ∷ s) =
    let col = suc (total - suc (length s)) in
    elim (is_comment c s) [
      | true ↦ ok []
      | false ↦ do
        (token, rest) ← lex_piece col c s
        tokens ← lex_from fuel line_no total rest
        ok (add_token line_no col token tokens)
    ]

unfoldable pub lex_line : Text → ℕ → Result LexError (List Token)
unfolding lex_from
lex_line line line_no = lex_from (length line) line_no (length line) line
