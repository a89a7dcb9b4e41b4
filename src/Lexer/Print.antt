-- ===== src/Lexer/Print.antt =====
-- The ways to write a token, as a reference for the lexer: a line is its lexemes, each with a space
-- after it.
use open_scm.Prelude.{
  ℕ, ◌+◌, ◌≤◌, ◌≡◌, Bool, true, false, ◌&&◌, ◌||◌, List, [], ◌∷◌, ◌++◌, ◌==◌, if◌then◌else◌, length,
}
use open_scm.Prelude.Text.{Text, IsCString, codes}
use open_scm.Prelude.Decimal.{isdigit}
use open_scm.Lexer.Tokens.{
  TokenType, Token, identifier, number_token, string_token, label_ref, colon,
}
use open_scm.Lexer.Chars.{isalpha, isalnum, isxdigit, AllIn, has}

pub data Lexeme : Type 0 where
  quote : Text → Lexeme
  label name numeral : ℕ → Text → Lexeme
  hexadecimal : Text → Lexeme
  real : ℕ → Text → Text → Lexeme
  signed : ℕ → ℕ → Text → Lexeme
  double : ℕ → ℕ → Lexeme
  mark : ℕ → Lexeme
  colon_mark : Lexeme

-- What the characters of a label, and of a name, are.
abbrev pub is_label_letter : ℕ → Bool
is_label_letter c = isalnum c || c == b'_'

abbrev pub is_name_letter : ℕ → Bool
is_name_letter c =
    isalnum c
    || (c == b'_' || (c == b'-' || (c == b'#' || (c == b'.' || (c == b'$' || c == b'@')))))

abbrev pub is_name_first : ℕ → Bool
is_name_first c = isalpha c || (c == b'_' || (c == b'#' || c == b'$'))

-- The operators of two characters, one after the other.
abbrev pub doubles : Text
doubles = codes "&&||==!=<=>=<<>>->++--+=-="

abbrev pub has_pair : ℕ → ℕ → Text → Bool
has_pair c d [] = false
has_pair c d (x ∷ []) = false
has_pair c d (x ∷ y ∷ s) = (c == x && d == y) || has_pair c d s

abbrev pub marks : Text
marks = codes "+-*/%&|^~!?()[]{}.<>="

-- A string has room in the buffer, a name does not start with a digit. A numeral is a digit and
-- hexadecimal digits, a hexadecimal number has `0x` in front, a real number is digits with a point
-- after the first ones, and a signed number has a digit.
abbrev pub IsLexeme : Lexeme → Type 0
IsLexeme (quote s) = IsCString s × (length s ≤ 4094)
IsLexeme (label c s) = AllIn is_label_letter (c ∷ s)
IsLexeme (name c s) = (is_name_first c ≡ true) × AllIn is_name_letter s
IsLexeme (numeral d s) = (isdigit d ≡ true) × AllIn isxdigit s
IsLexeme (hexadecimal s) = AllIn isxdigit s
IsLexeme (real d s t) = (isdigit d ≡ true) × AllIn isdigit s × AllIn isdigit t
IsLexeme (signed c d s) = ((c == b'+' || c == b'-') ≡ true) × AllIn isdigit (d ∷ s)
IsLexeme (double c d) = has_pair c d doubles ≡ true
IsLexeme (mark c) = has c marks ≡ true
IsLexeme colon_mark = Unit

abbrev pub AllLexemes : List Lexeme → Type 0
AllLexemes [] = Unit
AllLexemes (l ∷ ls) = IsLexeme l × AllLexemes ls

-- A character of a string: quotes, backslashes and the characters with a name are escaped.
unfoldable pub print_char : ℕ → Text → Text
print_char c s =
    if c == 10
    then b'\\' ∷ b'n' ∷ s
    else if c == 9
    then b'\\' ∷ b't' ∷ s
    else if c == 13
    then b'\\' ∷ b'r' ∷ s
    else if c == 27
    then b'\\' ∷ b'e' ∷ s
    else if c == b'"'
    then b'\\' ∷ c ∷ s
    else if c == b'\\'
    then b'\\' ∷ c ∷ s
    else c ∷ s

-- The characters, the closing quote, and what follows.
unfoldable pub print_chars : Text → Text → Text
unfolding print_char
print_chars [] rest = b'"' ∷ rest
print_chars (c ∷ s) rest = print_char c (print_chars s rest)

-- The first character of a lexeme, and the others with what follows.
unfoldable pub head_of : Lexeme → ℕ
head_of (quote s) = b'"'
head_of (label c s) = b'@'
head_of (name c s) = c
head_of (numeral d s) = d
head_of (hexadecimal s) = b'0'
head_of (real d s t) = d
head_of (signed c d s) = c
head_of (double c d) = c
head_of (mark c) = c
head_of colon_mark = b':'

unfoldable pub tail_of : Lexeme → Text → Text
unfolding print_chars
tail_of (quote s) rest = print_chars s rest
tail_of (label c s) rest = c ∷ s ++ rest
tail_of (name c s) rest = s ++ rest
tail_of (numeral d s) rest = s ++ rest
tail_of (hexadecimal s) rest = b'x' ∷ s ++ rest
tail_of (real d s t) rest = (s ++ b'.' ∷ t) ++ rest
tail_of (signed c d s) rest = d ∷ s ++ rest
tail_of (double c d) rest = d ∷ rest
tail_of (mark c) rest = rest
tail_of colon_mark rest = rest

unfoldable pub print_line : List Lexeme → Text
unfolding head_of tail_of
print_line [] = []
print_line (l ∷ ls) = head_of l ∷ tail_of l (b' ' ∷ print_line ls)

unfoldable pub lexeme_type : Lexeme → TokenType
lexeme_type (quote s) = string_token
lexeme_type (label c s) = label_ref
lexeme_type (name c s) = identifier
lexeme_type (numeral d s) = number_token
lexeme_type (hexadecimal s) = number_token
lexeme_type (real d s t) = number_token
lexeme_type (signed c d s) = number_token
lexeme_type (double c d) = identifier
lexeme_type (mark c) = identifier
lexeme_type colon_mark = colon

unfoldable pub lexeme_text : Lexeme → Text
lexeme_text (quote s) = s
lexeme_text (label c s) = c ∷ s
lexeme_text (name c s) = c ∷ s
lexeme_text (numeral d s) = d ∷ s
lexeme_text (hexadecimal s) = b'0' ∷ b'x' ∷ s
lexeme_text (real d s t) = d ∷ s ++ b'.' ∷ t
lexeme_text (signed c d s) = c ∷ d ∷ s
lexeme_text (double c d) = c ∷ d ∷ []
lexeme_text (mark c) = c ∷ []
lexeme_text colon_mark = b':' ∷ []

-- The tokens of a line whose first lexeme stands in column `col`.
unfoldable pub tokens_from : ℕ → ℕ → List Lexeme → List Token
unfolding lexeme_type lexeme_text tail_of
tokens_from line_no col [] = []
tokens_from line_no col (l ∷ ls) =
    record { type = lexeme_type l; text = lexeme_text l; line = line_no; column = col }
    ∷ tokens_from line_no (col + 2 + length (tail_of l [])) ls
