-- ===== src/Lexer/Strings.antt =====
-- The part of `scml_lex_line` that reads a quoted string.
use open_scm.Prelude.{
  ℕ, zero, suc, ◌+◌, ◌-◌, ◌*◌, ◌%◌, Bool, ◌&&◌, List, [], ◌∷◌, leb, ◌==◌, if◌then◌else◌, drop,
}
use open_scm.Prelude.Text.{Text}
use open_scm.Prelude.Decimal.{isdigit}
use open_scm.Prelude.Result.{Result, ok, err, ◌>>=◌, ◌>>◌, reject_if}
use open_scm.Lexer.Tokens.{LexError, string_too_long, unterminated, out_of_fuel}
use open_scm.Lexer.Chars.{isxdigit, char_at}

-- The value of a hexadecimal digit.
abbrev pub hex_value : ℕ → ℕ
hex_value c = if isdigit c then c - b'0' else if leb b'a' c then c - b'a' + 10 else c - b'A' + 10

abbrev pub is_octal : ℕ → Bool
is_octal c = leb b'0' c && leb c b'7'

-- Up to `left` more octal digits, and the cast to `char`.
unfoldable pub octal : ℕ → ℕ → Text → ℕ × Text
octal zero value s = (value % 256, s)
octal (suc left) value [] = (value % 256, [])
octal (suc left) value (c ∷ s) =
    let more = octal left (value * 8 + (c - b'0')) s in
    if is_octal c then more else (value % 256, c ∷ s)

-- What a backslash and the character `c` stand for, and the text after it.
unfoldable pub escape : ℕ → Text → ℕ × Text
unfolding octal
escape c s =
    if c == b'n'
    then (10, s)
    else if c == b't'
    then (9, s)
    else if c == b'r'
    then (13, s)
    else if c == b'e'
    then (27, s)
    else if c == b'x' && (isxdigit (char_at s 0) && isxdigit (char_at s 1))
    then (hex_value (char_at s 0) * 16 + hex_value (char_at s 1), drop 2 s)
    else if is_octal c
    then octal 2 (c - b'0') s
    else (c, s)

-- The next character of the string; a backslash at the end of the line stands for itself.
unfoldable pub string_char : ℕ → Text → ℕ × Text
unfolding escape
string_char c [] = (c, [])
string_char c (d ∷ s) = if c == b'\\' then escape d s else (c, d ∷ s)

-- The string's loop, with `bi` characters in the buffer of 4096: the characters up to the closing
-- quote, and what follows it.
unfoldable pub quoted : ℕ → ℕ → Text → Result LexError (List ℕ × Text)
unfolding string_char
quoted zero bi s = err out_of_fuel
quoted (suc fuel) bi [] = err unterminated
quoted (suc fuel) bi (c ∷ s) =
    let more = quoted fuel (suc bi) (string_char c s).1 in
    if c == b'"' then ok ([], s) else do
      reject_if (leb 4096 (bi + 2)) string_too_long
      (chars, rest) ← more
      ok ((string_char c s).0 ∷ chars, rest)
