-- ===== src/Lexer/Words.antt =====
-- The parts of `scml_lex_line` that read a signed number and a word, and tell which words are
-- numbers.
use open_scm.Prelude.{
  ℕ, suc, Bool, true, not, ◌&&◌, ◌||◌, [], ◌∷◌, ◌++◌, ◌==◌, if◌then◌else◌, take, drop,
}
use open_scm.Prelude.Text.{Text}
use open_scm.Prelude.Decimal.{isdigit}
use open_scm.Lexer.Tokens.{TokenType, identifier, number_token}
use open_scm.Lexer.Chars.{isxdigit, char_at, has, span}

-- The digits of a number and, where a point follows, that and the digits after it.
unfoldable pub decimal_part : Text → Text × Text
unfolding span
decimal_part s =
    let (whole, rest) = span isdigit s in
    let (fraction, rest') = span isdigit (drop 1 rest) in
    if char_at rest 0 == b'.' then (whole ++ b'.' ∷ fraction, rest') else (whole, rest)

-- The number after a sign: hexadecimal after `0x`, decimal otherwise.
unfoldable pub unsigned_number : Text → Text × Text
unfolding span decimal_part
unsigned_number s =
    let (digits, rest) = span isxdigit (drop 2 s) in
    if char_at s 0 == b'0' && (char_at s 1 == b'x' || char_at s 1 == b'X')
    then (take 2 s ++ digits, rest)
    else decimal_part s

-- The loop's `all_hex`: hexadecimal digits, and an `x` in second place after a 0. `j` counts from
-- `start`, where the character `first` stands.
unfoldable pub hex_from : ℕ → ℕ → Text → Bool
hex_from first j [] = true
hex_from first j (c ∷ w) =
    (isxdigit c || (c == b'x' && (j == 1 && first == b'0'))) && hex_from first (suc j) w

-- The loop's `decimal_number`: digits and points.
unfoldable pub decimal_from : Text → Bool
decimal_from [] = true
decimal_from (c ∷ w) = (c == b'.' || isdigit c) && decimal_from w

-- The word from `start` on, without a minus sign in front.
abbrev pub after_minus : Text → Text
after_minus w = if char_at w 0 == b'-' then drop 1 w else w

unfoldable pub all_hex : Text → Bool
unfolding hex_from has
all_hex w =
    not (char_at (after_minus w) 0 == b'$')
    && (not (has b'@' w) && hex_from (char_at (after_minus w) 0) 0 (after_minus w))

unfoldable pub decimal_number : Text → Bool
unfolding decimal_from has
decimal_number w = not (has b'@' w) && decimal_from (after_minus w)

-- Whether the word is a number.
unfoldable pub word_type : Text → TokenType
unfolding all_hex decimal_number has
word_type w =
    if isdigit (char_at (after_minus w) 0)
        && (all_hex w || (has b'.' (after_minus w) && decimal_number w))
      || (char_at w 0 == b'-' && (all_hex w || decimal_number w))
    then number_token
    else identifier
