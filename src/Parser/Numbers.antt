-- ===== src/Parser/Numbers.antt =====
-- The numbers of parser/parser.c: `parse_int`, `is_float_token` and `is_number_token`, on `strtol`
-- as the 64-bit C library has it, where a `long` is its 64 bits.
use open_scm.Prelude.{
  ℕ, ◌+◌, ◌-◌, ◌*◌, ◌%◌, ◌^◌, Bool, true, false, not, ◌&&◌, ◌||◌, [], ◌∷◌, min, ltb, leb, ◌==◌,
  if◌then◌else◌, length, drop,
}
use open_scm.Prelude.Text.{Text}
use open_scm.Prelude.Decimal.{isdigit, skip_spaces}
use open_scm.Lexer.Chars.{isxdigit, char_at}

-- The value of a digit, 36 for what is none in any base.
abbrev digit_value : ℕ → ℕ
digit_value c =
    if isdigit c
    then c - b'0'
    else if leb b'a' c && leb c b'z'
    then c - b'a' + 10
    else if leb b'A' c && leb c b'Z'
    then c - b'A' + 10
    else 36

-- The value of the digits at the front, after those that gave `acc`.
unfoldable pub digits_in : ℕ → ℕ → Text → ℕ
digits_in base acc [] = acc
digits_in base acc (c ∷ s) =
    let more = digits_in base (acc * base + digit_value c) s in
    if ltb (digit_value c) base then more else acc

-- A `0x` before a hexadecimal digit.
abbrev has_prefix : Text → Bool
has_prefix s =
    char_at s 0 == b'0' && ((char_at s 1 == b'x' || char_at s 1 == b'X') && isxdigit (char_at s 2))

-- The value behind the sign: base 16 passes over a prefix, and base 0 takes the base from it.
unfoldable pub strtol_value : ℕ → Text → ℕ
unfolding digits_in
strtol_value base s =
    if (base == 16 || base == 0) && has_prefix s
    then digits_in 16 0 (drop 2 s)
    else if base == 0
    then (if char_at s 0 == b'0' then digits_in 8 0 s else digits_in 10 0 s)
    else digits_in base 0 s

abbrev signed_value : ℕ → Text → ℕ
signed_value base s =
    if char_at s 0 == b'-'
    then (2 ^ 64 - min (strtol_value base (drop 1 s)) (2 ^ 63)) % 2 ^ 64
    else if char_at s 0 == b'+'
    then min (strtol_value base (drop 1 s)) (2 ^ 63 - 1)
    else min (strtol_value base s) (2 ^ 63 - 1)

-- `strtol(s, NULL, base)`, which stops at the ends of a `long`.
unfoldable pub strtol : ℕ → Text → ℕ
unfolding strtol_value skip_spaces
strtol base s = signed_value base (skip_spaces s)

-- The `int` is the low 32 bits of the `long`.
unfoldable pub parse_int : Text → ℕ
unfolding strtol
parse_int s =
    if ltb 1 (length s) && (char_at s 0 == b'0' && isxdigit (char_at s 1))
    then strtol 16 s % 2 ^ 32
    else strtol 0 s % 2 ^ 32

abbrev without_minus : Text → Text
without_minus s = if char_at s 0 == b'-' then drop 1 s else s

-- The loop of `is_float_token`, with what it has seen so far.
unfoldable pub float_from : Bool → Bool → Text → Bool
float_from dot digit [] = dot && digit
float_from dot digit (c ∷ s) =
    let after_dot = float_from true digit s in
    let after_digit = float_from dot true s in
    if c == b'.' then not dot && after_dot else isdigit c && after_digit

unfoldable pub is_float_token : Text → Bool
unfolding float_from
is_float_token s = float_from false false (without_minus s)

unfoldable pub all_xdigits : Text → Bool
all_xdigits [] = true
all_xdigits (c ∷ s) = isxdigit c && all_xdigits s

unfoldable pub is_number_token : Text → Bool
unfolding all_xdigits
is_number_token s = ltb 0 (length (without_minus s)) && all_xdigits (without_minus s)
