-- ===== src/Lexer/Numerals.antt =====
-- Which words are numbers: the tests of `scml_lex_line` on the words that are written out.
use open_scm.Prelude.{
  ℕ, ◌≡◌, ◌∙◌, suc, if◌then◌else◌, ◌&&◌, refl, true, false, Bool, ◌||◌, [], ◌∷◌, ◌++◌, arith, ◌==◌,
  Bool-cases, inl, inr,
}
use open_scm.Prelude.Text.{Text}
use open_scm.Prelude.Decimal.{isdigit}
use open_scm.Lexer.Tokens.{identifier, number_token}
use open_scm.Lexer.Chars.{isxdigit, is_word_char, AllIn, has}
use open_scm.Lexer.Print.{is_name_first}
use open_scm.Lexer.Leads.{is_name_start}
use open_scm.Lexer.Words.{word_type, all_hex, decimal_number, hex_from, decimal_from}

pub AllIn-map :
    (p q : ℕ → Bool) (s : Text) → ((c : ℕ) → p c ≡ true → q c ≡ true) → AllIn p s → AllIn q s
AllIn-map p q [] h k = tt
AllIn-map p q (c ∷ s) h k = (h c k.0, AllIn-map p q s h k.1)

pub AllIn-append : (p : ℕ → Bool) (s t : Text) → AllIn p s → AllIn p t → AllIn p (s ++ t)
AllIn-append p [] t h k = k
AllIn-append p (c ∷ s) t h k = (h.0, AllIn-append p s t h.1 k)

-- The characters of a word, for the lexer.
abbrev pub IsWord : ℕ → Text → Type 0
IsWord c s = (is_name_start c ≡ true) × AllIn is_word_char s

digit-xdigit : (c : ℕ) → isdigit c ≡ true → isxdigit c ≡ true
digit-xdigit c h = ground arith

xdigit-word_char : (c : ℕ) → isxdigit c ≡ true → is_word_char c ≡ true
xdigit-word_char c h = ground arith

digit-word_char : (c : ℕ) → isdigit c ≡ true → is_word_char c ≡ true
digit-word_char c h = ground arith

pub name-IsWord : (c : ℕ) (s : Text) → is_name_first c ≡ true → AllIn is_word_char s → IsWord c s
name-IsWord c s h k = (ground arith, k)

pub numeral-IsWord : (d : ℕ) (s : Text) → isdigit d ≡ true → AllIn isxdigit s → IsWord d s
numeral-IsWord d s h k = (ground arith, AllIn-map isxdigit is_word_char s xdigit-word_char k)

pub hexadecimal-IsWord : (s : Text) → AllIn isxdigit s → IsWord b'0' (b'x' ∷ s)
hexadecimal-IsWord s k = (refl, (refl, AllIn-map isxdigit is_word_char s xdigit-word_char k))

pub real-IsWord :
    (d : ℕ) (s t : Text)
    → isdigit d ≡ true
    → AllIn isdigit s
    → AllIn isdigit t
    → IsWord d (s ++ b'.' ∷ t)
real-IsWord d s t h k l =
    let front = AllIn-map isdigit is_word_char s digit-word_char k in
    let back = AllIn-map isdigit is_word_char t digit-word_char l in
    (ground arith, AllIn-append is_word_char s (b'.' ∷ t) front (refl, back))

-- A word without the character: no character of its class is.
has-AllIn : (p : ℕ → Bool) (x : ℕ) (s : Text) → p x ≡ false → AllIn p s → has x s ≡ false
unfolding has
has-AllIn p x [] h k = refl
has-AllIn p x (c ∷ s) h k = elim (Bool-cases (x == c)) [
  | inl e ↦
      let same : x ≡ c = ground arith in
      let y = k.0 in let z : p c ≡ false = rw same at h in absurd (ground (arith, y, z))
  | inr e ↦ rw e (has-AllIn p x s h k.1)
]

hex_from-AllIn : (first j : ℕ) (s : Text) → AllIn isxdigit s → hex_from first j s ≡ true
unfolding hex_from
hex_from-AllIn first j [] h = refl
hex_from-AllIn first j (c ∷ s) h = rw (h.0, hex_from-AllIn first (suc j) s h.1) refl

decimal_from-digits : (t : Text) → AllIn isdigit t → decimal_from t ≡ true
unfolding decimal_from
decimal_from-digits [] h = refl
decimal_from-digits (c ∷ t) h = rw h.0 (rw (decimal_from-digits t h.1) (ground arith))

decimal_from-point :
    (s t : Text) → AllIn isdigit s → AllIn isdigit t → decimal_from (s ++ b'.' ∷ t) ≡ true
unfolding decimal_from
decimal_from-point [] t h k = decimal_from-digits t k
decimal_from-point (c ∷ s) t h k =
    let rest = decimal_from-point s t h.1 k in let first = h.0 in ground (arith, rest, first)

has_point : (s t : Text) → has b'.' (s ++ b'.' ∷ t) ≡ true
unfolding has
has_point [] t = refl
has_point (c ∷ s) t = ground (arith, has_point s t)

-- A word that starts with neither a minus sign nor a digit, and one that starts with a digit.
word_type-first :
    (c : ℕ) (s : Text)
    → (c == b'-') ≡ false
    → word_type (c ∷ s) ≡ (
        if isdigit c && (all_hex (c ∷ s) || (has b'.' (c ∷ s) && decimal_number (c ∷ s)))
        then number_token
        else identifier)
unfolding word_type
word_type-first c s h = ground arith

pub word_type-name : (c : ℕ) (s : Text) → is_name_first c ≡ true → word_type (c ∷ s) ≡ identifier
word_type-name c s h =
    let no_minus : (c == b'-') ≡ false = ground arith in
    let no_digit : isdigit c ≡ false = ground arith in
    word_type-first c s no_minus ∙ rw no_digit refl

word_type-digit :
    (d : ℕ) (s : Text)
    → isdigit d ≡ true
    → (all_hex (d ∷ s) || (has b'.' (d ∷ s) && decimal_number (d ∷ s))) ≡ true
    → word_type (d ∷ s) ≡ number_token
word_type-digit d s h k =
    let no_minus : (d == b'-') ≡ false = ground arith in
    word_type-first d s no_minus ∙ rw (h, k) refl

-- `all_hex` of a word of hexadecimal digits, with or without `0x`.
all_hex-digit :
    (d : ℕ) (s : Text)
    → isdigit d ≡ true
    → has b'@' s ≡ false
    → hex_from d 1 s ≡ true
    → all_hex (d ∷ s) ≡ true
unfolding all_hex has hex_from
all_hex-digit d s h k l =
    let no_minus : (d == b'-') ≡ false = ground arith in
    let no_dollar : (d == b'$') ≡ false = ground arith in
    let no_at : (b'@' == d) ≡ false = ground arith in
    let digit : isxdigit d ≡ true = digit-xdigit d h in
    rw (all_hex, no_minus, no_dollar, no_at, k, digit, l) refl

pub word_type-numeral :
    (d : ℕ) (s : Text) → isdigit d ≡ true → AllIn isxdigit s → word_type (d ∷ s) ≡ number_token
word_type-numeral d s h k =
    let hex = all_hex-digit d s h (has-AllIn isxdigit b'@' s refl k) (hex_from-AllIn d 1 s k) in
    word_type-digit d s h (rw hex refl)

pub word_type-hexadecimal :
    (s : Text) → AllIn isxdigit s → word_type (b'0' ∷ b'x' ∷ s) ≡ number_token
unfolding hex_from has
word_type-hexadecimal s k =
    let clear : has b'@' (b'x' ∷ s) ≡ false = has-AllIn isxdigit b'@' s refl k in
    let hex = all_hex-digit b'0' (b'x' ∷ s) refl clear (hex_from-AllIn b'0' 2 s k) in
    word_type-digit b'0' (b'x' ∷ s) refl (rw hex refl)

decimal_number-digit :
    (d : ℕ) (s : Text)
    → isdigit d ≡ true
    → has b'@' s ≡ false
    → decimal_from s ≡ true
    → decimal_number (d ∷ s) ≡ true
unfolding decimal_number has decimal_from
decimal_number-digit d s h k l =
    let no_minus : (d == b'-') ≡ false = ground arith in
    let no_at : (b'@' == d) ≡ false = ground arith in
    let some_digit : (d == b'.' || isdigit d) ≡ true = ground arith in
    rw (decimal_number, no_minus, no_at, k, some_digit, l) refl

point_or_digit : (c : ℕ) → isdigit c ≡ true → (c == b'.' || isdigit c) ≡ true
point_or_digit c h = ground arith

pub word_type-real :
    (d : ℕ) (s t : Text)
    → isdigit d ≡ true
    → AllIn isdigit s
    → AllIn isdigit t
    → word_type (d ∷ s ++ b'.' ∷ t) ≡ number_token
unfolding has
word_type-real d s t h k l =
    let class : ℕ → Bool = λ c. c == b'.' || isdigit c in
    let front : AllIn class s = AllIn-map isdigit class s point_or_digit k in
    let back : AllIn class t = AllIn-map isdigit class t point_or_digit l in
    let all = AllIn-append class s (b'.' ∷ t) front (refl, back) in
    let clear = has-AllIn class b'@' (s ++ b'.' ∷ t) refl all in
    let decimal = decimal_number-digit d (s ++ b'.' ∷ t) h clear (decimal_from-point s t k l) in
    let no_point : (b'.' == d) ≡ false = ground arith in
    word_type-digit d (s ++ b'.' ∷ t) h (ground (arith, decimal, has_point s t))
