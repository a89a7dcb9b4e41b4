-- ===== src/Lexer/Leads.antt =====
-- What the first character of a lexeme makes of the tests of `scml_lex_line`.
use open_scm.Prelude.{
  ℕ, ◌≡◌, ◌∙◌, refl, true, false, Bool, not, ◌&&◌, ◌||◌, [], ◌∷◌, arith, ◌==◌, if◌then◌else◌,
  Bool-cases, inl, inr,
}
use open_scm.Prelude.Text.{Text, codes}
use open_scm.Prelude.Decimal.{isspace, isdigit}
use open_scm.Lexer.Chars.{has, char_at, isalnum, is_word_start}
use open_scm.Lexer.Print.{marks, doubles, has_pair}
use open_scm.Lexer.Tokens.{LexError, unexpected}
use open_scm.Prelude.Result.{ok, err, Result}
use open_scm.Lexer.Tokens.{identifier, number_token}
use open_scm.Lexer.{
  is_double, is_sign, punctuation, is_comment, lex_piece, lex_other, piece, Piece, lex_word,
}
use open_scm.Lexer.Words.{unsigned_number}

abbrev pub all_pass : (ℕ → Bool) → Text → Bool
all_pass test [] = true
all_pass test (c ∷ s) = test c && all_pass test s

-- What all characters of a text pass, a character of it passes.
pub has-all_pass :
    (test : ℕ → Bool) (c : ℕ) (s : Text) → all_pass test s ≡ true → has c s ≡ true → test c ≡ true
unfolding has
has-all_pass test c [] h k = cc
has-all_pass test c (x ∷ s) h k = elim (Bool-cases (c == x)) [
  | inl e ↦ let same : c ≡ x = ground arith in rw same (ground arith)
  | inr e ↦ has-all_pass test c s (ground arith) (rw e at k)
]

-- A word that starts with neither a sign nor the marks of a string, label or comment.
abbrev pub is_name_start : ℕ → Bool
is_name_start c = isalnum c || (c == b'_' || (c == b'#' || c == b'$'))

-- What starts an operator of two characters.
abbrev leads : Text
leads = codes "&|=!<>:-+"

is_double-leads : (c d : ℕ) → has c leads ≡ false → is_double c d ≡ false
unfolding is_double has
is_double-leads c d h = ground arith

&&_parts : (a b : Bool) → (a && b) ≡ true → (a ≡ true) × (b ≡ true)
&&_parts a b h = ground arith

-- Two tests that fail together.
neither : (a b : Bool) → (not a && b) ≡ true → (a ≡ false) × (b ≡ true)
neither a b h = ground arith

-- No space, comma, colon, label or string.
abbrev pub plain : ℕ → Bool
plain c =
    not (isspace c || c == b',')
    && (not (c == b':') && (not (c == b'@') && (not (c == b'"') && true)))

pub lex_piece-plain :
    (col c : ℕ) (s : Text) → plain c ≡ true → lex_piece col c s ≡ lex_other col c s
unfolding lex_piece
lex_piece-plain col c s h =
    let (space, more) = neither (isspace c || c == b',') _ h in
    let (colon_no, more') = neither (c == b':') _ more in
    let (label_no, more'') = neither (c == b'@') _ more' in
    let (quote_no, last) = neither (c == b'"') _ more'' in
    rw (space, colon_no, label_no, quote_no, lex_piece) refl

-- No operator of two characters, no sign, when `d` follows.
abbrev single : ℕ → ℕ → Bool
single c d =
    not (is_double c d) && (not (is_sign c && d == b'=') && (not (is_sign c && isdigit d) && true))

abbrev otherwise : ℕ → ℕ → Text → Result LexError Piece
otherwise col c s =
    if has c punctuation
    then ok (piece identifier (c ∷ [], s))
    else if c == b'='
    then ok (piece identifier (c ∷ [], s))
    else if is_word_start c
    then lex_word (c ∷ s)
    else err (unexpected col c)

lex_other-single :
    (col c : ℕ) (s : Text) → single c (char_at s 0) ≡ true → lex_other col c s ≡ otherwise col c s
unfolding lex_other
lex_other-single col c s h =
    let (double_no, more) = neither (is_double c (char_at s 0)) _ h in
    let (assign_no, more') = neither (is_sign c && char_at s 0 == b'=') _ more in
    let (digit_no, last) = neither (is_sign c && isdigit (char_at s 0)) _ more' in
    rw (double_no, assign_no, digit_no, lex_other) refl

-- A single mark, before the space that follows it.
abbrev mark_test : ℕ → Bool
mark_test c = plain c && (single c b' ' && (has c punctuation || c == b'='))

mark_rest :
    (col c : ℕ) (s : Text) (p q : Bool) (x : Result LexError Piece)
    → (p || q) ≡ true
    → (if p
        then ok (piece identifier (c ∷ [], s))
        else if q
        then ok (piece identifier (c ∷ [], s))
        else x)
      ≡ ok (piece identifier (c ∷ [], s))
mark_rest col c s p q x h = ground arith

pub lex_mark :
    (col c : ℕ) (rest : Text)
    → has c marks ≡ true
    → lex_piece col c (b' ' ∷ rest) ≡ ok (piece identifier (c ∷ [], b' ' ∷ rest))
unfolding is_double has
lex_mark col c rest h =
    let tests = has-all_pass mark_test c marks refl h in
    let (clear, more) = &&_parts (plain c) _ tests in
    let (alone, found) = &&_parts (single c b' ') _ more in
    lex_piece-plain col c (b' ' ∷ rest) clear
    ∙ lex_other-single col c (b' ' ∷ rest) alone
    ∙ mark_rest col c (b' ' ∷ rest) (has c punctuation) (c == b'=') _ found

abbrev pairs_pass : (ℕ → ℕ → Bool) → Text → Bool
pairs_pass test [] = true
pairs_pass test (x ∷ []) = true
pairs_pass test (x ∷ y ∷ s) = test x y && pairs_pass test s

-- What all pairs of a text pass, a pair of it passes.
has_pair-pairs_pass :
    (test : ℕ → ℕ → Bool) (c d : ℕ) (s : Text)
    → pairs_pass test s ≡ true
    → has_pair c d s ≡ true
    → test c d ≡ true
has_pair-pairs_pass test c d [] h k = cc
has_pair-pairs_pass test c d (x ∷ []) h k = cc
has_pair-pairs_pass test c d (x ∷ y ∷ s) h k = elim (Bool-cases (c == x && d == y)) [
  | inl e ↦
      let first : c ≡ x = ground arith in
      let second : d ≡ y = ground arith in rw (first, second) (ground arith)
  | inr e ↦ has_pair-pairs_pass test c d s (ground arith) (rw e at k)
]

-- The lexer's tests for an operator of two characters.
abbrev pub TakenDouble : ℕ → ℕ → Type 0
TakenDouble c d = ((is_double c d || is_sign c && d == b'=') && not (c == b':')) ≡ true

pub doubles-taken : (c d : ℕ) → has_pair c d doubles ≡ true → TakenDouble c d
unfolding is_double
doubles-taken c d h =
    has_pair-pairs_pass (λ x y. (is_double x y || is_sign x && y == b'=') && not (x == b':')) c d
      doubles refl h

-- The first characters of operators of two characters.
abbrev pub operators : Text
operators = codes "&|=!<>-+"

pub operator_lead : (c d : ℕ) → TakenDouble c d → has c operators ≡ true
unfolding is_double has
operator_lead c d h = ground arith

double_rest :
    (p q r : Bool) (x y : Result LexError Piece)
    → ((p || q) && r) ≡ true
    → (if p then x else if q then x else y) ≡ x
double_rest p q r x y h = ground arith

pub lex_double :
    (col c d : ℕ) (rest : Text)
    → TakenDouble c d
    → lex_piece col c (d ∷ rest) ≡ ok (piece identifier (c ∷ d ∷ [], rest))
unfolding lex_other
lex_double col c d rest h =
    let clear = has-all_pass plain c operators refl (operator_lead c d h) in
    lex_piece-plain col c (d ∷ rest) clear
    ∙ (double_rest (is_double c d) (is_sign c && d == b'=') (not (c == b':'))
        (ok (piece identifier (c ∷ d ∷ [], rest))) _ h)

-- The first character of a name is none of those with a meaning of their own.
name_start-no :
    (c : ℕ) (s : Text)
    → is_name_start c ≡ true
    → all_pass (λ x. not (is_name_start x)) s ≡ true
    → has c s ≡ false
name_start-no c s h k = elim (Bool-cases (has c s)) [
  | inl e ↦
      let other = has-all_pass (λ x. not (is_name_start x)) c s k e in ground (arith, other, h)
  | inr e ↦ e
]

name_start-plain : (c : ℕ) → is_name_start c ≡ true → plain c ≡ true
name_start-plain c h = ground arith

name_start-single : (c d : ℕ) → is_name_start c ≡ true → single c d ≡ true
name_start-single c d h =
    let none_double = is_double-leads c d (name_start-no c leads h refl) in
    let no_sign : is_sign c ≡ false = ground arith in rw (none_double, no_sign) refl

pub lex_name :
    (col c : ℕ) (s : Text) → is_name_start c ≡ true → lex_piece col c s ≡ lex_word (c ∷ s)
lex_name col c s h =
    let no_mark = name_start-no c punctuation h refl in
    let no_assign : (c == b'=') ≡ false = ground arith in
    let start : is_word_start c ≡ true = ground arith in
    lex_piece-plain col c s (name_start-plain c h)
    ∙ lex_other-single col c s (name_start-single c (char_at s 0) h)
    ∙ rw (no_mark, no_assign, start) refl

is_double-digit : (c d : ℕ) → is_sign c ≡ true → isdigit d ≡ true → is_double c d ≡ false
unfolding is_double
is_double-digit c d h k = ground arith

sign-plain : (c : ℕ) → is_sign c ≡ true → plain c ≡ true
sign-plain c h = ground arith

pub lex_signed :
    (col c d : ℕ) (s : Text)
    → is_sign c ≡ true
    → isdigit d ≡ true
    → lex_piece col c (d ∷ s)
      ≡ ok (piece number_token (c ∷ (unsigned_number (d ∷ s)).0, (unsigned_number (d ∷ s)).1))
unfolding lex_other
lex_signed col c d s h k =
    let no_assign : (d == b'=') ≡ false = ground arith in
    lex_piece-plain col c (d ∷ s) (sign-plain c h)
    ∙ rw (is_double-digit c d h k, h, no_assign, k, lex_other) refl

-- No comment begins at a lexeme.
pub mark-not_comment :
    (c : ℕ) (rest : Text) → has c marks ≡ true → is_comment c (b' ' ∷ rest) ≡ false
unfolding is_comment
mark-not_comment c rest h =
    let test = has-all_pass (λ x. not (x == b';')) c marks refl h in ground (arith, test)

pub double-not_comment : (c d : ℕ) (rest : Text) → TakenDouble c d → is_comment c (d ∷ rest) ≡ false
unfolding is_comment
double-not_comment c d rest h =
    let test =
      has-all_pass (λ x. not (x == b';' || x == b'/')) c operators refl (operator_lead c d h) in
    ground (arith, test)

pub name-not_comment : (c : ℕ) (s : Text) → is_name_start c ≡ true → is_comment c s ≡ false
unfolding is_comment
name-not_comment c s h = ground arith

pub sign-not_comment : (c : ℕ) (s : Text) → is_sign c ≡ true → is_comment c s ≡ false
unfolding is_comment
sign-not_comment c s h = ground arith
