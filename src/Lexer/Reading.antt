-- ===== src/Lexer/Reading.antt =====
-- A lexeme before a space is read as its token.
use open_scm.Prelude.{
  ℕ, zero, suc, ◌+◌, ◌≤◌, ◌<◌, ◌≡◌, ◌∙◌, refl, true, false, ◌||◌, List, [], ◌∷◌, ◌++◌, arith, leb,
  ◌==◌, length, Bool-cases, inl, inr,
}
use open_scm.Prelude.Text.{Text}
use open_scm.Prelude.Decimal.{isdigit}
use open_scm.Prelude.Result.{reject_if, ◌>>=◌, ◌>>◌, ok, Result}
use open_scm.Lexer.Tokens.{TokenType, LexError, string_too_long, colon, string_token, label_ref}
use open_scm.Lexer.Chars.{span-AllIn, AllIn, is_label_char, is_word_char, char_at}
use open_scm.Lexer.Strings.{quoted, string_char, escape}
use open_scm.Lexer.Words.{word_type, unsigned_number, decimal_part}
use open_scm.Lexer.Print.{
  Lexeme, quote, label, name, numeral, hexadecimal, real, signed, double, mark, colon_mark,
  IsLexeme, head_of, tail_of, lexeme_type, lexeme_text, print_chars, print_char,
}
use open_scm.Lexer.Numerals.{
  IsWord, name-IsWord, numeral-IsWord, hexadecimal-IsWord, real-IsWord, word_type-name,
  word_type-numeral, word_type-hexadecimal, word_type-real,
}
use open_scm.Lexer.Leads.{
  is_name_start, doubles-taken, lex_double, lex_mark, lex_name, lex_signed, mark-not_comment,
  double-not_comment, name-not_comment, sign-not_comment,
}
use open_scm.Lexer.{piece, lex_piece, is_comment, lex_string, lex_label, lex_word}

-- What the string's loop does with the next character.
abbrev after_char : ℕ → ℕ → Result LexError (List ℕ × Text) → Result LexError (List ℕ × Text)
after_char bi c more = do
  reject_if (leb 4096 (bi + 2)) string_too_long
  (chars, rest) ← more
  ok (c ∷ chars, rest)

quoted-plain :
    (fuel bi c : ℕ) (s : Text)
    → (c == b'"') ≡ false
    → (c == b'\\') ≡ false
    → quoted (suc fuel) bi (c ∷ s) ≡ after_char bi c (quoted fuel (suc bi) s)
unfolding quoted string_char
quoted-plain fuel bi c [] h k = rw (h, quoted) refl
quoted-plain fuel bi c (d ∷ s) h k = rw (h, k, quoted, string_char) refl

equal : (c k : ℕ) → (c == k) ≡ true → c ≡ k
equal c k h = ground arith

quoted-print_char :
    (fuel bi c : ℕ) (s : Text)
    → quoted (suc fuel) bi (print_char c s) ≡ after_char bi c (quoted fuel (suc bi) s)
unfolding quoted print_char string_char escape
quoted-print_char fuel bi c s = elim (Bool-cases (c == 10)) [
  | inl e ↦ rw (equal c 10 e) refl
  | inr e₀ ↦ elim (Bool-cases (c == 9)) [
    | inl e ↦ rw (equal c 9 e) refl
    | inr e₁ ↦ elim (Bool-cases (c == 13)) [
      | inl e ↦ rw (equal c 13 e) refl
      | inr e₂ ↦ elim (Bool-cases (c == 27)) [
        | inl e ↦ rw (equal c 27 e) refl
        | inr e₃ ↦ elim (Bool-cases (c == b'"')) [
          | inl e ↦ rw (equal c b'"' e) refl
          | inr e₄ ↦ elim (Bool-cases (c == b'\\')) [
            | inl e ↦ rw (equal c b'\\' e) refl
            | inr e₅ ↦ rw (e₀, e₁, e₂, e₃, e₄, e₅, print_char) (quoted-plain fuel bi c s e₄ e₅)
          ]
        ]
      ]
    ]
  ]
]

quoted-print_chars :
    (fuel bi : ℕ) (s rest : Text)
    → length s < fuel
    → bi + length s ≤ 4094
    → quoted fuel bi (print_chars s rest) ≡ ok (s, rest)
unfolding print_chars quoted
quoted-print_chars zero bi s rest h k = absurd (omega arith)
quoted-print_chars (suc fuel) bi [] rest h k = refl
quoted-print_chars (suc fuel) bi (c ∷ s) rest h k =
    let room : leb 4096 (bi + 2) ≡ false = ground arith in
    let more = quoted-print_chars fuel (suc bi) s rest (omega (arith, h)) (omega (arith, k)) in
    quoted-print_char fuel bi c (print_chars s rest) ∙ rw (room, more) refl

length-print_char : (c : ℕ) (s : Text) → length s < length (print_char c s)
unfolding print_char
length-print_char c s = ground arith

pub length-print_chars : (s rest : Text) → length s ≤ length (print_chars s rest)
unfolding print_chars
length-print_chars [] rest = omega arith
length-print_chars (c ∷ s) rest =
    omega (arith, length-print_chars s rest, length-print_char c (print_chars s rest))

lex_piece-quote : (col : ℕ) (s : Text) → lex_piece col b'"' s ≡ lex_string s
unfolding lex_piece
lex_piece-quote col s = refl

lex_string-print_chars :
    (s rest : Text)
    → length s ≤ 4094
    → lex_string (print_chars s rest) ≡ ok (piece string_token (s, rest))
unfolding lex_string
lex_string-print_chars s rest h =
    rw
      (quoted-print_chars (suc (length (print_chars s rest))) 0 s rest
        (omega (arith, length-print_chars s rest)) (omega (arith, h)))
      refl

lex_piece-at : (col : ℕ) (s : Text) → lex_piece col b'@' s ≡ lex_label s
unfolding lex_piece
lex_piece-at col s = refl

lex_label-name :
    (c : ℕ) (s rest : Text)
    → AllIn is_label_char (c ∷ s)
    → lex_label (c ∷ s ++ b' ' ∷ rest) ≡ ok (piece label_ref (c ∷ s, b' ' ∷ rest))
unfolding lex_label
lex_label-name c s rest h =
    let all = span-AllIn is_label_char (c ∷ s) (b' ' ∷ rest) h refl in rw (lex_label, all, all) refl

lex_piece-label :
    (col c : ℕ) (s rest : Text)
    → AllIn is_label_char (c ∷ s)
    → lex_piece col b'@' (c ∷ s ++ b' ' ∷ rest) ≡ ok (piece label_ref (c ∷ s, b' ' ∷ rest))
lex_piece-label col c s rest h = lex_piece-at col (c ∷ s ++ b' ' ∷ rest) ∙ lex_label-name c s rest h

lex_word-name :
    (c : ℕ) (s rest : Text)
    → AllIn is_word_char (c ∷ s)
    → lex_word (c ∷ s ++ b' ' ∷ rest) ≡ ok (piece (word_type (c ∷ s)) (c ∷ s, b' ' ∷ rest))
unfolding lex_word
lex_word-name c s rest h = rw (span-AllIn is_word_char (c ∷ s) (b' ' ∷ rest) h refl) refl

pub name_start-word_char : (c : ℕ) → is_name_start c ≡ true → is_word_char c ≡ true
name_start-word_char c h = ground arith

lex_piece-word :
    (col c : ℕ) (s rest : Text) {type : TokenType}
    → IsWord c s
    → word_type (c ∷ s) ≡ type
    → lex_piece col c (s ++ b' ' ∷ rest) ≡ ok (piece type (c ∷ s, b' ' ∷ rest))
lex_piece-word col c s rest h e =
    lex_name col c (s ++ b' ' ∷ rest) h.0
    ∙ lex_word-name c s rest (name_start-word_char c h.0, h.1)
    ∙ rw e refl

digits-no_x :
    (s rest : Text)
    → AllIn isdigit s
    → (char_at (s ++ b' ' ∷ rest) 0 == b'x' || char_at (s ++ b' ' ∷ rest) 0 == b'X') ≡ false
digits-no_x [] rest h = refl
digits-no_x (c ∷ s) rest h = let digit = h.0 in ground arith

unsigned_number-digits :
    (d : ℕ) (s rest : Text)
    → AllIn isdigit (d ∷ s)
    → unsigned_number (d ∷ s ++ b' ' ∷ rest) ≡ (d ∷ s, b' ' ∷ rest)
unfolding unsigned_number decimal_part
unsigned_number-digits d s rest h =
    let all = span-AllIn isdigit (d ∷ s) (b' ' ∷ rest) h refl in
    let no_x = digits-no_x s rest h.1 in ground (arith, all, no_x)

lex_piece-colon :
    (col : ℕ) (rest : Text)
    → lex_piece col b':' (b' ' ∷ rest) ≡ ok (piece colon (b':' ∷ [], b' ' ∷ rest))
unfolding lex_piece
lex_piece-colon col rest = refl

-- Every lexeme, before a space, is read as its token.
abbrev pub Reads : Lexeme → Type 0
Reads l =
    (col : ℕ) (rest : Text)
    → lex_piece col (head_of l) (tail_of l (b' ' ∷ rest))
      ≡ ok (piece (lexeme_type l) (lexeme_text l, b' ' ∷ rest))

pub lex_piece-lexeme : (l : Lexeme) → IsLexeme l → Reads l
unfolding head_of tail_of lexeme_type lexeme_text
lex_piece-lexeme (quote s) h col rest =
    lex_piece-quote col (print_chars s (b' ' ∷ rest)) ∙ lex_string-print_chars s (b' ' ∷ rest) h.1
lex_piece-lexeme (label c s) h col rest = lex_piece-label col c s rest h
lex_piece-lexeme (name c s) h col rest =
    lex_piece-word col c s rest (name-IsWord c s h.0 h.1) (word_type-name c s h.0)
lex_piece-lexeme (numeral d s) h col rest =
    lex_piece-word col d s rest (numeral-IsWord d s h.0 h.1) (word_type-numeral d s h.0 h.1)
lex_piece-lexeme (hexadecimal s) h col rest =
    lex_piece-word col b'0' (b'x' ∷ s) rest (hexadecimal-IsWord s h) (word_type-hexadecimal s h)
lex_piece-lexeme (real d s t) h col rest =
    lex_piece-word col d (s ++ b'.' ∷ t) rest (real-IsWord d s t h.0 h.1 h.2)
      (word_type-real d s t h.0 h.1 h.2)
lex_piece-lexeme (signed c d s) h col rest =
    lex_signed col c d (s ++ b' ' ∷ rest) h.0 h.1.0 ∙ rw (unsigned_number-digits d s rest h.1) refl
lex_piece-lexeme (double c d) h col rest = lex_double col c d (b' ' ∷ rest) (doubles-taken c d h)
lex_piece-lexeme (mark c) h col rest = lex_mark col c rest h
lex_piece-lexeme colon_mark h col rest = lex_piece-colon col rest

pub lexeme-not_comment :
    (l : Lexeme) (rest : Text)
    → IsLexeme l
    → is_comment (head_of l) (tail_of l (b' ' ∷ rest)) ≡ false
unfolding head_of tail_of is_comment
lexeme-not_comment (quote s) rest h = refl
lexeme-not_comment (label c s) rest h = refl
lexeme-not_comment (name c s) rest h =
    name-not_comment c (s ++ b' ' ∷ rest) (name-IsWord c s h.0 h.1).0
lexeme-not_comment (numeral d s) rest h =
    name-not_comment d (s ++ b' ' ∷ rest) (numeral-IsWord d s h.0 h.1).0
lexeme-not_comment (hexadecimal s) rest h = refl
lexeme-not_comment (real d s t) rest h =
    name-not_comment d ((s ++ b'.' ∷ t) ++ b' ' ∷ rest) (real-IsWord d s t h.0 h.1 h.2).0
lexeme-not_comment (signed c d s) rest h = sign-not_comment c (d ∷ s ++ b' ' ∷ rest) h.0
lexeme-not_comment (double c d) rest h = double-not_comment c d (b' ' ∷ rest) (doubles-taken c d h)
lexeme-not_comment (mark c) rest h = mark-not_comment c rest h
lexeme-not_comment colon_mark rest h = refl
