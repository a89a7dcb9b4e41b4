-- ===== src/Lexer/Total.antt =====
-- Every round of the lexer's loops moves on, so a round for each character is enough.
use open_scm.Prelude.{
  ℕ, zero, suc, ◌+◌, ◌-◌, ◌*◌, ◌≤◌, ◌<◌, ◌≡◌, ◌≢◌, refl, Bool, true, false, List, [], ◌∷◌, arith,
  leb, ◌==◌, inl, inr, Bool-cases, ◌&&◌, ◌||◌, none, take, if◌then◌else◌, length, drop, length-drop,
  ap,
}
use open_scm.Prelude.Text.{Text}
use open_scm.Prelude.Result.{Result, ok, err, ◌>>=◌, ◌>>◌, reject_if}
use open_scm.Lexer.Tokens.{
  Token, LexError, identifier, number_token, colon, string_token, string_too_long, unexpected,
  out_of_fuel,
}
use open_scm.Lexer.Chars.{span, is_label_char, is_word_char, is_word_start, has, char_at, isxdigit}
use open_scm.Lexer.Strings.{octal, escape, string_char, quoted}
use open_scm.Lexer.Words.{decimal_part, unsigned_number}
use open_scm.Lexer.{
  lex_label, lex_string, lex_word, lex_piece, lex_other, lex_from, lex_line, is_comment, is_double,
  is_sign, punctuation, Piece, piece, add_token,
}
use open_scm.Prelude.Decimal.{isdigit, isspace}

abbrev pub is_out_of_fuel : LexError → Bool
is_out_of_fuel out_of_fuel = true
is_out_of_fuel _ = false

-- A result that leaves at most `n` characters, or an error of the source.
abbrev pub Progress : {A : Type 0} → ℕ → Result LexError (A × Text) → Type 0
Progress n (ok (a, rest)) = length rest ≤ n
Progress n (err e) = is_out_of_fuel e ≡ false

if-Progress :
    {A : Type 0} (b : Bool) (n : ℕ) (x y : Result LexError (A × Text))
    → Progress n x
    → Progress n y
    → Progress n (if b then x else y)
if-Progress true n x y h k = h
if-Progress false n x y h k = k

if-length :
    {A : Type 0} (b : Bool) (n : ℕ) (x y : A × Text)
    → length x.1 ≤ n
    → length y.1 ≤ n
    → length (if b then x else y).1 ≤ n
if-length true n x y h k = h
if-length false n x y h k = k

pub length-span : (class : ℕ → Bool) (s : Text) → length (span class s).1 ≤ length s
unfolding span
length-span class [] = omega arith
length-span class (c ∷ s) = ground (arith, length-span class s)

length-octal : (left value : ℕ) (s : Text) → length (octal left value s).1 ≤ length s
unfolding octal
length-octal zero value s = omega arith
length-octal (suc left) value [] = omega arith
length-octal (suc left) value (c ∷ s) = ground (arith, length-octal left (value * 8 + (c - b'0')) s)

length-escape : (c : ℕ) (s : Text) → length (escape c s).1 ≤ length s
unfolding escape
length-escape c s = ground (arith, length-octal 2 (c - b'0') s, length-drop 2 s)

length-string_char : (c : ℕ) (s : Text) → length (string_char c s).1 ≤ length s
unfolding string_char
length-string_char c [] = omega arith
length-string_char c (d ∷ s) = ground (arith, length-escape d s)

more-Progress :
    (n : ℕ) (too_long : Bool) (c : ℕ) (more : Result LexError (List ℕ × Text))
    → Progress n more
    → Progress n (do reject_if too_long string_too_long; (chars, rest) ← more; ok (c ∷ chars, rest))
more-Progress n true c more h = refl
more-Progress n false c (err e) h = h
more-Progress n false c (ok (chars, rest)) h = h

Progress-le :
    {A : Type 0} (m n : ℕ) (r : Result LexError (A × Text)) → m ≤ n → Progress m r → Progress n r
Progress-le m n (ok (a, rest)) le h = omega (arith, le, h)
Progress-le m n (err e) le h = h

quoted-Progress :
    (fuel bi : ℕ) (s : Text) → length s < fuel → Progress (length s) (quoted fuel bi s)
unfolding quoted
quoted-Progress zero bi s h = absurd (omega arith)
quoted-Progress (suc fuel) bi [] h = refl
quoted-Progress (suc fuel) bi (c ∷ s) h =
    let moved = length-string_char c s in
    let rest = (string_char c s).1 in
    let more = quoted-Progress fuel (suc bi) rest (omega (arith, moved, h)) in
    if-Progress (c == b'"') (suc (length s)) (ok ([], s)) _ (omega arith) (
      more-Progress (suc (length s)) (leb 4096 (bi + 2)) (string_char c s).0
        (quoted fuel (suc bi) rest)
        (Progress-le (length rest) (suc (length s)) (quoted fuel (suc bi) rest)
          (omega (arith, moved)) more))

lex_label-Progress : (s : Text) → Progress (length s) (lex_label s)
unfolding lex_label
lex_label-Progress s = ground (arith, length-span is_label_char s)

string-Progress :
    (n : ℕ) (r : Result LexError (List ℕ × Text))
    → Progress n r
    → Progress n (do (chars, rest) ← r; ok (piece string_token (chars, rest)))
string-Progress n (ok (chars, rest)) h = h
string-Progress n (err e) h = h

lex_string-Progress : (s : Text) → Progress (length s) (lex_string s)
unfolding lex_string
lex_string-Progress s =
    let enough = quoted-Progress (suc (length s)) 0 s (omega arith) in
    string-Progress (length s) (quoted (suc (length s)) 0 s) enough

length-decimal_part : (s : Text) → length (decimal_part s).1 ≤ length s
unfolding decimal_part
length-decimal_part s =
    let whole = length-span isdigit s in
    let rest = (span isdigit s).1 in
    ground (arith, whole, length-drop 1 rest, length-span isdigit (drop 1 rest))

length-unsigned_number : (s : Text) → length (unsigned_number s).1 ≤ length s
unfolding unsigned_number
length-unsigned_number s =
    ground (arith, length-decimal_part s, length-drop 2 s, length-span isxdigit (drop 2 s))

-- A word that starts with a word character takes that at least.
lex_word-Progress :
    (c : ℕ) (s : Text) → is_word_char c ≡ true → Progress (length s) (lex_word (c ∷ s))
unfolding lex_word span
lex_word-Progress c s h = rw h (length-span is_word_char s)

word_start-word_char : (c : ℕ) → is_word_start c ≡ true → is_word_char c ≡ true
word_start-word_char c h = ground arith

if-Piece :
    (b : Bool) (n : ℕ) (x y : Result LexError Piece)
    → Progress n x
    → Progress n y
    → Progress n (if b then x else y)
if-Piece b n x y h k = if-Progress b n x y h k

word-Piece :
    (b : Bool) (n : ℕ) (x : Result LexError Piece) (e : LexError)
    → (b ≡ true → Progress n x)
    → is_out_of_fuel e ≡ false
    → Progress n (if b then x else err e)
word-Piece true n x e h k = h refl
word-Piece false n x e h k = k

lex_other-Progress : (col c : ℕ) (s : Text) → Progress (length s) (lex_other col c s)
unfolding lex_other
lex_other-Progress col c s =
    let n = length s in
    let two : Result LexError Piece = ok (piece identifier (c ∷ take 1 s, drop 1 s)) in
    let one : Result LexError Piece = ok (piece identifier (c ∷ [], s)) in
    let same : n ≤ n = omega arith in
    let less : length (drop 1 s) ≤ n = omega (arith, length-drop 1 s) in
    let number : Result LexError Piece =
      ok (piece number_token (c ∷ (unsigned_number s).0, (unsigned_number s).1)) in
    let word =
      word-Piece (is_word_start c) n (lex_word (c ∷ s)) (unexpected col c)
        (λ h. lex_word-Progress c s (word_start-word_char c h)) refl in
    if-Piece (is_double c (char_at s 0)) n two _ less (
      if-Piece (is_sign c && char_at s 0 == b'=') n two _ less (
        if-Piece (is_sign c && isdigit (char_at s 0)) n number _ (length-unsigned_number s)
          (if-Piece (has c punctuation) n one _ same (if-Piece (c == b'=') n one _ same word))))

pub lex_piece-Progress : (col c : ℕ) (s : Text) → Progress (length s) (lex_piece col c s)
unfolding lex_piece
lex_piece-Progress col c s =
    let n = length s in
    let same : n ≤ n = omega arith in
    if-Piece (isspace c || c == b',') n (ok (none, s)) _ same (
      if-Piece (c == b':') n (ok (piece colon (c ∷ [], s))) _ same (
        if-Piece (c == b'@') n (lex_label s) _ (lex_label-Progress s) (
          if-Piece (c == b'"') n (lex_string s) _ (lex_string-Progress s)
            (lex_other-Progress col c s))))

-- A round of the loop, with the continuation as a parameter.
abbrev pub round :
    ℕ
    → ℕ
    → Result LexError Piece
    → (Text → Result LexError (List Token))
    → Result LexError (List Token)
round line_no col first more = do
  (token, rest) ← first
  tokens ← more rest
  ok (add_token line_no col token tokens)

err-injective : (a b : LexError) → ◌≡◌ {A = Result LexError (List Token)} (err a) (err b) → a ≡ b
err-injective a b same = cc

fuel_error :
    (e : LexError)
    → is_out_of_fuel e ≡ false
    → ◌≢◌ {A = Result LexError (List Token)} (err e) (err out_of_fuel)
fuel_error e h same = cc

ok-ne : (tokens : List Token) → ◌≢◌ {A = Result LexError (List Token)} (ok tokens) (err out_of_fuel)
ok-ne tokens same = cc

finish :
    (r : Result LexError (List Token)) (f : List Token → List Token)
    → r ≢ err out_of_fuel
    → (do tokens ← r; ok (f tokens)) ≢ err out_of_fuel
finish (ok tokens) f h same = ok-ne (f tokens) same
finish (err e) f h same = h (ap err (err-injective e out_of_fuel same))

-- Two continuations that agree on all that the first part may leave give the same result, which
-- is not a lack of fuel when theirs is not.
round-agree :
    (line_no col n : ℕ) (first : Result LexError Piece)
    (more more' : Text → Result LexError (List Token))
    → Progress n first
    → ((rest : Text) → length rest ≤ n → (more rest ≡ more' rest) × (more rest ≢ err out_of_fuel))
    → (round line_no col first more ≡ round line_no col first more')
      × (round line_no col first more ≢ err out_of_fuel)
round-agree line_no col n (err e) more more' h k = (refl, λ same. fuel_error e h same)
round-agree line_no col n (ok (token, rest)) more more' h k =
    let (same, ends) = k rest h in (rw same, finish (more rest) (add_token line_no col token) ends)

lex_from-agree :
    (fuel fuel' line_no total : ℕ) (s : Text)
    → length s ≤ fuel
    → length s ≤ fuel'
    → (lex_from fuel line_no total s ≡ lex_from fuel' line_no total s)
      × (lex_from fuel line_no total s ≢ err out_of_fuel)
unfolding lex_from
lex_from-agree fuel fuel' line_no total [] h k = (refl, ok-ne [])
lex_from-agree zero fuel' line_no total (c ∷ s) h k = absurd (omega arith)
lex_from-agree (suc fuel) zero line_no total (c ∷ s) h k = absurd (omega arith)
lex_from-agree (suc fuel) (suc fuel') line_no total (c ∷ s) h k =
    let col = suc (total - suc (length s)) in
    elim (Bool-cases (is_comment c s)) [
      | inl e ↦ rw (e, lex_from) (refl, ok-ne [])
      | inr e ↦
          rw (e, lex_from)
            (round-agree line_no col (length s) (lex_piece col c s) (lex_from fuel line_no total)
              (lex_from fuel' line_no total) (lex_piece-Progress col c s)
              (λ rest le.
                lex_from-agree fuel fuel' line_no total rest (omega (arith, le, h))
                  (omega (arith, le, k))))
    ]

-- The loop over a line ends: one round for each character is enough, whatever the line, and more
-- rounds change nothing.
pub lex_line-fuel :
    (line : Text) (line_no fuel : ℕ)
    → length line ≤ fuel
    → (lex_from fuel line_no (length line) line ≡ lex_line line line_no)
      × (lex_line line line_no ≢ err out_of_fuel)
unfolding lex_line
lex_line-fuel line line_no fuel h =
    let enough : length line ≤ length line = omega arith in
    (
      (lex_from-agree fuel (length line) line_no (length line) line h enough).0,
      (lex_from-agree (length line) (length line) line_no (length line) line enough enough).1,
    )
