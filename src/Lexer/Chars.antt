-- ===== src/Lexer/Chars.antt =====
-- The classes of characters that lexer/lexer.c asks for, in the C locale, and the loops
-- `while (class(line[i])) i++`.
use open_scm.Prelude.{
  ℕ, ◌≡◌, refl, Bool, true, false, ◌&&◌, ◌||◌, [], ◌∷◌, ◌++◌, arith, leb, ◌==◌, if◌then◌else◌,
  get_or,
}
use open_scm.Prelude.Text.{Text}
use open_scm.Prelude.Decimal.{isdigit}

abbrev pub isalpha : ℕ → Bool
isalpha c = leb b'a' c && leb c b'z' || leb b'A' c && leb c b'Z'

abbrev pub isalnum : ℕ → Bool
isalnum c = isdigit c || isalpha c

abbrev pub isxdigit : ℕ → Bool
isxdigit c = isdigit c || (leb b'a' c && leb c b'f' || leb b'A' c && leb c b'F')

-- `line[k]`, which is the terminating zero at the end of the text.
abbrev pub char_at : Text → ℕ → ℕ
char_at s k = get_or s k 0

-- `strchr(chars, c)` and `memchr`, for a character that is not zero.
unfoldable pub has : ℕ → Text → Bool
has c [] = false
has c (x ∷ s) = c == x || has c s

-- The characters at the front that are in the class, and what follows them.
unfoldable pub span : (ℕ → Bool) → Text → Text × Text
span class [] = ([], [])
span class (c ∷ s) =
    let (word, rest) = span class s in if class c then (c ∷ word, rest) else ([], c ∷ s)

abbrev pub is_label_char : ℕ → Bool
is_label_char c = isalnum c || c == b'_'

abbrev pub is_word_start : ℕ → Bool
is_word_start c = isalnum c || (c == b'_' || (c == b'-' || (c == b'#' || c == b'$')))

abbrev pub is_word_char : ℕ → Bool
is_word_char c =
    isalnum c
    || (c == b'_' || (c == b'-' || (c == b'#' || (c == b'.' || (c == b'$' || c == b'@')))))

-- A text whose first character is not in the class.
abbrev pub StopsAt : (ℕ → Bool) → Text → Type 0
StopsAt class [] = Unit
StopsAt class (c ∷ s) = class c ≡ false

abbrev pub AllIn : (ℕ → Bool) → Text → Type 0
AllIn class [] = Unit
AllIn class (c ∷ s) = (class c ≡ true) × AllIn class s

-- The two parts of `span` make up the text.
pub span-append : (class : ℕ → Bool) (s : Text) → (span class s).0 ++ (span class s).1 ≡ s
unfolding span
span-append class [] = refl
span-append class (c ∷ s) = ground (arith, span-append class s)

-- Characters of the class before a text that begins with another are what `span` takes.
pub span-AllIn :
    (class : ℕ → Bool) (word rest : Text)
    → AllIn class word
    → StopsAt class rest
    → span class (word ++ rest) ≡ (word, rest)
unfolding span
span-AllIn class [] [] h k = refl
span-AllIn class [] (c ∷ rest) h k = rw k
span-AllIn class (c ∷ word) rest h k = rw (h.0, span-AllIn class word rest h.1 k)
