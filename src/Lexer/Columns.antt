-- ===== src/Lexer/Columns.antt =====
-- Where the tokens of a line stand, and what their texts are.
use open_scm.Prelude.{
  ℕ, zero, suc, ◌-◌, ◌≤◌, ◌<◌, ◌≡◌, refl, sym, subst, ◌⊎◌, inl, inr, List, [], ◌∷◌, arith, length,
  none, some, Bool-cases, Option,
}
use open_scm.Prelude.Text.{Text, c_string, IsCString}
use open_scm.Prelude.Result.{ok, >>=-eq-ok, ok-injective, Result}
use open_scm.Lexer.Tokens.{Token, TokenType, LexError}
use open_scm.Lexer.Total.{Progress, round, lex_piece-Progress}
use open_scm.Lexer.{lex_piece, lex_from, lex_line, is_comment, add_token}

-- The tokens stand in the line from left to right after column `low`, and their texts are C
-- strings.
abbrev pub AllPlaced : ℕ → ℕ → ℕ → List Token → Type 0
AllPlaced line_no low total [] = Unit
AllPlaced line_no low total (t ∷ tokens) =
    (t.line ≡ line_no)
    × (low < t.column)
    × (t.column ≤ total)
    × IsCString t.text
    × AllPlaced line_no t.column total tokens

pub c_string-IsCString : (s : List ℕ) → IsCString (c_string s)
unfolding c_string
c_string-IsCString [] = tt
c_string-IsCString (x ∷ s) = ground (arith, c_string-IsCString s)

AllPlaced-lower :
    (line_no low low' total : ℕ) (tokens : List Token)
    → low ≤ low'
    → AllPlaced line_no low' total tokens
    → AllPlaced line_no low total tokens
AllPlaced-lower line_no low low' total [] le h = tt
AllPlaced-lower line_no low low' total (t ∷ tokens) le h =
    (h.0, omega (arith, le, h.1), h.2, h.3, h.4)

add_token-AllPlaced :
    (line_no low col total : ℕ) (token : Option (TokenType × Text)) (tokens : List Token)
    → low < col
    → col ≤ total
    → AllPlaced line_no col total tokens
    → AllPlaced line_no low total (add_token line_no col token tokens)
unfolding add_token
add_token-AllPlaced line_no low col total none tokens lt le h =
    AllPlaced-lower line_no low col total tokens (omega (arith, lt)) h
add_token-AllPlaced line_no low col total (some (type, text)) tokens lt le h =
    (refl, lt, le, c_string-IsCString text, h)

pub Progress-ok :
    {A : Type 0} (n : ℕ) (r : Result LexError (A × Text)) (a : A) (rest : Text)
    → Progress n r
    → r ≡ ok (a, rest)
    → length rest ≤ n
Progress-ok n r a rest h e = subst (λ q. Progress n q) e h

-- A round of the loop that succeeds is the end of the line at a comment, or a piece and the
-- tokens after it.
abbrev Round : ℕ → ℕ → ℕ → ℕ → Text → List Token → Type 0
Round fuel line_no total c s tokens =
    (tokens ≡ [])
    ⊎ ((token : Option (TokenType × Text)) × (rest : Text) × (tokens' : List Token) × (lex_piece
            (suc (total - suc (length s))) c s
          ≡ ok (token, rest))
        × (lex_from fuel line_no total rest ≡ ok tokens')
        × (tokens ≡ add_token line_no (suc (total - suc (length s))) token tokens'))

lex_from-Round :
    (fuel line_no total c : ℕ) (s : Text) (tokens : List Token)
    → lex_from (suc fuel) line_no total (c ∷ s) ≡ ok tokens
    → Round fuel line_no total c s tokens
unfolding lex_from
lex_from-Round fuel line_no total c s tokens h = elim (Bool-cases (is_comment c s)) [
  | inl e ↦
      let done : ◌≡◌ {A = Result LexError (List Token)} (ok []) (ok tokens) =
        rw (e, lex_from) at h in
      inl (sym (ok-injective [] tokens done))
  | inr e ↦
      let col = suc (total - suc (length s)) in
      let chain : round line_no col (lex_piece col c s) (lex_from fuel line_no total) ≡ ok tokens =
        rw (e, lex_from) at h in
      let ((token, rest), first, more) = >>=-eq-ok (lex_piece col c s) _ chain in
      let (tokens', second, last) = >>=-eq-ok (lex_from fuel line_no total rest) _ more in
      inr (token, rest, tokens', first, second, sym (ok-injective _ _ last))
]

lex_from-AllPlaced :
    (fuel line_no total : ℕ) (s : Text) (tokens : List Token)
    → length s ≤ total
    → lex_from fuel line_no total s ≡ ok tokens
    → AllPlaced line_no (total - length s) total tokens
unfolding lex_from
lex_from-AllPlaced fuel line_no total [] tokens le h = rw (← ok-injective _ _ h) tt
lex_from-AllPlaced zero line_no total (c ∷ s) tokens le h = absurd (ground arith)
lex_from-AllPlaced (suc fuel) line_no total (c ∷ s) tokens le h =
    elim (lex_from-Round fuel line_no total c s tokens h) [
      | inl e ↦ rw e tt
      | inr (token, rest, tokens', first, second, last) ↦
          let col = suc (total - suc (length s)) in
          let moved =
            Progress-ok (length s) (lex_piece col c s) token rest (lex_piece-Progress col c s)
              first in
          let there =
            lex_from-AllPlaced fuel line_no total rest tokens' (omega (arith, moved, le)) second in
          rw last (
            add_token-AllPlaced line_no (total - suc (length s)) col total token tokens'
              (omega arith) (omega (arith, le))
              (AllPlaced-lower line_no col (total - length rest) total tokens'
                (omega (arith, moved, le)) there))
    ]

-- The tokens of a line that is read have its line number and stand in it from left to right, in
-- columns from 1 to its length, and their texts are C strings.
pub lex_line-AllPlaced :
    (line : Text) (line_no : ℕ) (tokens : List Token)
    → lex_line line line_no ≡ ok tokens
    → AllPlaced line_no 0 (length line) tokens
unfolding lex_line
lex_line-AllPlaced line line_no tokens h =
    AllPlaced-lower line_no 0 (length line - length line) (length line) tokens (omega arith)
      (lex_from-AllPlaced (length line) line_no (length line) line tokens (omega arith) h)
