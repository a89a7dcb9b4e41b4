-- ===== src/Lexer/Tokens.antt =====
-- The types of lexer/lexer.h: the tokens of a line, and the errors of `scml_lex_line`.
use open_scm.Prelude.{ℕ}
use open_scm.Prelude.Text.{Text}

pub data TokenType : Type 0 where
  eof identifier number_token string_token label_ref colon comma : TokenType

-- `column` counts from 1.
pub record Token : Type 0 where
  pub type : TokenType
  pub text : Text
  pub line : ℕ
  pub column : ℕ

-- `out_of_fuel` is the model's own: a loop that was given too few rounds.
pub data LexError : Type 0 where
  empty_label string_too_long unterminated out_of_fuel : LexError
  unexpected : ℕ → ℕ → LexError
