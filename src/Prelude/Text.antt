-- ===== src/Prelude/Text.antt =====
-- C strings: lists of non-zero bytes. `strcmp` and the conversions between a literal and its bytes.
use Prim.Native.Char.{code}
use Prim.Native.String.{String}
use open_scm.Prelude.{
  ℕ, ◌≡◌, refl, ◌↔◌, ◌<◌, Bool, true, false, ◌&&◌, List, [], ◌∷◌, arith, ltb, ◌==◌, if◌then◌else◌,
}

-- The bytes of a string, without the terminating zero.
abbrev pub Text : Type 0
Text = List ℕ

-- The bytes of an ASCII literal.
abbrev pub codes : String → Text
codes String.[] = []
codes (String.◌∷◌ c s) = code c ∷ codes s

-- `strcmp(a, b) == 0`.
abbrev pub text_eq : Text → Text → Bool
text_eq [] [] = true
text_eq [] (y ∷ b) = false
text_eq (x ∷ a) [] = false
text_eq (x ∷ a) (y ∷ b) = x == y && text_eq a b

pub text_eq→eq : (a b : Text) → text_eq a b ≡ true → a ≡ b
text_eq→eq [] [] h = refl
text_eq→eq [] (y ∷ b) h = ground arith
text_eq→eq (x ∷ a) [] h = ground arith
text_eq→eq (x ∷ a) (y ∷ b) h = ground (arith, text_eq→eq a b)

pub text_eq_refl : (a : Text) → text_eq a a ≡ true
text_eq_refl [] = refl
text_eq_refl (x ∷ a) = ground (arith, text_eq_refl a)

pub text_eq_iff : (a b : Text) → (text_eq a b ≡ true) ↔ (a ≡ b)
text_eq_iff a b = (text_eq→eq a b, λ e. rw e (text_eq_refl b))

-- The sign of `strcmp(a, b)`, by unsigned bytes.
pub data Sign : Type 0 where
  less same more : Sign

unfoldable pub strcmp : Text → Text → Sign
strcmp [] [] = same
strcmp [] (y ∷ b) = less
strcmp (x ∷ a) [] = more
strcmp (x ∷ a) (y ∷ b) =
    let rest = strcmp a b in if x == y then rest else if ltb x y then less else more

-- What a `char *` to these bytes reads as: all before the first zero.
unfoldable pub c_string : List ℕ → Text
c_string [] = []
c_string (x ∷ xs) = elim (x == 0) [ true ↦ [] | false ↦ x ∷ c_string xs ]

-- No zero byte: the bytes are a C string.
abbrev pub IsCString : Text → Type 0
IsCString [] = Unit
IsCString (x ∷ xs) = (0 < x) × IsCString xs

pub c_string_id : (s : Text) → IsCString s → c_string s ≡ s
unfolding c_string
c_string_id [] h = refl
c_string_id (x ∷ xs) h = ground (arith, c_string_id xs h.1)
