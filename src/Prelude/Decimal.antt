-- ===== src/Prelude/Decimal.antt =====
-- The two conversions between integers and decimal text that the machine takes from the C library:
-- `printf("%d")` and `atoi`.
use open_scm.Prelude.{
  ℕ, zero, suc, ◌+◌, ◌-◌, ◌*◌, ◌/◌, ◌%◌, ◌^◌, ◌≤◌, ◌<◌, ◌≡◌, refl, Bool, ◌&&◌, ◌||◌, [], ◌∷◌, ◌++◌,
  arith, ltb, leb, ◌==◌, if◌then◌else◌, min, Bool-cases, inl, inr,
}
use native.Mathlib.Nat.{pow-suc}
use open_scm.Prelude.Text.{Text}
use open_scm.Prelude.Word.{is_neg}

-- `isspace` and `isdigit` in the C locale.
abbrev pub isspace : ℕ → Bool
isspace c = c == b' ' || leb 9 c && leb c 13

abbrev pub isdigit : ℕ → Bool
isdigit c = leb b'0' c && leb c b'9'

unfoldable pub decimal_digits : ℕ → ℕ → Text
decimal_digits zero n = []
decimal_digits (suc f) n =
    let more = decimal_digits f (n / 10) ++ (b'0' + n % 10) ∷ [] in
    if ltb n 10 then (b'0' + n) ∷ [] else more

-- "%u" of a number below 10 ^ 20.
unfoldable pub print_nat : ℕ → Text
unfolding decimal_digits
print_nat n = decimal_digits 20 n

-- "%d" of an `int32_t`.
unfoldable pub print_int : ℕ → Text
print_int w = if is_neg w then b'-' ∷ print_nat (2 ^ 32 - w) else print_nat w

unfoldable pub skip_spaces : Text → Text
skip_spaces [] = []
skip_spaces (c ∷ s) = let rest = skip_spaces s in if isspace c then rest else c ∷ s

-- The value of the digits at the front, after those that gave `acc`.
unfoldable pub read_digits : ℕ → Text → ℕ
read_digits acc [] = acc
read_digits acc (c ∷ s) =
    let more = read_digits (acc * 10 + (c - b'0')) s in if isdigit c then more else acc

-- `(int)strtol(s, NULL, 10)` after the spaces, as the 64-bit C library has it: the `long` stops at
-- its ends, and the cast keeps the low 32 bits.
unfoldable pub read_signed : Text → ℕ
unfolding read_digits
read_signed [] = 0
read_signed (c ∷ s) =
    if c == b'-'
    then (2 ^ 64 - min (read_digits 0 s) (2 ^ 63)) % 2 ^ 32
    else if c == b'+'
    then min (read_digits 0 s) (2 ^ 63 - 1) % 2 ^ 32
    else min (read_digits 0 (c ∷ s)) (2 ^ 63 - 1) % 2 ^ 32

unfoldable pub atoi : Text → ℕ
unfolding skip_spaces read_signed
atoi s = read_signed (skip_spaces s)

-- All bytes are decimal digits.
abbrev AllDigits : Text → Type 0
AllDigits [] = Unit
AllDigits (c ∷ s) = (b'0' ≤ c) × (c ≤ b'9') × AllDigits s

read_digits-append :
    (acc : ℕ) (s t : Text)
    → AllDigits s
    → read_digits acc (s ++ t) ≡ read_digits (read_digits acc s) t
unfolding read_digits
read_digits-append acc [] t h = refl
read_digits-append acc (c ∷ s) t h =
    ground (arith, read_digits-append (acc * 10 + (c - b'0')) s t h.2)

AllDigits-append : (s t : Text) → AllDigits s → AllDigits t → AllDigits (s ++ t)
AllDigits-append [] t h k = k
AllDigits-append (c ∷ s) t h k = (h.0, h.1, AllDigits-append s t h.2 k)

decimal_digits-AllDigits : (f n : ℕ) → AllDigits (decimal_digits f n)
unfolding decimal_digits
decimal_digits-AllDigits zero n = tt
decimal_digits-AllDigits (suc f) n = ground (
  arith,
  AllDigits-append (decimal_digits f (n / 10)) ((b'0' + n % 10) ∷ [])
      (decimal_digits-AllDigits f (n / 10)) (omega arith, omega arith, tt),
)

read_digits-nil : (acc : ℕ) → read_digits acc [] ≡ acc
unfolding read_digits
read_digits-nil acc = refl

-- One more digit.
read_digits-one : (acc d : ℕ) → d < 10 → read_digits acc ((b'0' + d) ∷ []) ≡ acc * 10 + d
unfolding read_digits
read_digits-one acc d h = ground arith

read_digits-decimal_digits : (f n : ℕ) → n < 10 ^ f → read_digits 0 (decimal_digits f n) ≡ n
unfolding decimal_digits
read_digits-decimal_digits zero n h = rw (let e : n ≡ 0 = omega arith in e) (read_digits-nil 0)
read_digits-decimal_digits (suc f) n h = ground (
  arith,
  read_digits-one 0 n,
  read_digits-one (n / 10) (n % 10),
  pow-suc 10 f,
  read_digits-append 0 (decimal_digits f (n / 10)) ((b'0' + n % 10) ∷ [])
      (decimal_digits-AllDigits f (n / 10)),
  read_digits-decimal_digits f (n / 10),
)

read_digits-print_nat : (n : ℕ) → n < 10 ^ 20 → read_digits 0 (print_nat n) ≡ n
unfolding print_nat
read_digits-print_nat n h = read_digits-decimal_digits 20 n h

-- Text that begins with a digit is read from its first byte on.
-- Text that begins with a digit is read from its first byte on.
atoi-digits : (s : Text) → AllDigits s → atoi s ≡ min (read_digits 0 s) (2 ^ 63 - 1) % 2 ^ 32
unfolding atoi skip_spaces read_signed
atoi-digits [] h = refl
atoi-digits (c ∷ s) h = ground arith

atoi-minus : (s : Text) → atoi (b'-' ∷ s) ≡ (2 ^ 64 - min (read_digits 0 s) (2 ^ 63)) % 2 ^ 32
unfolding atoi skip_spaces read_signed
atoi-minus s = refl

print_nat-AllDigits : (n : ℕ) → AllDigits (print_nat n)
unfolding print_nat
print_nat-AllDigits n = decimal_digits-AllDigits 20 n

-- An integer that is printed by "%d" is read back by `atoi`.
pub atoi-print_int : (w : ℕ) → w < 2 ^ 32 → atoi (print_int w) ≡ w
unfolding print_int
atoi-print_int w h = elim (Bool-cases (is_neg w)) [
  | inl e ↦ rw (e, atoi-minus, read_digits-print_nat (2 ^ 32 - w) (omega arith)) (ground arith)
  | inr e ↦
      rw
        (
          e,
          atoi-digits (print_nat w) (print_nat-AllDigits w),
          read_digits-print_nat w (omega arith),
        )
        (ground arith)
]
