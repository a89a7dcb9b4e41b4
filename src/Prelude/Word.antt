-- ===== src/Prelude/Word.antt =====
-- `int32_t` as its bit pattern, a number below 2 ^ 32, so that a cast to `uint32_t` changes nothing.
-- Sums, differences and products wrap round; where C leaves a signed overflow undefined this is
-- the two's complement result.
use Prim.Native.Nat.{bit_and, bit_or, bit_xor}
use open_scm.Prelude.{ℕ, ◌+◌, ◌-◌, ◌*◌, ◌/◌, ◌%◌, ◌^◌, Bool, ltb, leb, if◌then◌else◌}

abbrev pub u32_mod : ℕ
u32_mod = 2 ^ 32

abbrev pub is_neg : ℕ → Bool
is_neg w = leb (2 ^ 31) w

abbrev pub add32 : ℕ → ℕ → ℕ
add32 a b = (a + b) % 2 ^ 32

abbrev pub sub32 : ℕ → ℕ → ℕ
sub32 a b = (a + 2 ^ 32 - b) % 2 ^ 32

abbrev pub mul32 : ℕ → ℕ → ℕ
mul32 a b = a * b % 2 ^ 32

abbrev pub neg32 : ℕ → ℕ
neg32 w = (2 ^ 32 - w) % 2 ^ 32

abbrev pub magnitude : ℕ → ℕ
magnitude w = if is_neg w then 2 ^ 32 - w else w

-- x / y and x % y for y ≢ 0, rounded towards zero. `INT_MIN / -1` is not asked for.
abbrev pub div32 : ℕ → ℕ → ℕ
div32 a b =
    let q = magnitude a / magnitude b in
    if is_neg a then (if is_neg b then q else neg32 q) else if is_neg b then neg32 q else q

abbrev pub mod32 : ℕ → ℕ → ℕ
mod32 a b = let r = magnitude a % magnitude b in if is_neg a then neg32 r else r

-- `a < b` on the signed values.
abbrev pub slt : ℕ → ℕ → Bool
slt a b = ltb (add32 a (2 ^ 31)) (add32 b (2 ^ 31))

-- `(size_t)a`: sign extension to 64 bits.
abbrev pub to_size : ℕ → ℕ
to_size w = if is_neg w then w + 2 ^ 64 - 2 ^ 32 else w

abbrev pub not32 : ℕ → ℕ
not32 w = 2 ^ 32 - 1 - w

abbrev pub and32 : ℕ → ℕ → ℕ
and32 = bit_and

abbrev pub or32 : ℕ → ℕ → ℕ
or32 = bit_or

abbrev pub xor32 : ℕ → ℕ → ℕ
xor32 = bit_xor

-- `x << k` and the arithmetic `x >> k`, for k below 31.
abbrev pub shl32 : ℕ → ℕ → ℕ
shl32 w k = w * 2 ^ k % 2 ^ 32

abbrev pub shr32 : ℕ → ℕ → ℕ
shr32 w k = if is_neg w then 2 ^ 32 - 1 - (2 ^ 32 - 1 - w) / 2 ^ k else w / 2 ^ k
