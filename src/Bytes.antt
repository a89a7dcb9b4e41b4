-- ===== src/Bytes.antt =====
-- Little-endian numbers: `w8`, `w16` and `w32` of compiler/compiler.c and compiler/scmr.c, and
-- the reads `r8`, `r16` and `r32` of vm/vm.c.
pub mod Laws
use open_scm.Prelude.{ℕ, ◌+◌, ◌*◌, ◌/◌, ◌%◌, ◌^◌, List, [], ◌∷◌, get_or}

-- What `fputc` writes of each part is its low byte.
unfoldable pub w8 : ℕ → List ℕ
w8 v = v % 256 ∷ []

unfoldable pub w16 : ℕ → List ℕ
w16 v = v % 256 ∷ v / 2 ^ 8 % 256 ∷ []

unfoldable pub w32 : ℕ → List ℕ
w32 v = v % 256 ∷ v / 2 ^ 8 % 256 ∷ v / 2 ^ 16 % 256 ∷ v / 2 ^ 24 % 256 ∷ []

-- The code holds bytes, so the parts that the source joins by `|` do not overlap.
unfoldable pub r8 : List ℕ → ℕ → ℕ
r8 code pc = get_or code pc 0

unfoldable pub r16 : List ℕ → ℕ → ℕ
unfolding r8
r16 code pc = r8 code pc + r8 code (pc + 1) * 2 ^ 8

unfoldable pub r32 : List ℕ → ℕ → ℕ
unfolding r8
r32 code pc =
    r8 code pc + r8 code (pc + 1) * 2 ^ 8 + r8 code (pc + 2) * 2 ^ 16 + r8 code (pc + 3) * 2 ^ 24
