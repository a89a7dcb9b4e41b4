-- ===== src/Bytes/Laws.antt =====
-- A number that is written can be read back, wherever it stands.
use open_scm.Prelude.{get_or-append, ℕ, ◌+◌, ◌^◌, ◌<◌, ◌≡◌, refl, List, ◌++◌, arith, get_or, length}
use open_scm.Bytes.{w8, w16, w32, r8, r16, r32}

-- The byte at the front of what follows `pre`, and one `i` places further on.
pub r8_at : (pre rest : List ℕ) (pc : ℕ) → pc ≡ length pre → r8 (pre ++ rest) pc ≡ get_or rest 0 0
unfolding r8
r8_at pre rest pc e = get_or-append pre rest 0 pc 0 (omega arith)

pub get_at :
    (pre rest : List ℕ) (i pc : ℕ) → pc ≡ length pre → r8 (pre ++ rest) (pc + i) ≡ get_or rest i 0
unfolding r8
get_at pre rest i pc e = get_or-append pre rest i (pc + i) 0 (omega arith)

pub r16_at :
    (pre rest : List ℕ) (v pc : ℕ)
    → pc ≡ length pre
    → v < 2 ^ 16
    → r16 (pre ++ (w16 v ++ rest)) pc ≡ v
unfolding r16 w16
r16_at pre rest v pc e h =
    omega (arith, r8_at pre (w16 v ++ rest) pc e, get_at pre (w16 v ++ rest) 1 pc e)

pub r32_at :
    (pre rest : List ℕ) (v pc : ℕ)
    → pc ≡ length pre
    → v < 2 ^ 32
    → r32 (pre ++ (w32 v ++ rest)) pc ≡ v
unfolding r32 w32
r32_at pre rest v pc e h = omega (
  arith,
  r8_at pre (w32 v ++ rest) pc e,
  get_at pre (w32 v ++ rest) 1 pc e,
  get_at pre (w32 v ++ rest) 2 pc e,
  get_at pre (w32 v ++ rest) 3 pc e,
)

module _ (v : ℕ) (rest : List ℕ) where
  pub length-w8 : length (w8 v ++ rest) ≡ 1 + length rest
  unfolding w8
  length-w8 = omega arith

  pub length-w16 : length (w16 v ++ rest) ≡ 2 + length rest
  unfolding w16
  length-w16 = omega arith

  pub length-w32 : length (w32 v ++ rest) ≡ 4 + length rest
  unfolding w32
  length-w32 = omega arith

pub length-w32_alone : (v : ℕ) → length (w32 v) ≡ 4
unfolding w32
length-w32_alone v = refl

pub length-w16_alone : (v : ℕ) → length (w16 v) ≡ 2
unfolding w16
length-w16_alone v = refl
