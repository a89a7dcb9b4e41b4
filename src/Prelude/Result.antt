-- ===== src/Prelude/Result.antt =====
-- Results of code that stops at its first error.
use open_scm.Prelude.{◌≡◌, ◌≢◌, refl, Bool, true, false}

pub data Result (E A : Type 0) : Type 0 where
  ok : A → Result E A
  err : E → Result E A

module _ {E : Type 0} where
  -- What comes after a step of the code, which an error of that step skips.
  abbrev and_then : {A B : Type 0} → (A → Result E B) → Result E A → Result E B
  and_then next (err reason) = err reason
  and_then next (ok value) = next value

  infixl 5 ◌>>=◌ ◌>>◌
  abbrev pub ◌>>=◌ : {A B : Type 0} → Result E A → (A → Result E B) → Result E B
  step >>= next = and_then next step

  abbrev pub ◌>>◌ : {B : Type 0} → Result E (Unit {0}) → Result E B → Result E B
  step >> rest = and_then (λ _. rest) step

  -- `if (failed) return error`.
  abbrev pub reject_if : Bool → E → Result E (Unit {0})
  reject_if failed reason = elim failed [ true ↦ err reason | false ↦ ok tt ]

  -- The parts of a chain that succeeded.
  pub >>=-eq-ok :
      {A B : Type 0} (step : Result E A) (next : A → Result E B) {final : B}
      → (step >>= next) ≡ ok final
      → (value : A) × (step ≡ ok value) × (next value ≡ ok final)
  >>=-eq-ok (err reason) next done = cc
  >>=-eq-ok (ok value) next done = (value, refl, done)

  pub reject_if-eq-ok :
      (failed : Bool) (reason : E) {u : Unit {0}} → reject_if failed reason ≡ ok u → failed ≡ false
  reject_if-eq-ok false reason passed = refl
  reject_if-eq-ok true reason passed = cc

  pub ok-injective : {A : Type 0} (a b : A) → ◌≡◌ {A = Result E A} (ok a) (ok b) → a ≡ b
  ok-injective a b same = cc

  pub err-ne_ok : {A : Type 0} {e : E} {a : A} → ◌≢◌ {A = Result E A} (err e) (ok a)
  err-ne_ok h = cc
