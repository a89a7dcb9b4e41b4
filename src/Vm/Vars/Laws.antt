-- ===== src/Vm/Vars/Laws.antt =====
-- What reading a variable gives after a write.
use open_scm.Prelude.{
  ℕ, ◌≤◌, ◌≡◌, refl, List, [], ◌∷◌, ◌++◌, none, some, arith, if◌then◌else◌, length, Option-cases,
  inl, inr, length-append,
}
use open_scm.Prelude.Text.{Text, text_eq, text_eq_iff}
use open_scm.Vm.{Value, Var}
use open_scm.Vm.Vars.{find_var_in, overwrite, set_var_in}

find_var_in-overwrite :
    (vars : List Var) (name other : Text) (x old : Value)
    → find_var_in vars name ≡ some old
    → find_var_in (overwrite vars name x) other
      ≡ (if text_eq name other then some x else find_var_in vars other)
unfolding find_var_in overwrite
find_var_in-overwrite [] name other x old h = ground arith
find_var_in-overwrite (v ∷ vars) name other x old h = ground (
  arith,
  text_eq_iff v.name name,
  text_eq_iff v.name other,
  text_eq_iff name other,
  find_var_in-overwrite vars name other x old,
)

find_var_in-append :
    (vars : List Var) (name other : Text) (x : Value)
    → find_var_in vars name ≡ none
    → find_var_in (vars ++ record { name = name; value = x } ∷ []) other
      ≡ (if text_eq name other then some x else find_var_in vars other)
unfolding find_var_in
find_var_in-append [] name other x h = ground arith
find_var_in-append (v ∷ vars) name other x h = ground (
  arith,
  text_eq_iff v.name name,
  text_eq_iff v.name other,
  text_eq_iff name other,
  find_var_in-append vars name other x,
)

-- A write to a table is read back under its name, and changes nothing under another name.
pub find_var_in-set_var_in :
    (vars : List Var) (max : ℕ) (name other : Text) (x : Value) (vars' : List Var)
    → set_var_in vars max name x ≡ some vars'
    → find_var_in vars' other ≡ (if text_eq name other then some x else find_var_in vars other)
unfolding set_var_in
find_var_in-set_var_in vars max name other x vars' h = elim (Option-cases (find_var_in vars name)) [
  | inl fresh ↦ ground (arith, find_var_in-append vars name other x fresh)
  | inr (old, there) ↦ ground (arith, find_var_in-overwrite vars name other x old there)
]

length-overwrite :
    (vars : List Var) (name : Text) (x : Value) → length (overwrite vars name x) ≡ length vars
unfolding overwrite
length-overwrite [] name x = refl
length-overwrite (v ∷ vars) name x = ground (arith, length-overwrite vars name x)

-- A write to a table of variables that fits into its array leaves one that fits.
pub length-set_var_in :
    (vars : List Var) (max : ℕ) (name : Text) (x : Value) (vars' : List Var)
    → length vars ≤ max
    → set_var_in vars max name x ≡ some vars'
    → length vars' ≤ max
unfolding set_var_in
length-set_var_in vars max name x vars' fits h = ground (
  arith,
  length-overwrite vars name x,
  length-append vars (record { name = name; value = x } ∷ []),
)

-- A write to a table of variables fails only if the name is not there and the table is full.
pub set_var_in-none :
    (vars : List Var) (max : ℕ) (name : Text) (x : Value)
    → set_var_in vars max name x ≡ none
    → (find_var_in vars name ≡ none) × (max ≤ length vars)
unfolding set_var_in
set_var_in-none vars max name x h = ground arith
