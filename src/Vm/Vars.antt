-- ===== src/Vm/Vars.antt =====
-- The variables of vm/vm.c: a table of globals, and one of locals for each frame of a call.
pub mod Laws
pub mod Scope
use mathlib.Core.Option
use open_scm.Prelude.{
  ℕ, ◌+◌, Bool, true, false, List, [], ◌∷◌, ◌++◌, Option, none, some, ◌==◌, ltb, length,
  if◌then◌else◌,
}
use open_scm.Prelude.Text.{Text, text_eq}
use open_scm.Vm.{Value, int, Var, CallFrame, Vm, vars_max, local_vars_max}

-- `find_var_in` with `create` off: the value of the first entry of that name.
unfoldable pub find_var_in : List Var → Text → Option Value
find_var_in [] name = none
find_var_in (v ∷ vars) name =
    let rest = find_var_in vars name in if text_eq v.name name then some v.value else rest

-- The first entry of that name gets the value.
unfoldable pub overwrite : List Var → Text → Value → List Var
overwrite [] name x = []
overwrite (v ∷ vars) name x =
    let rest = v ∷ overwrite vars name x in
    if text_eq v.name name then record v { value = x } ∷ vars else rest

-- `find_var_in` with `create` on, and the assignment to what it finds. `none`: the table is full.
unfoldable pub set_var_in : List Var → ℕ → Text → Value → Option (List Var)
unfolding find_var_in overwrite
set_var_in vars max name x = elim (find_var_in vars name) [
  | some _ ↦ some (overwrite vars name x)
  | none ↦
      if ltb (length vars) max then some (vars ++ record { name = name; value = x } ∷ []) else none
]

unfoldable pub is_global_name : Text → Bool
is_global_name [] = false
is_global_name (c ∷ name) = c == b'$'

-- The table that holds the names without a `$`: that of the innermost call, if there is one.
unfoldable pub inner_table : List CallFrame → List Var → List Var
inner_table [] globals = globals
inner_table (frame ∷ frames) globals = frame.locals

-- `find_var` with `create` off.
unfoldable pub find_var : Vm → Text → Option Value
unfolding find_var_in is_global_name inner_table
find_var vm name =
    if is_global_name name
    then find_var_in vm.globals name
    else find_var_in (inner_table vm.calls vm.globals) name

unfoldable pub set_global : Vm → Text → Value → Option Vm
unfolding set_var_in
set_global vm name x =
    Option.map (λ t. record vm { globals = t }) (set_var_in vm.globals vars_max name x)

unfoldable pub set_inner : List CallFrame → Vm → Text → Value → Option Vm
unfolding set_var_in set_global
set_inner [] vm name x = set_global vm name x
set_inner (frame ∷ frames) vm name x =
    Option.map (λ t. record vm { calls = record frame { locals = t } ∷ frames })
      (set_var_in frame.locals local_vars_max name x)

-- `set_var`, for a name that is there. `none`: the variable table is full, and nothing changes.
unfoldable pub set_var : Vm → Text → Value → Option Vm
unfolding set_global set_inner is_global_name
set_var vm name x =
    if is_global_name name then set_global vm name x else set_inner vm.calls vm name x
