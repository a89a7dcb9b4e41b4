-- ===== src/Vm/Vars/Scope.antt =====
-- Which table a name belongs to: `$` names are global, and the others belong to the innermost call.
use open_scm.Prelude.{◌≡◌, refl, List, [], ◌∷◌, some, arith, if◌then◌else◌, Option-cases, inl, inr}
use open_scm.Prelude.Text.{Text, text_eq, text_eq_iff}
use open_scm.Vm.{Value, CallFrame, Vm, vars_max, local_vars_max}
use open_scm.Vm.Vars.{
  find_var_in, set_var_in, inner_table, find_var, set_global, set_inner, set_var,
}
use open_scm.Vm.Vars.Laws.{find_var_in-set_var_in}

-- A write to the globals.
module _ (vm : Vm) (name other : Text) (x : Value) {vm' : Vm} where
  set_global_effect :
      set_global vm name x ≡ some vm'
      → (vm'.calls ≡ vm.calls)
        × (find_var_in vm'.globals other
            ≡ (if text_eq name other then some x else find_var_in vm.globals other))
  unfolding set_global
  set_global_effect h = elim (Option-cases (set_var_in vm.globals vars_max name x)) [
    | inl full ↦ ground arith
    | inr (t, made) ↦ ground (arith, find_var_in-set_var_in vm.globals vars_max name other x t made)
  ]

  set_frame_effect :
      (frame : CallFrame) (frames : List CallFrame)
      → set_inner (frame ∷ frames) vm name x ≡ some vm'
      → (vm'.globals ≡ vm.globals)
        × (find_var_in (inner_table vm'.calls vm'.globals) other
            ≡ (if text_eq name other then some x else find_var_in frame.locals other))
  unfolding set_inner inner_table
  set_frame_effect frame frames h =
      elim (Option-cases (set_var_in frame.locals local_vars_max name x)) [
        | inl full ↦ ground arith
        | inr (t, made) ↦
            ground (arith, find_var_in-set_var_in frame.locals local_vars_max name other x t made)
      ]

-- A variable that has been set is read back, and every other name reads as before.
find_var-set_var_at :
    (frames : List CallFrame) (vm : Vm) (name other : Text) (x : Value) (vm' : Vm)
    → vm.calls ≡ frames
    → set_var vm name x ≡ some vm'
    → find_var vm' other ≡ (if text_eq name other then some x else find_var vm other)
unfolding find_var set_var inner_table set_inner
find_var-set_var_at [] vm name other x vm' c h =
    ground (arith, text_eq_iff name other, set_global_effect vm name other x {vm' = vm'})
find_var-set_var_at (frame ∷ frames) vm name other x vm' c h = ground (
  arith,
  text_eq_iff name other,
  set_global_effect vm name other x {vm' = vm'},
  set_frame_effect vm name other x {vm' = vm'} frame frames,
)

-- A variable that has been set is read back, and every other name reads as before, whichever of
-- the tables the two names belong to.
pub find_var-set_var :
    (vm : Vm) (name other : Text) (x : Value) {vm' : Vm}
    → set_var vm name x ≡ some vm'
    → find_var vm' other ≡ (if text_eq name other then some x else find_var vm other)
find_var-set_var vm name other x {vm'} h = find_var-set_var_at vm.calls vm name other x vm' refl h
