-- ===== src/Vm/Api.antt =====
-- The interface of vm/vm.h through which a host program reads and writes the machine. A null
-- pointer for the machine or for a name is not modelled.
use mathlib.Core.Option
use open_scm.Prelude.{ℕ, ◌||◌, List, [], ◌∷◌, Option, none, some, ◌==◌, if◌then◌else◌}
use open_scm.Prelude.Text.{Text, text_eq}
use open_scm.Vm.{Value, LabelEntry, Vm}
use open_scm.Vm.Floats.{FloatOps}
use open_scm.Vm.Values.{value_to_int, value_to_float}
use open_scm.Vm.Vars.{find_var, set_var}
use open_scm.Vm.Outcome.{current_line}

-- `none` is a return of 0.
unfoldable pub set_int : Vm → Text → ℕ → Option Vm
set_int vm name x = set_var vm name (Value.int x)

unfoldable pub set_float : Vm → Text → ℕ → Option Vm
set_float vm name x = set_var vm name (Value.float x)

unfoldable pub set_string : Vm → Text → Text → Option Vm
set_string vm name x = set_var vm name (Value.string x)

unfoldable pub get_int : FloatOps → Vm → Text → Option ℕ
get_int fl vm name = Option.map (λ v. value_to_int fl v) (find_var vm name)

unfoldable pub get_float : FloatOps → Vm → Text → Option ℕ
get_float fl vm name = Option.map (λ v. value_to_float fl v) (find_var vm name)

-- `scml_vm_current_line`.
unfoldable pub vm_current_line : Vm → ℕ
vm_current_line vm = current_line vm vm.pc

-- A label is asked for by its name, with or without the sign in front.
unfoldable pub strip_sign : Text → Text
strip_sign [] = []
strip_sign (c ∷ s) = if c == b'@' || c == b':' then s else c ∷ s

-- The loop of `scml_vm_find_label`.
unfoldable pub find_entry : List LabelEntry → Text → Option ℕ
find_entry [] name = none
find_entry (l ∷ labels) name =
    let rest = find_entry labels name in if text_eq l.name name then some l.pc else rest

unfoldable pub vm_find_label : Vm → Text → Option ℕ
vm_find_label vm label = find_entry vm.labels (strip_sign label)
