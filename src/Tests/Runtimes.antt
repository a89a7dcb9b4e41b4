-- ===== src/Tests/Runtimes.antt =====
-- The registry of runtime modules on concrete inputs.
use open_scm.Prelude.{
  ℕ, suc, ◌≡◌, ◌≢◌, refl, true, List, [], ◌∷◌, ◌++◌, some, none, arith, length, ◌<◌,
}
use open_scm.Prelude.Text.{codes}
use open_scm.Vm.{Value, Vm, create, native_modules_max}
use open_scm.Vm.Ops.Hosted.{HostReply, call_native, no_reply, split_dot, module_find}
use open_scm.Runtime.{
  FunctionEntry, Backend, Runtime, empty_registry, new_module, runtime_find, find_function,
  with_registry, register_backend, register_module, unregister_module, runtime_dispatch,
}
use open_scm.Runtime.Reach.{IsCall, call_native-register_backend, call_native-register_module}
use open_scm.Runtime.Shift.{shifted, runtime_dispatch-unregister_module}
use open_scm.Runtime.Tables.{Builtin, k_console, rt_console_write}
use open_scm.Runtime.Install.{install_builtin_module_registry}
use open_scm.Runtime.Builtins.{start, installed, call_native-install_builtin_module_registry}
use open_scm.Vm.Decode.{DecOp}
use open_scm.Vm.Ops.{eval}
use open_scm.Vm.Ops.Console.{
  exec_console_color, exec_console_move, exec_console_style, exec_console_clear, exec_console_reset,
  exec_console_erase_line,
}
use open_scm.Runtime.Console.{
  Same, console_color, console_move, console_style, console_clear, console_reset,
  console_erase_line, console-Same,
}
use open_scm.Tests.Machine.{stopping_host, whole_floats}

-- Every function returns its number.
abbrev numbers : ℕ → ℕ → Vm → List Value → HostReply
numbers fn user vm args = record { success = true; ret = Value.int fn; vm = vm }

abbrev fresh : Runtime ℕ
fresh = record { registry = empty_registry ℕ; vm = create }

abbrev draw : FunctionEntry ℕ
draw = record { name = codes "draw"; fn = 7 }

abbrev drawing : Backend ℕ
drawing = record { name = codes "default"; functions = draw ∷ []; user_data = 5 }

gfx-IsCall : IsCall (codes "gfx.draw") (codes "gfx") (codes "draw")
unfolding split_dot
gfx-IsCall = record { parts = refl; named = refl; asked = refl; short = omega arith }

one-ne : ◌≢◌ {A = ℕ} 1 0
one-ne e = omega (arith, e)

gfx-fresh : runtime_find ℕ fresh.registry (codes "gfx") ≡ none
unfolding runtime_find
gfx-fresh = refl

gfx-alone : module_find fresh.vm.modules (codes "gfx") ≡ none
unfolding module_find create
gfx-alone = refl

create-room : length create.modules < native_modules_max
unfolding create
create-room = omega arith

draw-found : find_function ℕ drawing.functions (codes "draw") ≡ some 7
unfolding find_function
draw-found = refl

call_native-register_backend_example :
    (s' : Runtime ℕ) × (register_backend ℕ 1 fresh (codes "gfx") drawing ≡ (true, s'))
    × (call_native (with_registry ℕ numbers 1 s'.registry stopping_host) s'.vm (codes "gfx.draw") []
        ≡ numbers 7 5 s'.vm [])
call_native-register_backend_example =
    call_native-register_backend ℕ numbers stopping_host 1 fresh (codes "gfx.draw") (codes "gfx")
      (codes "draw") drawing 7 [] one-ne gfx-IsCall gfx-fresh gfx-alone (omega arith) refl
      create-room draw-found

call_native-register_module_example :
    (s' : Runtime ℕ) × (register_module ℕ 1 fresh (codes "gfx") (draw ∷ []) 5 ≡ (true, s'))
    × (runtime_find ℕ s'.registry (codes "gfx") ≡ some 0)
    × (s'.vm ≡ fresh.vm)
    × (call_native (with_registry ℕ numbers 1 s'.registry stopping_host) s'.vm (codes "gfx.draw") []
        ≡ no_reply fresh.vm)
call_native-register_module_example =
    call_native-register_module ℕ numbers stopping_host 1 fresh (codes "gfx.draw") (codes "gfx")
      (codes "draw") draw [] 5 [] gfx-IsCall gfx-fresh gfx-alone (omega arith) refl

-- Three modules, of which the first is removed.
abbrev three : Runtime ℕ
three = record {
  registry = record {
    slots =
        new_module ℕ (codes "a")
        ∷ record { name = codes "b"; backends = drawing ∷ []; active = 0 }
        ∷ new_module ℕ (codes "c")
        ∷ [];
    count = 3;
  };
  vm = create;
}

a-found : runtime_find ℕ three.registry (codes "a") ≡ some 0
unfolding runtime_find
a-found = refl

runtime_dispatch-unregister_module_example :
    runtime_dispatch ℕ numbers
      (unregister_module ℕ three (codes "a")).1.registry
      (suc 0)
      create
      (codes "draw")
      []
    ≡ runtime_dispatch ℕ numbers three.registry (suc (shifted 3 0 0)) create (codes "draw") []
runtime_dispatch-unregister_module_example =
    runtime_dispatch-unregister_module ℕ numbers three 0 0 (codes "a") (codes "draw") create []
      a-found (omega arith)

abbrev silent : Builtin → ℕ → Vm → List Value → HostReply
silent fn user vm args = record { success = true; ret = Value.int 0; vm = vm }

call_native-install_builtin_module_registry_example :
    ((install_builtin_module_registry 1 start).0 ≡ true)
    × (call_native
          (with_registry Builtin silent 1 installed.registry stopping_host)
          installed.vm
          (codes "console" ++ b'.' ∷ codes "write")
          []
        ≡ silent rt_console_write 0 installed.vm [])
call_native-install_builtin_module_registry_example =
    call_native-install_builtin_module_registry silent stopping_host [] 6 0 (codes "console")
      k_console (record { name = codes "write"; fn = rt_console_write }) refl refl

abbrev seven : DecOp
seven = DecOp.int 7

abbrev three_hundred : DecOp
three_hundred = DecOp.int 300

console-Same_example :
    Same create
      (console_color whole_floats create (eval create seven ∷ eval create three_hundred ∷ []))
      (exec_console_color whole_floats 0 (seven ∷ three_hundred ∷ []) create)
    × Same create
        (console_color whole_floats create (eval create seven ∷ []))
        (exec_console_color whole_floats 0 (seven ∷ []) create)
    × Same create
        (console_move whole_floats create (eval create seven ∷ eval create three_hundred ∷ []))
        (exec_console_move whole_floats 0 (seven ∷ three_hundred ∷ []) create)
    × Same create
        (console_style whole_floats create (eval create seven ∷ []))
        (exec_console_style whole_floats 0 (seven ∷ []) create)
    × Same create
        (console_clear whole_floats create [])
        (exec_console_clear whole_floats 0 [] create)
    × Same create
        (console_reset whole_floats create [])
        (exec_console_reset whole_floats 0 [] create)
    × Same create
        (console_erase_line whole_floats create [])
        (exec_console_erase_line whole_floats 0 [] create)
console-Same_example = console-Same whole_floats 0 create seven three_hundred [] []
