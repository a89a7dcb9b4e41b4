-- ===== src/Runtime/Builtins.antt =====
-- Every function of the built-in modules is reached by its name.
use mathlib.Core.Option
use open_scm.Prelude.{zero, suc, get_elem?, some, ℕ, ◌≡◌, refl, true, List, [], ◌∷◌, ◌++◌, map}
use open_scm.Prelude.Text.{Text, codes}
use open_scm.Vm.{Vm, create, Value}
use open_scm.Vm.Ops.Hosted.{HostReply, Host, module_find, call_native, split_dot, resolve_in}
use open_scm.Vm.Ops.Hosted
use open_scm.Runtime.{
  FunctionEntry, Runtime, empty_registry, register_backend, add_backend, replace_backend,
  select_backend, find_backend, runtime_find, find_from, with_registry, runtime_dispatch, slot_at,
  active_function, find_function,
}
use open_scm.Runtime.Tables.{
  Builtin, k_gpu, k_audio, k_file, k_image, k_net, k_input, k_window, k_console, k_runtime,
  k_system, k_thread,
}
use open_scm.Runtime.Install.{install_builtin_module_registry, register_all, select_all}

-- The machine and the registry at the start.
abbrev pub start : Runtime Builtin
start = record { registry = empty_registry Builtin; vm = create }

-- The registry and the machine after the installation, `runtime_dispatch` being at address 1.
abbrev pub installed : Runtime Builtin
installed = (install_builtin_module_registry 1 start).1

installs : (install_builtin_module_registry 1 start).0 ≡ true
unfolding install_builtin_module_registry register_all select_all register_backend add_backend
    replace_backend select_backend find_backend runtime_find find_from create Hosted.register_module
    module_find
installs = refl

cons-injective :
    {A : Type 0} (x y : A) (xs ys : List A)
    → ◌≡◌ {A = List A} (x ∷ xs) (y ∷ ys)
    → (x ≡ y) × (xs ≡ ys)
cons-injective x y xs ys h = (cc, cc)

-- The modules and their functions.
abbrev pub module_tables : List (Text × List (FunctionEntry Builtin))
module_tables =
    (codes "gpu", k_gpu)
    ∷ (codes "audio", k_audio)
    ∷ (codes "file", k_file)
    ∷ (codes "image", k_image)
    ∷ (codes "net", k_net)
    ∷ (codes "input", k_input)
    ∷ (codes "console", k_console)
    ∷ (codes "runtime", k_runtime)
    ∷ (codes "system", k_system)
    ∷ (codes "thread", k_thread)
    ∷ (codes "window", k_window)
    ∷ []

module _ (call : Builtin → ℕ → Vm → List Value → HostReply) (host : Host) (args : List Value) where
  abbrev called : Text → FunctionEntry Builtin → HostReply
  called name x =
      call_native (with_registry Builtin call 1 installed.registry host) installed.vm
        (name ++ b'.' ∷ x.name) args

  abbrev answered : FunctionEntry Builtin → HostReply
  answered x = call x.fn 0 installed.vm args

  -- The two agree on all functions of the modules.
  abbrev Agree : List (Text × List (FunctionEntry Builtin)) → Type 0
  Agree [] = Unit
  Agree ((name, functions) ∷ tables) =
      (map (called name) functions ≡ map answered functions) × Agree tables

  agree : Agree module_tables
  unfolding install_builtin_module_registry register_all select_all register_backend add_backend
      replace_backend select_backend find_backend runtime_find find_from create
      Hosted.register_module module_find call_native split_dot resolve_in runtime_dispatch slot_at
      active_function find_function
  agree = (refl, (refl, (refl, (refl, (refl, (refl, (refl, (refl, (refl, (refl, (refl, tt)))))))))))

  map-at :
      (functions : List (FunctionEntry Builtin)) (k : ℕ) (name : Text) (x : FunctionEntry Builtin)
      → map (called name) functions ≡ map answered functions
      → get_elem? functions k ≡ some x
      → called name x ≡ answered x
  map-at [] k name x h e = cc
  map-at (y ∷ functions) zero name x h e =
      rw (← Option.some-injective _ _ e) (cons-injective _ _ _ _ h).0
  map-at (y ∷ functions) (suc k) name x h e =
      map-at functions k name x (cons-injective _ _ _ _ h).1 e

  Agree-at :
      (tables : List (Text × List (FunctionEntry Builtin))) (i k : ℕ) (name : Text)
      (functions : List (FunctionEntry Builtin)) (x : FunctionEntry Builtin)
      → Agree tables
      → get_elem? tables i ≡ some (name, functions)
      → get_elem? functions k ≡ some x
      → called name x ≡ answered x
  Agree-at [] i k name functions x h e e' = cc
  Agree-at (t ∷ tables) zero k name functions x h e e' =
      let same = Option.some-injective t (name, functions) e in
      map-at functions k name x (rw same at h.0) e'
  Agree-at (t ∷ tables) (suc i) k name functions x h e e' =
      Agree-at tables i k name functions x h.1 e e'

  -- The installation of the built-in modules into an empty registry and a new machine succeeds,
  -- and a native call of any function of their tables runs that function, `runtime_dispatch`
  -- being at address 1.
  pub call_native-install_builtin_module_registry :
      (i k : ℕ) (name : Text) (functions : List (FunctionEntry Builtin)) (x : FunctionEntry Builtin)
      → get_elem? module_tables i ≡ some (name, functions)
      → get_elem? functions k ≡ some x
      → ((install_builtin_module_registry 1 start).0 ≡ true)
        × (call_native
              (with_registry Builtin call 1 installed.registry host)
              installed.vm
              (name ++ b'.' ∷ x.name)
              args
            ≡ call x.fn 0 installed.vm args)
  call_native-install_builtin_module_registry i k name functions x e e' =
      (installs, Agree-at module_tables i k name functions x agree e e')
