-- ===== src/Runtime.antt =====
-- runtime/scml_runtime_modules.c: the registry of runtime modules and their backends, and how the
-- machine's calls reach it. `F` is the type of the pointers to functions; what such a function does
-- is a parameter of the dispatch. A pointer to the slot `i` of the registry is the number `i + 1`,
-- so that 0 is the null pointer; null names are not modelled, and memory is taken to be there.
pub mod Reach
pub mod Shift
pub mod Tables
pub mod Install
pub mod Builtins
pub mod Console
use mathlib.Core.Option
use open_scm.Prelude.{
  ℕ, zero, suc, ◌+◌, ◌-◌, Bool, true, false, List, [], ◌∷◌, ◌++◌, Option, none, some, leb, ◌==◌,
  if◌then◌else◌, length, get_elem?, set, take, drop, replicate,
}
use open_scm.Prelude.Text.{Text, codes, text_eq}
use open_scm.Vm.{Value, Vm}
use open_scm.Vm.Ops.Hosted
use open_scm.Vm.Ops.Hosted.{HostReply, Host, no_reply, is_empty}

abbrev pub modules_max : ℕ
modules_max = 32

abbrev pub backends_max : ℕ
backends_max = 16

module _ (F : Type 0) where
  -- `ScmlRuntimeFunctionEntry`.
  pub record FunctionEntry : Type 0 where
    pub name : Text
    pub fn : F

  -- `RuntimeBackend` and `ScmlRuntimeBackendVTable`.
  pub record Backend : Type 0 where
    pub name : Text
    pub functions : List FunctionEntry
    pub user_data : ℕ

  -- `RuntimeModule`: the backends in use.
  pub record RuntimeModule : Type 0 where
    pub name : Text
    pub backends : List Backend
    pub active : ℕ

  -- `RuntimeRegistry`: the whole array, of which the first `count` slots are in use.
  pub record Registry : Type 0 where
    pub slots : List RuntimeModule
    pub count : ℕ

  -- The registry and the machine.
  pub record Runtime : Type 0 where
    pub registry : Registry
    pub vm : Vm

  abbrev pub new_module : Text → RuntimeModule
  new_module name = record { name = name; backends = []; active = 0 }

  -- `g_registry` at the start.
  abbrev pub empty_registry : Registry
  empty_registry = record { slots = replicate modules_max (new_module []); count = 0 }

  -- The loop of `runtime_find`, from slot `i` on.
  unfoldable pub find_from : ℕ → List RuntimeModule → Text → Option ℕ
  find_from i [] name = none
  find_from i (m ∷ modules) name =
      let rest = find_from (suc i) modules name in if text_eq m.name name then some i else rest

  unfoldable pub runtime_find : Registry → Text → Option ℕ
  unfolding find_from
  runtime_find reg name = find_from 0 (take reg.count reg.slots) name

  unfoldable pub find_function : List FunctionEntry → Text → Option F
  find_function [] name = none
  find_function (f ∷ functions) name =
      let rest = find_function functions name in if text_eq f.name name then some f.fn else rest

  -- The function of the active backend, and that backend's `user_data`.
  unfoldable pub active_function : Option RuntimeModule → Text → Option (F × ℕ)
  unfolding find_function
  active_function none function = none
  active_function (some m) function = elim (get_elem? m.backends m.active) [
    | none ↦ none
    | some b ↦ Option.map (λ fn. (fn, b.user_data)) (find_function b.functions function)
  ]

  -- The slot that a pointer points to.
  unfoldable pub slot_at : Registry → ℕ → Option RuntimeModule
  slot_at reg zero = none
  slot_at reg (suc i) = get_elem? reg.slots i

  -- `runtime_dispatch`, where `call` is what a function does.
  unfoldable pub runtime_dispatch :
      (F → ℕ → Vm → List Value → HostReply) → Registry → ℕ → Vm → Text → List Value → HostReply
  unfolding slot_at active_function
  runtime_dispatch call reg user_data vm function args =
      elim (active_function (slot_at reg user_data) function) [
        | none ↦ no_reply vm
        | some p ↦ call p.0 p.1 vm args
      ]

  -- The host of a machine whose native calls may reach the registry, `dispatch` being the address
  -- of `runtime_dispatch`.
  abbrev pub with_registry : (F → ℕ → Vm → List Value → HostReply) → ℕ → Registry → Host → Host
  with_registry call dispatch reg host = record host {
    resolve = λ resolver user_data vm function args.
        if resolver == dispatch
        then runtime_dispatch call reg user_data vm function args
        else host.resolve resolver user_data vm function args;
  }

  -- A backend of the same name is replaced.
  unfoldable pub replace_backend : List Backend → Backend → Option (List Backend)
  replace_backend [] new = none
  replace_backend (b ∷ backends) new =
      let rest = Option.map (λ bs. b ∷ bs) (replace_backend backends new) in
      if text_eq b.name new.name then some (new ∷ backends) else rest

  abbrev pub put_module : Runtime → ℕ → RuntimeModule → Runtime
  put_module s i m = record s { registry = record s.registry { slots = set s.registry.slots i m } }

  -- The end of `scml_runtime_register_backend`, for the module `m` in slot `i`. A pair holds what
  -- the function returns and the state.
  unfoldable pub add_backend : Runtime → ℕ → RuntimeModule → Backend → Bool × Runtime
  unfolding replace_backend
  add_backend s i m b = elim (replace_backend m.backends b) [
    | some backends ↦ (true, put_module s i (record m { backends = backends }))
    | none ↦
        if leb backends_max (length m.backends)
        then (false, s)
        else (true, put_module s i (record m { backends = m.backends ++ b ∷ [] }))
  ]

  -- The next free slot, in use from now on.
  abbrev pub take_slot : Runtime → Text → Runtime
  take_slot s name = record s {
    registry = record {
      slots = set s.registry.slots s.registry.count (new_module name);
      count = suc s.registry.count;
    };
  }

  abbrev pub module_in : Registry → ℕ → RuntimeModule
  module_in reg i = Option.get_or (get_elem? reg.slots i) (new_module [])

  unfoldable pub register_backend : ℕ → Runtime → Text → Backend → Bool × Runtime
  unfolding runtime_find add_backend Hosted.register_module
  register_backend dispatch s name b =
      if is_empty b.functions then (false, s) else elim (runtime_find s.registry name) [
        | some i ↦ add_backend s i (module_in s.registry i) b
        | none ↦
            if leb modules_max s.registry.count
            then (false, s)
            else elim (Hosted.register_module s.vm name dispatch (suc s.registry.count)) [
              | none ↦ (false, take_slot s name)
              | some vm' ↦
                  add_backend (record (take_slot s name) { vm = vm' }) s.registry.count
                    (new_module name) b
            ]
      ]

  abbrev pub default_backend : List FunctionEntry → ℕ → Backend
  default_backend functions user_data = record {
    name = codes "default";
    functions = functions;
    user_data = user_data;
  }

  -- `scml_runtime_register_module`: the module's slot, new or cleared, and then its backend.
  unfoldable pub register_module : ℕ → Runtime → Text → List FunctionEntry → ℕ → Bool × Runtime
  unfolding runtime_find register_backend
  register_module dispatch s name functions user_data =
      let b = default_backend functions user_data in
      if is_empty functions then (false, s) else elim (runtime_find s.registry name) [
        | some i ↦
            register_backend dispatch
              (put_module s i (record (module_in s.registry i) { backends = []; active = 0 })) name
              b
        | none ↦
            if leb modules_max s.registry.count
            then (false, s)
            else register_backend dispatch (take_slot s name) name b
      ]

  -- The place of a backend, from `i` on.
  unfoldable pub find_backend : ℕ → List Backend → Text → Option ℕ
  find_backend i [] name = none
  find_backend i (b ∷ backends) name =
      let rest = find_backend (suc i) backends name in if text_eq b.name name then some i else rest

  unfoldable pub select_backend : Runtime → Text → Text → Bool × Runtime
  unfolding runtime_find find_backend
  select_backend s name backend_name = elim (runtime_find s.registry name) [
    | none ↦ (false, s)
    | some i ↦ elim (find_backend 0 (module_in s.registry i).backends backend_name) [
      | none ↦ (false, s)
      | some k ↦ (true, put_module s i (record (module_in s.registry i) { active = k }))
    ]
  ]

  -- The `memmove` of the slots behind `i`, which leaves the last slot in use as it was.
  abbrev pub close_gap : Registry → ℕ → Registry
  close_gap reg i = record {
    slots =
        take i reg.slots
        ++ (take (reg.count - suc i) (drop (suc i) reg.slots) ++ drop (reg.count - 1) reg.slots);
    count = reg.count - 1;
  }

  unfoldable pub unregister_module : Runtime → Text → Bool × Runtime
  unfolding runtime_find Hosted.unregister_module
  unregister_module s name = elim (runtime_find s.registry name) [
    | none ↦ (false, s)
    | some i ↦ elim (Hosted.unregister_module s.vm name) [
      | none ↦ (false, record s { registry = close_gap s.registry i })
      | some vm' ↦ (true, record { registry = close_gap s.registry i; vm = vm' })
    ]
  ]

  unfoldable pub resolve_module : Registry → Text → Bool
  unfolding runtime_find
  resolve_module reg name = elim (runtime_find reg name) [ none ↦ false | some i ↦ true ]
