-- ===== src/Runtime/Reach.antt =====
-- Which calls of the machine reach a module of the registry.
use open_scm.Prelude.{
  ℕ, zero, suc, ◌+◌, ◌<◌, ◌≡◌, ◌≢◌, refl, ◌∙◌, ap, true, false, List, [], ◌∷◌, ◌++◌, none, some,
  arith, leb, ◌==◌, length, get_elem?, get_elem?-set_self, set, length-set, take,
}
use open_scm.Prelude.Text.{Text, text_eq_refl}
use open_scm.Vm.{Value, Vm, NativeModule, native_modules_max}
use open_scm.Vm.Ops.Hosted
use open_scm.Vm.Ops.Hosted.{
  HostReply, Host, no_reply, is_empty, call_native, resolve_in, module_find, split_dot,
}
use open_scm.Runtime.{
  FunctionEntry, Backend, RuntimeModule, Registry, Runtime, new_module, find_from, runtime_find,
  find_function, active_function, slot_at, runtime_dispatch, with_registry, replace_backend,
  add_backend, take_slot, put_module, register_backend, register_module, default_backend,
  modules_max,
}

-- A qualified name that `scml_vm_call_native` takes apart.
pub record IsCall (q name f : Text) : Type 0 where
  pub parts : split_dot q ≡ some (name, f)
  pub named : is_empty name ≡ false
  pub asked : is_empty f ≡ false
  pub short : length name < 64

call_native-resolve_in :
    (host : Host) (vm : Vm) (q name f : Text) (args : List Value)
    → IsCall q name f
    → call_native host vm q args ≡ resolve_in host vm name f args
unfolding call_native
call_native-resolve_in host vm q name f args c =
    let fits : leb 64 (length name) ≡ false = let s = c.short in ground arith in
    rw (c.parts, c.named, c.asked, fits, call_native) refl

module_find-append :
    (modules : List NativeModule) (m : NativeModule)
    → module_find modules m.name ≡ none
    → module_find (modules ++ m ∷ []) m.name ≡ some m
unfolding module_find
module_find-append [] m h = rw (text_eq_refl m.name) refl
module_find-append (x ∷ modules) m h = ground (arith, module_find-append modules m)

equal_self : (n : ℕ) → (n == n) ≡ true
equal_self n = ground arith

not_zero : (n : ℕ) → n ≢ 0 → (n == 0) ≡ false
not_zero n h = ground arith

module _ (F : Type 0) where
  take-set :
      (slots : List (RuntimeModule F)) (n : ℕ) (m : RuntimeModule F)
      → take n (set slots n m) ≡ take n slots
  take-set slots zero m = refl
  take-set [] (suc n) m = refl
  take-set (x ∷ slots) (suc n) m = ap (λ r. x ∷ r) (take-set slots n m)

  -- The name of a new slot is found in that slot.
  find_from-set :
      (slots : List (RuntimeModule F)) (i n : ℕ) (m : RuntimeModule F)
      → n < length slots
      → find_from F i (take n slots) m.name ≡ none
      → find_from F i (take (suc n) (set slots n m)) m.name ≡ some (i + n)
  unfolding find_from
  find_from-set [] i n m h e = absurd (omega arith)
  find_from-set (x ∷ slots) i zero m h e = rw (text_eq_refl m.name) (ap some (omega arith))
  find_from-set (x ∷ slots) i (suc n) m h e = ground (arith, find_from-set slots (suc i) n m)

  found-not_empty :
      (functions : List (FunctionEntry F)) (f : Text) (fn : F)
      → find_function F functions f ≡ some fn
      → is_empty functions ≡ false
  unfolding find_function
  found-not_empty [] f fn h = cc
  found-not_empty (x ∷ functions) f fn h = refl

  module _ (call : F → ℕ → Vm → List Value → HostReply) (host : Host) (dispatch : ℕ) where
    resolve_in-registry :
        (reg : Registry F) (vm : Vm) (name f : Text) (args : List Value) (user_data : ℕ)
        → dispatch ≢ 0
        → module_find vm.modules name
          ≡ some (record { name = name; resolver = dispatch; user_data = user_data })
        → resolve_in (with_registry F call dispatch reg host) vm name f args
          ≡ runtime_dispatch F call reg user_data vm f args
    unfolding resolve_in
    resolve_in-registry reg vm name f args user_data h e =
        rw (e, not_zero dispatch h, equal_self dispatch, resolve_in) refl

    dispatch-new :
        (reg : Registry F) (vm : Vm) (i : ℕ) (m : RuntimeModule F) (b : Backend F) (f : Text)
        (fn : F) (args : List Value)
        → get_elem? reg.slots i ≡ some m
        → get_elem? m.backends m.active ≡ some b
        → find_function F b.functions f ≡ some fn
        → runtime_dispatch F call reg (suc i) vm f args ≡ call fn b.user_data vm args
    unfolding runtime_dispatch slot_at active_function
    dispatch-new reg vm i m b f fn args slot active found =
        rw (slot, active, found, active_function, slot_at, runtime_dispatch) refl

    hosted :
        (vm : Vm) (name : Text) (user_data : ℕ)
        → dispatch ≢ 0
        → module_find vm.modules name ≡ none
        → length vm.modules < native_modules_max
        → Hosted.register_module vm name dispatch user_data
          ≡ some (record vm {
            modules =
                vm.modules
                ++ record { name = name; resolver = dispatch; user_data = user_data } ∷ [];
          })
    unfolding Hosted.register_module
    hosted vm name user_data h fresh room =
        let some_room : leb native_modules_max (length vm.modules) ≡ false = ground arith in
        rw (not_zero dispatch h, fresh, some_room, Hosted.register_module) refl

    -- A backend that is registered for a module that neither the registry nor the machine has,
    -- both having room: the registration succeeds, and a native call of the module and one of the
    -- functions of the backend runs that function with the `user_data` of the backend, if
    -- `runtime_dispatch` has an address and the name is one of a module of less than 64 bytes, a
    -- dot and a function.
    pub call_native-register_backend :
        (s : Runtime F) (q name f : Text) (b : Backend F) (fn : F) (args : List Value)
        → dispatch ≢ 0
        → IsCall q name f
        → runtime_find F s.registry name ≡ none
        → module_find s.vm.modules name ≡ none
        → s.registry.count < modules_max
        → length s.registry.slots ≡ modules_max
        → length s.vm.modules < native_modules_max
        → find_function F b.functions f ≡ some fn
        → (s' : Runtime F) × (register_backend F dispatch s name b ≡ (true, s'))
          × (call_native (with_registry F call dispatch s'.registry host) s'.vm q args
              ≡ call fn b.user_data s'.vm args)
    unfolding register_backend add_backend replace_backend
    call_native-register_backend s q name f b fn args real c fresh alone room whole fits found =
        let i = s.registry.count in
        let some_room : leb modules_max i ≡ false = ground arith in
        let full : is_empty b.functions ≡ false = found-not_empty b.functions f fn found in
        let entry : NativeModule = record { name = name; resolver = dispatch; user_data = suc i } in
        let vm' : Vm = record s.vm { modules = s.vm.modules ++ entry ∷ [] } in
        let s' : Runtime F =
          put_module F (record (take_slot F s name) { vm = vm' }) i
            (record (new_module F name) { backends = b ∷ [] }) in
        (
          s',
          rw (full, fresh, some_room, hosted s.vm name (suc i) real alone fits, register_backend)
              refl,
          call_native-resolve_in (with_registry F call dispatch s'.registry host) vm' q name f args
                c
              ∙ resolve_in-registry s'.registry vm' name f args (suc i) real
                  (module_find-append s.vm.modules entry alone)
              ∙ dispatch-new s'.registry vm' i (record (new_module F name) { backends = b ∷ [] }) b
                  f fn args
                  (get_elem?-set_self (set s.registry.slots i (new_module F name)) i _
                    (omega (arith, room, whole, length-set s.registry.slots i (new_module F name))))
                  refl found,
        )

    no_module :
        (reg : Registry F) (vm : Vm) (name f : Text) (args : List Value)
        → module_find vm.modules name ≡ none
        → resolve_in (with_registry F call dispatch reg host) vm name f args ≡ no_reply vm
    unfolding resolve_in
    no_module reg vm name f args h = rw (h, resolve_in) refl

    -- A module that is registered as a whole, by a name that neither the registry nor the machine
    -- has, and with room in the registry: the registration succeeds and the registry has the
    -- module, but the machine is not told of it, so that every native call of the module fails.
    pub call_native-register_module :
        (s : Runtime F) (q name f : Text) (x : FunctionEntry F) (functions : List (FunctionEntry F))
        (user_data : ℕ) (args : List Value)
        → IsCall q name f
        → runtime_find F s.registry name ≡ none
        → module_find s.vm.modules name ≡ none
        → s.registry.count < modules_max
        → length s.registry.slots ≡ modules_max
        → (s' : Runtime F) × (register_module F dispatch s name (x ∷ functions) user_data
            ≡ (true, s'))
          × (runtime_find F s'.registry name ≡ some s.registry.count)
          × (s'.vm ≡ s.vm)
          × (call_native (with_registry F call dispatch s'.registry host) s'.vm q args
              ≡ no_reply s.vm)
    unfolding register_module register_backend add_backend replace_backend runtime_find
    call_native-register_module s q name f x functions user_data args c fresh alone room whole =
        let i = s.registry.count in
        let some_room : leb modules_max i ≡ false = ground arith in
        let b = default_backend F (x ∷ functions) user_data in
        let taken = take_slot F s name in
        let inside : i < length s.registry.slots = omega (arith, room, whole) in
        let now : runtime_find F taken.registry name ≡ some i =
          find_from-set s.registry.slots 0 i (new_module F name) inside fresh
          ∙ ap some (omega arith) in
        let slot : get_elem? taken.registry.slots i ≡ some (new_module F name) =
          get_elem?-set_self s.registry.slots i (new_module F name) inside in
        let s' : Runtime F =
          put_module F taken i (record (new_module F name) { backends = b ∷ [] }) in
        (
          s',
          rw (fresh, some_room, register_module) (rw (now, slot, register_backend) refl),
          find_from-set (set s.registry.slots i (new_module F name)) 0 i
                (record (new_module F name) { backends = b ∷ [] })
                (omega (arith, inside, length-set s.registry.slots i (new_module F name)))
                (rw (take-set s.registry.slots i (new_module F name)) fresh)
              ∙ ap some (omega arith),
          refl,
          call_native-resolve_in (with_registry F call dispatch s'.registry host) s.vm q name f args
                c
              ∙ no_module s'.registry s.vm name f args alone,
        )
