-- ===== src/Vm/Ops/Hosted/Registry.antt =====
-- The functions that a host has registered.
use open_scm.Prelude.{
  ℕ, ◌≡◌, refl, List, [], ◌∷◌, ◌++◌, none, some, arith, if◌then◌else◌, Option-cases, inl, inr,
}
use open_scm.Prelude.Text.{Text, text_eq, text_eq_iff}
use open_scm.Vm.{NativeFunc, Vm}
use open_scm.Vm.Ops.Hosted.{native_find, replace_native, register_function}

native_find-replace_native :
    (natives : List NativeFunc) (new f : NativeFunc) (other : Text)
    → native_find natives new.name ≡ some f
    → native_find (replace_native natives new) other
      ≡ (if text_eq new.name other then some new else native_find natives other)
unfolding native_find replace_native
native_find-replace_native [] new f other h = ground arith
native_find-replace_native (x ∷ natives) new f other h = ground (
  arith,
  native_find-replace_native natives new f other,
  text_eq_iff x.name new.name,
  text_eq_iff x.name other,
  text_eq_iff new.name other,
)

native_find-append :
    (natives : List NativeFunc) (new : NativeFunc) (other : Text)
    → native_find natives new.name ≡ none
    → native_find (natives ++ new ∷ []) other
      ≡ (if text_eq new.name other then some new else native_find natives other)
unfolding native_find
native_find-append [] new other h = refl
native_find-append (x ∷ natives) new other h = ground (
  arith,
  native_find-append natives new other,
  text_eq_iff x.name new.name,
  text_eq_iff x.name other,
  text_eq_iff new.name other,
)

-- A function that the host has registered is found by its name, in place of an older one of that
-- name, and all other names find what they found before.
pub native_find-register_function :
    (vm : Vm) (name other : Text) (fn user_data : ℕ) {vm' : Vm}
    → register_function vm name fn user_data ≡ some vm'
    → native_find vm'.natives other ≡ (
        if text_eq name other
        then some (record { name = name; fn = fn; user_data = user_data })
        else native_find vm.natives other)
unfolding register_function
native_find-register_function vm name other fn user_data h =
    let new : NativeFunc = record { name = name; fn = fn; user_data = user_data } in
    elim (Option-cases (native_find vm.natives name)) [
      | inl fresh ↦ ground (arith, native_find-append vm.natives new other fresh)
      | inr (f, there) ↦ ground (arith, native_find-replace_native vm.natives new f other there)
    ]
