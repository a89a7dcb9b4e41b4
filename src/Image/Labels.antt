-- ===== src/Image/Labels.antt =====
-- A host finds the labels of a compiled program.
use open_scm.Prelude.{
  ℕ, ◌^◌, ◌<◌, ◌≡◌, refl, ap, sym, ◌∙◌, List, [], ◌∷◌, ◌++◌, some, map, arith, length,
}
use open_scm.Prelude.Text.{Text}
use open_scm.Prelude.Result.{ok, ok-injective}
use open_scm.Compiler.{Statement, LabelAddr, find_label, compile_files}
use open_scm.Compiler.Addresses.{code_size, code_size-append, find_label-layout-code_size}
use open_scm.Compiler.Bounds.{AllParsed}
use open_scm.Image.{load_file}
use open_scm.Image.RoundTrip.{loaded_label}
use open_scm.Image.Loads.{with_program, load_file-compile_files}
use open_scm.Vm.{Vm}
use open_scm.Vm.Api.{find_entry, strip_sign, vm_find_label}

find_entry-loaded_label :
    (labels : List LabelAddr) (name : Text)
    → find_entry (map loaded_label labels) name ≡ find_label labels name
unfolding find_entry find_label
find_entry-loaded_label [] name = refl
find_entry-loaded_label (l ∷ labels) name = rw (find_entry-loaded_label labels name) refl

-- In a file compiled from parsed statements, with code of less than 2 ^ 32 bytes and fewer than 2
-- ^ 32 statements, and loaded, a host that asks for a label by its name with `@` in front gets
-- the number of bytes of the statements before the label.
pub vm_find_label-load_file :
    (pre post : List Statement) (s : Statement) (name : Text) (file : List ℕ) (vm vm' : Vm)
    → AllParsed (pre ++ s ∷ post)
    → code_size (pre ++ s ∷ post) < 2 ^ 32
    → length (pre ++ s ∷ post) < 2 ^ 32
    → s.label ≡ some name
    → compile_files (pre ++ s ∷ post) ≡ ok file
    → load_file file vm ≡ ok vm'
    → vm_find_label vm' (b'@' ∷ name) ≡ some (code_size pre)
unfolding vm_find_label strip_sign
vm_find_label-load_file pre post s name file vm vm' good small few here compiled loaded =
    let (l, code, first, second, image) =
      load_file-compile_files (pre ++ s ∷ post) file vm good small few compiled in
    let same : with_program vm l code ≡ vm' = ok-injective _ _ (sym image ∙ loaded) in
    ap (λ m. find_entry m.labels name) (sym same)
    ∙ find_entry-loaded_label l.labels name
    ∙ find_label-layout-code_size pre post s l name here first
        (omega (arith, code_size-append pre (s ∷ post)))
