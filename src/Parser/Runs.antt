-- ===== src/Parser/Runs.antt =====
-- From the text of a program to the steps of the machine.
use open_scm.Prelude.{ℕ, ◌^◌, ◌<◌, ◌≡◌, sym, ◌∙◌, ap, false, List, [], ◌∷◌, ◌++◌, none, length}
use open_scm.Prelude.Text.{Text}
use open_scm.Prelude.Result.{ok, ok-injective}
use open_scm.Compiler.{Statement, Layout, layout, start, compile_files}
use open_scm.Compiler.Addresses.{code_size}
use open_scm.Compiler.Bounds.{AllParsed, IsParsed, layout-InBounds}
use open_scm.Compiler.Encoding.{decoded_list}
use open_scm.Image.{load_file}
use open_scm.Image.Loads.{with_program, load_file-compile_files}
use open_scm.Vm.{Vm}
use open_scm.Vm.Floats.{FloatOps}
use open_scm.Vm.Ops.Hosted.{Host}
use open_scm.Vm.Step.{step, exec}
use open_scm.Vm.Step.Fetch.{step-emit_code}
use open_scm.Parser.{parse_text, lines_of}
use open_scm.Parser.Operands.{ParseFits}
use open_scm.Parser.Accepted.{FitsRow, AllFit, parse_text-checked}

at_place :
    (pre post : List Statement) (s : Statement)
    → AllParsed (pre ++ s ∷ post)
    → AllFit (pre ++ s ∷ post)
    → IsParsed s × FitsRow s
at_place [] post s h k = (h.0, k.0)
at_place (x ∷ pre) post s h k = at_place pre post s h.1 k.1

-- A text of fewer than 2 ^ 32 lines that is parsed, compiled to code of less than 2 ^ 32 bytes
-- from fewer than 2 ^ 32 statements, and loaded: a machine with the loaded code that is not
-- halted, at the address of a statement with an opcode, executes in its next step that opcode on
-- the operands of the statement, labels resolved by the first pass, with `pc` at the statement
-- after it, if `strtod` gives 32-bit floats.
pub step-parse_text :
    (host : Host) (fl : FloatOps) (text : Text) (pre post : List Statement) (s : Statement)
    (file : List ℕ) (vm loaded vm' : Vm)
    → ParseFits fl
    → length (lines_of text) < 2 ^ 32
    → code_size (pre ++ s ∷ post) < 2 ^ 32
    → length (pre ++ s ∷ post) < 2 ^ 32
    → parse_text fl text ≡ ok (pre ++ s ∷ post)
    → s.label ≡ none
    → compile_files (pre ++ s ∷ post) ≡ ok file
    → load_file file vm ≡ ok loaded
    → vm'.code ≡ loaded.code
    → vm'.pc ≡ code_size pre
    → vm'.halted ≡ false
    → (l : Layout) × (layout (pre ++ s ∷ post) start ≡ ok l)
      × (step host fl vm'
          ≡ exec host fl
              (code_size pre)
              s.opcode
              (decoded_list l.labels s.operands)
              (record vm' { pc = code_size (pre ++ s ∷ []) }))
step-parse_text host fl text pre post s file vm loaded vm' fits lines small few parsed plain
      compiled image same_code here running =
    let ss = pre ++ s ∷ post in
    let (good, fit) = parse_text-checked fl text ss fits lines parsed in
    let (l, code, first, second, made) =
      load_file-compile_files ss file vm good small few compiled in
    let (this, (m, known, low, high)) = at_place pre post s good fit in
    let same : with_program vm l code ≡ loaded = ok-injective _ _ (sym made ∙ image) in
    let bytes : code ≡ vm'.code = ap (λ v. v.code) same ∙ sym same_code in
    (
      l,
      first,
      step-emit_code host fl l.labels pre post s m vm' (layout-InBounds ss l good first).labels this
          plain known low high (second ∙ ap ok bytes) here running,
    )
