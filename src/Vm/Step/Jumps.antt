-- ===== src/Vm/Step/Jumps.antt =====
-- A jump of the source reaches its label in the machine.
use open_scm.Prelude.{
  ℕ, ◌^◌, ◌≤◌, ◌<◌, ◌≡◌, refl, ap, subst, sym, ◌∙◌, false, List, [], ◌∷◌, ◌++◌, none, some, arith,
}
use open_scm.Prelude.Text.{Text}
use open_scm.Prelude.Word.{to_size}
use open_scm.Prelude.Result.{ok}
use open_scm.Opcode.{number, jmp, address_type}
use open_scm.Opcode.Lookup.{opcode_info}
use open_scm.Opcode.Table.{OpcodeInfo, g_opcodes}
use open_scm.Compiler.{Statement, LabelAddr, Layout, start, layout, emit_code, find_label}
use open_scm.Compiler.Addresses.{code_size, code_size-append, find_label-layout-code_size}
use open_scm.Compiler.Bounds.{AllParsed, IsParsed, layout-InBounds}
use open_scm.Compiler.Encoding.{decoded_list, address_of}
use open_scm.Vm.{Vm}
use open_scm.Vm.Floats.{FloatOps}
use open_scm.Vm.Decode.{address}
use open_scm.Vm.Ops.{op_int}
use open_scm.Vm.Outcome.{next}
use open_scm.Vm.Ops.Flow.{exec_jmp, jump}
use open_scm.Vm.Ops.Hosted.{Host}
use open_scm.Vm.Step.{step, exec}
use open_scm.Vm.Step.Fetch.{step-emit_code}

AllParsed-at :
    (pre post : List Statement) (s : Statement) → AllParsed (pre ++ s ∷ post) → IsParsed s
AllParsed-at [] post s h = h.0
AllParsed-at (x ∷ pre) post s h = AllParsed-at pre post s h.1

code_size-before :
    (pre post : List Statement) (ss : List Statement)
    → pre ++ post ≡ ss
    → code_size pre ≤ code_size ss
code_size-before pre post ss e = omega (arith, code_size-append pre post, ap code_size e)

to_size-small : (a : ℕ) → a < 2 ^ 31 → to_size a ≡ a
to_size-small a h = ground arith

-- The statement `JMP @name`.
abbrev pub jump_to : ℕ → Text → ℕ → ℕ → Statement
jump_to line name i r = record {
  line = line;
  label = none;
  opcode = jmp;
  operands = record { type = address_type; text = name; integer = i; real = r } ∷ [];
}

row : (m : OpcodeInfo) × (opcode_info (number jmp) ≡ some m) × (m.min_args ≤ 1) × (1 ≤ m.max_args)
unfolding opcode_info g_opcodes number
row = (_, refl, omega arith, omega arith)

jump_target :
    (labels : List LabelAddr) (line i r : ℕ) (name : Text) (a : ℕ)
    → find_label labels name ≡ some a
    → decoded_list labels (jump_to line name i r).operands ≡ address a ∷ []
unfolding decoded_list
jump_target labels line i r name a found = rw (found, address_of) refl

-- A jump to a label, in the code of parsed statements of less than 2 ^ 31 bytes: a step of a
-- machine that stands at the jump and is not halted leads to the statement that follows the
-- label, wherever the label stands, and changes nothing but `pc`.
pub step-jump_to :
    (host : Host) (fl : FloatOps) (pre post before behind : List Statement) (target : Statement)
    (line i r : ℕ) (name : Text) (l : Layout) (vm : Vm)
    → before ++ target ∷ behind ≡ pre ++ jump_to line name i r ∷ post
    → AllParsed (pre ++ jump_to line name i r ∷ post)
    → code_size (pre ++ jump_to line name i r ∷ post) < 2 ^ 31
    → target.label ≡ some name
    → layout (pre ++ jump_to line name i r ∷ post) start ≡ ok l
    → emit_code l.labels (pre ++ jump_to line name i r ∷ post) ≡ ok vm.code
    → vm.pc ≡ code_size pre
    → vm.halted ≡ false
    → step host fl vm ≡ next (record vm { pc = code_size before })
unfolding exec exec_jmp jump op_int
step-jump_to host fl pre post before behind target line i r name l vm same good small placed first
      second here running =
    let ss : List Statement = pre ++ jump_to line name i r ∷ post in
    let below : code_size before < 2 ^ 31 =
      omega (arith, code_size-before before (target ∷ behind) ss same) in
    let found =
      find_label-layout-code_size before behind target l name placed
        (subst (λ t. layout t start ≡ ok l) (sym same) first) (omega arith) in
    let (m, known, low, high) = row in
    let fetched =
      step-emit_code host fl l.labels pre post (jump_to line name i r) m vm
        (layout-InBounds ss l good first).labels
        (AllParsed-at pre post (jump_to line name i r) good) refl known low high second here
        running in
    fetched
    ∙ rw (jump_target l.labels line i r name (code_size before) found)
        (ap (λ n. next (record vm { pc = n })) (to_size-small (code_size before) below))
