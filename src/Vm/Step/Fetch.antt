-- ===== src/Vm/Step/Fetch.antt =====
-- The machine meets the statements that the compiler has written: at the address of a statement, a
-- step executes that statement's opcode on its operands.
use mathlib.Core.Option
use mathlib.Core.List.{append_assoc}
use open_scm.Prelude.{
  ℕ, ◌+◌, ◌≤◌, ◌<◌, ◌≡◌, refl, ap, ap₂, sym, ◌∙◌, Bool, false, ◌||◌, List, [], ◌∷◌, ◌++◌, none,
  some, arith, leb, ltb, length, length-append,
}
use open_scm.Prelude.Result.{ok, >>=-eq-ok, ok-injective}
use open_scm.Bytes.{w8, r8}
use open_scm.Bytes.Laws.{r8_at, get_at}
use open_scm.Opcode.{Opcode, number, nop}
use open_scm.Opcode.Table.{OpcodeInfo}
use open_scm.Opcode.Lookup.{opcode_info}
use open_scm.Opcode.Arity.{opcode_of-number}
use open_scm.Compiler.{Statement, LabelAddr, emit_operands, emit_statement, emit_code}
use open_scm.Compiler.Addresses.{
  code_size, code_size-append, length-emit_code, length-emit_operands,
}
use open_scm.Compiler.Encoding.{decoded_list, decode_operands_at}
use open_scm.Compiler.Bounds.{IsParsed, LabelsFit, LabelsFit-AddressesFit}
use open_scm.Vm.{Vm}
use open_scm.Vm.Floats.{FloatOps}
use open_scm.Vm.Decode.{DecOp, decode_operands}
use open_scm.Vm.Ops.Hosted.{Host}
use open_scm.Vm.Step.{exec, exec_info, fetch, step}

test-≤ : (m n : ℕ) → m ≤ n → ltb n m ≡ false
test-≤ m n h = ground arith

test-< : (m n : ℕ) → m < n → leb n m ≡ false
test-< m n h = ground arith

neither : (a b : Bool) → a ≡ false → b ≡ false → (a || b) ≡ false
neither a b ha hb = ground arith

module _ (host : Host) (fl : FloatOps) where
  -- An instruction that is inside the code, known, and decoded.
  step_decoded :
      (vm : Vm) (m : OpcodeInfo) (argc pc' : ℕ) (ops : List DecOp)
      → vm.halted ≡ false
      → vm.pc + 2 ≤ length vm.code
      → opcode_info (r8 vm.code vm.pc) ≡ some m
      → r8 vm.code (vm.pc + 1) ≡ argc
      → m.min_args ≤ argc
      → argc ≤ m.max_args
      → argc ≤ 8
      → decode_operands argc vm.code (vm.pc + 2) ≡ ok (ops, pc')
      → step host fl vm ≡ exec host fl vm.pc m.opcode ops (record vm { pc = pc' })
  unfolding step fetch exec_info
  step_decoded vm m argc pc' ops running room known count low high few read =
      rw
        (
          neither vm.halted (leb (length vm.code) vm.pc) running
              (test-< vm.pc (length vm.code) (omega arith)),
          step,
          fetch,
          test-≤ (vm.pc + 2) (length vm.code) room,
          known,
          count,
          exec_info,
          test-≤ m.min_args argc low,
          test-≤ argc m.max_args high,
          test-≤ argc 8 few,
          read,
        )
        refl

-- The two parts of the code of a list in two parts.
emit_code-append :
    (labels : List LabelAddr) (xs ys : List Statement) (b : List ℕ)
    → emit_code labels (xs ++ ys) ≡ ok b
    → (p q : List ℕ) × (emit_code labels xs ≡ ok p) × (emit_code labels ys ≡ ok q) × (p ++ q ≡ b)
unfolding emit_code
emit_code-append labels [] ys b h = ([], b, refl, h, refl)
emit_code-append labels (x ∷ xs) ys b h =
    let (v, value, more) = >>=-eq-ok (emit_statement labels x) _ h in
    let (rest, others, done) = >>=-eq-ok (emit_code labels (xs ++ ys)) _ more in
    let (p, q, first, second, same) = emit_code-append labels xs ys rest others in
    (
      v ++ p,
      q,
      rw (value, first) refl,
      second,
      append_assoc v p q ∙ ap (λ t. v ++ t) same ∙ ok-injective _ _ done,
    )

w8-number : (op : Opcode) → w8 (number op) ≡ number op ∷ []
unfolding w8 number
w8-number nop = refl
w8-number _ = refl

w8-small : (n : ℕ) → n ≤ 8 → w8 n ≡ n ∷ []
unfolding w8
w8-small n h = ap (λ k. k ∷ []) (omega arith)

-- The bytes of a statement with an opcode.
emit_statement-bytes :
    (labels : List LabelAddr) (s : Statement) (b : List ℕ)
    → s.label ≡ none
    → length s.operands ≤ 8
    → emit_statement labels s ≡ ok b
    → (os : List ℕ) × (emit_operands labels s.operands ≡ ok os)
      × (number s.opcode ∷ (length s.operands ∷ os) ≡ b)
unfolding emit_statement
emit_statement-bytes labels s b plain few h =
    let (os, value, done) =
      >>=-eq-ok (emit_operands labels s.operands) _ (rw (plain, emit_statement) at h) in
    let same : w8 (number s.opcode) ++ (w8 (length s.operands) ++ os) ≡ b = ok-injective _ _ done in
    (os, value, rw (w8-number s.opcode, w8-small (length s.operands) few) at same)

-- The code around a statement: the bytes before it, and those behind its operands.
record Around (labels : List LabelAddr) (pre : List Statement) (s : Statement) (code : List ℕ)
    : Type 0 where
  before : List ℕ
  operand_bytes : List ℕ
  behind : List ℕ
  before_size : length before ≡ code_size pre
  emitted : emit_operands labels s.operands ≡ ok operand_bytes
  whole : before ++ (number s.opcode ∷ (length s.operands ∷ (operand_bytes ++ behind))) ≡ code

around :
    (labels : List LabelAddr) (pre post : List Statement) (s : Statement) (code : List ℕ)
    → s.label ≡ none
    → length s.operands ≤ 8
    → emit_code labels (pre ++ s ∷ post) ≡ ok code
    → Around labels pre s code
unfolding emit_code
around labels pre post s code plain few h =
    let (p, q, first, second, same) = emit_code-append labels pre (s ∷ post) code h in
    let (b, here, more) = >>=-eq-ok (emit_statement labels s) _ second in
    let (rest, later, done) = >>=-eq-ok (emit_code labels post) _ more in
    let (os, operands, bytes) = emit_statement-bytes labels s b plain few here in
    let joined : b ++ rest ≡ q = ok-injective _ _ done in
    record {
      before = p;
      operand_bytes = os;
      behind = rest;
      before_size = length-emit_code labels pre p first;
      emitted = operands;
      whole = ap (λ t. p ++ (t ++ rest)) bytes ∙ (ap (λ t. p ++ t) joined ∙ same);
    }

operands_at :
    (labels : List LabelAddr) (pre : List Statement) (s : Statement) (code : List ℕ)
    → LabelsFit labels
    → IsParsed s
    → (a : Around labels pre s code)
    → decode_operands (length s.operands) code (code_size pre + 2)
      ≡ ok (decoded_list labels s.operands, code_size pre + 2 + length a.operand_bytes)
operands_at labels pre s code fits good a =
    let front : List ℕ = a.before ++ (number s.opcode ∷ (length s.operands ∷ [])) in
    let whole : front ++ (a.operand_bytes ++ a.behind) ≡ code =
      append_assoc a.before (number s.opcode ∷ (length s.operands ∷ []))
        (a.operand_bytes ++ a.behind)
      ∙ a.whole in
    rw (← whole) (
      decode_operands_at labels s.operands a.operand_bytes front a.behind (code_size pre + 2)
        (LabelsFit-AddressesFit labels fits) good.operands_good a.emitted
        (omega (
          arith,
          a.before_size,
          length-append a.before (number s.opcode ∷ (length s.operands ∷ [])),
        )))

header_at :
    (labels : List LabelAddr) (pre : List Statement) (s : Statement) (code : List ℕ)
    → Around labels pre s code
    → (r8 code (code_size pre) ≡ number s.opcode)
      × (r8 code (code_size pre + 1) ≡ length s.operands)
      × (code_size pre + 2 ≤ length code)
header_at labels pre s code a =
    let tail : List ℕ = number s.opcode ∷ (length s.operands ∷ (a.operand_bytes ++ a.behind)) in
    rw (← a.whole) (
      r8_at a.before tail (code_size pre) (sym a.before_size),
      get_at a.before tail 1 (code_size pre) (sym a.before_size),
      omega (arith, a.before_size, length-append a.before tail),
    )

next_address :
    (labels : List LabelAddr) (pre : List Statement) (s : Statement) (code : List ℕ)
    → s.label ≡ none
    → (a : Around labels pre s code)
    → code_size pre + 2 + length a.operand_bytes ≡ code_size (pre ++ s ∷ [])
unfolding code_size
next_address labels pre s code plain a =
    rw (code_size-append pre (s ∷ []), plain)
      (omega (arith, length-emit_operands labels s.operands a.operand_bytes a.emitted))

-- In code that was written with a label table of 32-bit addresses and C strings, at the address
-- of a parsed statement with an opcode: if the operand count is one that the opcode's row allows,
-- a step of a machine that is not halted executes that opcode on the statement's operands, labels
-- resolved, with `pc` at the statement after it.
pub step-emit_code :
    (host : Host) (fl : FloatOps) (labels : List LabelAddr) (pre post : List Statement)
    (s : Statement) (m : OpcodeInfo) (vm : Vm)
    → LabelsFit labels
    → IsParsed s
    → s.label ≡ none
    → opcode_info (number s.opcode) ≡ some m
    → m.min_args ≤ length s.operands
    → length s.operands ≤ m.max_args
    → emit_code labels (pre ++ s ∷ post) ≡ ok vm.code
    → vm.pc ≡ code_size pre
    → vm.halted ≡ false
    → step host fl vm
      ≡ exec host fl
          (code_size pre)
          s.opcode
          (decoded_list labels s.operands)
          (record vm { pc = code_size (pre ++ s ∷ []) })
step-emit_code host fl labels pre post s m vm fits good plain known low high emitted here running =
    let a = around labels pre post s vm.code plain good.few_operands emitted in
    let (byte, count, room) = header_at labels pre s vm.code a in
    let same : some m.opcode ≡ some s.opcode =
      ap (Option.map (λ r. r.opcode)) (sym known) ∙ opcode_of-number s.opcode in
    let run =
      step_decoded host fl vm m (length s.operands) (code_size pre + 2 + length a.operand_bytes)
        (decoded_list labels s.operands) running (rw here room) (rw (here, byte) known)
        (rw here count) low high good.few_operands
        (rw here (operands_at labels pre s vm.code fits good a)) in
    run
    ∙ ap₂
        (λ op pc'. exec host fl vm.pc op (decoded_list labels s.operands) (record vm { pc = pc' }))
        (Option.some-injective _ _ same) (next_address labels pre s vm.code plain a)
    ∙ ap
        (λ n.
          exec host fl n s.opcode (decoded_list labels s.operands)
            (record vm { pc = code_size (pre ++ s ∷ []) }))
        here
