-- ===== src/Vm/Decode.antt =====
-- `decode_operand` of vm/vm.c and the loop over it in `scml_vm_step`.
use open_scm.Prelude.{
  ℕ, zero, suc, ◌+◌, List, [], ◌∷◌, ◌==◌, ltb, leb, if◌then◌else◌, length, take, drop,
}
use open_scm.Prelude.Text.{Text, c_string}
use open_scm.Prelude.Result.{Result, ok, err, ◌>>=◌}
use open_scm.Bytes.{r8, r16, r32}

-- `DecOp`: the field that its type makes meaningful. `absent` is an entry of the zeroed array
-- behind the decoded ones. `(int32_t)` keeps the bit pattern.
pub data DecOp : Type 0 where
  absent : DecOp
  int address float : ℕ → DecOp
  string var : Text → DecOp

pub data DecodeError : Type 0 where
  truncated_operand truncated_integer truncated_float : DecodeError
  truncated_string_length truncated_string : DecodeError
  bad_tag : ℕ → DecodeError

-- What is wrong, and where `pc` stands then.
pub record Broken : Type 0 where
  pub reason : DecodeError
  pub pc : ℕ

abbrev pub Decoded : Type 0 → Type 0
Decoded A = Result Broken (A × ℕ)

abbrev broken : {A : Type 0} → DecodeError → ℕ → Decoded A
broken e pc = err (record { reason = e; pc = pc })

unfoldable pub decode_word : (ℕ → DecOp) → DecodeError → List ℕ → ℕ → Decoded DecOp
decode_word make e code pc =
    if ltb (length code) (pc + 4) then broken e pc else ok (make (r32 code pc), pc + 4)

unfoldable pub decode_text : (Text → DecOp) → List ℕ → ℕ → Decoded DecOp
decode_text make code pc =
    let n = r16 code pc in
    if ltb (length code) (pc + 2)
    then broken truncated_string_length pc
    else if ltb (length code) (pc + 2 + n)
    then broken truncated_string (pc + 2)
    else ok (make (c_string (take n (drop (pc + 2) code))), pc + 2 + n)

-- By the tags of `ScmlOperandType`.
unfoldable pub decode_tagged : ℕ → List ℕ → ℕ → Decoded DecOp
decode_tagged t code pc =
    if t == 1
    then decode_word int truncated_integer code pc
    else if t == 4
    then decode_word address truncated_integer code pc
    else if t == 5
    then decode_word float truncated_float code pc
    else if t == 2
    then decode_text string code pc
    else if t == 3
    then decode_text var code pc
    else broken (bad_tag t) pc

unfoldable pub decode_operand : List ℕ → ℕ → Decoded DecOp
decode_operand code pc =
    if leb (length code) pc
    then broken truncated_operand pc
    else decode_tagged (r8 code pc) code (pc + 1)

-- The loop over the `argc` operands.
unfoldable pub decode_operands : ℕ → List ℕ → ℕ → Decoded (List DecOp)
decode_operands zero code pc = ok ([], pc)
decode_operands (suc n) code pc = do
  (o, pc₁) ← decode_operand code pc
  (os, pc₂) ← decode_operands n code pc₁
  ok (o ∷ os, pc₂)
