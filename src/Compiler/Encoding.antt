-- ===== src/Compiler/Encoding.antt =====
-- The machine decodes what the compiler has written.
use open_scm.Prelude.{
  ℕ, ◌+◌, ◌-◌, ◌^◌, ◌<◌, ◌≡◌, ◌≢◌, refl, ap, false, List, [], ◌∷◌, ◌++◌, none, some, arith, ltb,
  length, length-append, Option-cases, inl, inr, take, drop, take-append, drop-append,
}
use mathlib.Core.List.{append_assoc}
use open_scm.Prelude.Text.{Text, IsCString, c_string_id}
use open_scm.Prelude.Result.{ok, ok-injective, reject_if-eq-ok, >>=-eq-ok, reject_if}
use open_scm.Bytes.{w8, w16, w32, r8}
use open_scm.Bytes.Laws.{r8_at, r16_at, r32_at, length-w8, length-w16, length-w32, length-w32_alone}
use open_scm.Opcode.{
  OperandType, tag, none_type, int_type, string_type, var_type, address_type, float_type,
}
use open_scm.Compiler.{
  Operand, LabelAddr, string_too_long, find_label, resolve_value, emit_text, emit_value,
  emit_operands,
}
use open_scm.Vm.Decode.{
  DecOp, absent, int, address, float, string, var, truncated_integer, truncated_float, DecodeError,
  decode_word, decode_text, decode_tagged, decode_operand, decode_operands,
}

-- A word after `pre` is decoded, and `pc` moves past it.
decode_word_at :
    (make : ℕ → DecOp) (e : DecodeError) (pre rest : List ℕ) (v pc : ℕ)
    → pc ≡ length pre
    → v < 2 ^ 32
    → decode_word make e (pre ++ (w32 v ++ rest)) pc ≡ ok (make v, pc + 4)
unfolding decode_word
decode_word_at make e pre rest v pc at_end small =
    rw (r32_at pre rest v pc at_end small)
      (ground (arith, length-append pre (w32 v ++ rest), length-w32 v rest))

bytes_before :
    (pre : List ℕ) (s : Text) (pc : ℕ) → pc ≡ length pre → pc + 2 ≡ length (pre ++ w16 (length s))
unfolding w16
bytes_before pre s pc at_end = omega (arith, length-append pre (w16 (length s)))

-- The bytes of a text behind its length.
text_bytes :
    (pre rest : List ℕ) (s : Text) (pc : ℕ)
    → pc ≡ length pre
    → take (length s) (drop (pc + 2) (pre ++ (w16 (length s) ++ (s ++ rest)))) ≡ s
text_bytes pre rest s pc at_end =
    rw
      (
        ← append_assoc pre (w16 (length s)) (s ++ rest),
        drop-append (pre ++ w16 (length s)) (s ++ rest) (pc + 2) (bytes_before pre s pc at_end),
      )
      (take-append s rest (length s) refl)

decode_text_at :
    (make : Text → DecOp) (pre rest : List ℕ) (s : Text) (pc : ℕ)
    → pc ≡ length pre
    → length s < 2 ^ 16
    → IsCString s
    → decode_text make (pre ++ (w16 (length s) ++ (s ++ rest))) pc
      ≡ ok (make s, pc + (2 + length s))
unfolding decode_text
decode_text_at make pre rest s pc at_end short clean =
    let code : List ℕ = pre ++ (w16 (length s) ++ (s ++ rest)) in
    let room : length code ≡ pc + (2 + length s) + length rest = omega (
      arith,
      length-append pre (w16 (length s) ++ (s ++ rest)),
      length-w16 (length s) (s ++ rest),
      length-append s rest,
    ) in
    rw
      (
        r16_at pre (s ++ rest) (length s) pc at_end short,
        text_bytes pre rest s pc at_end,
        c_string_id s clean,
      )
      (ground arith)

-- What an operand of the source is for the machine: a label is its address.
abbrev pub address_of : List LabelAddr → Text → ℕ
address_of labels name = elim (find_label labels name) [ none ↦ 0 | some a ↦ a ]

abbrev pub decoded_of : List LabelAddr → OperandType → Text → ℕ → ℕ → DecOp
decoded_of labels none_type text i r = absent
decoded_of labels int_type text i r = int i
decoded_of labels string_type text i r = string text
decoded_of labels var_type text i r = var text
decoded_of labels address_type text i r = address (address_of labels text)
decoded_of labels float_type text i r = float r

abbrev pub decoded : List LabelAddr → Operand → DecOp
decoded labels o = decoded_of labels o.type o.text o.integer o.real

-- What the parser makes: an operand of one of the five types, with 32-bit numbers and text that is
-- a C string.
pub record IsAssembled (o : Operand) : Type 0 where
  pub typed : o.type ≢ none_type
  pub integer_fits : o.integer < 2 ^ 32
  pub real_fits : o.real < 2 ^ 32
  pub text_clean : IsCString o.text

-- All addresses are `uint32_t`.
abbrev pub AddressesFit : List LabelAddr → Type 0
AddressesFit labels = (name : Text) (a : ℕ) → find_label labels name ≡ some a → a < 2 ^ 32

-- What stands at `pc`, behind the bytes `pre`, is decoded as `o`.
abbrev DecodesTo : DecOp → ℕ → List ℕ → List ℕ → List ℕ → Type 0
DecodesTo o t pre v rest =
    (pc : ℕ) → pc ≡ length pre → decode_tagged t (pre ++ (v ++ rest)) pc ≡ ok (o, pc + length v)

decode_word_tagged :
    (make : ℕ → DecOp) (e : DecodeError) (pre rest : List ℕ) (v : ℕ) (bytes : List ℕ) (pc : ℕ)
    → pc ≡ length pre
    → v < 2 ^ 32
    → w32 v ≡ bytes
    → decode_word make e (pre ++ (bytes ++ rest)) pc ≡ ok (make v, pc + length bytes)
decode_word_tagged make e pre rest v bytes pc at_end small same =
    rw (← same, length-w32_alone v) (decode_word_at make e pre rest v pc at_end small)

test-short : (n : ℕ) → ltb (2 ^ 16 - 1) n ≡ false → n < 2 ^ 16
test-short n h = ground arith

length-text_alone : (s : Text) → length (w16 (length s) ++ s) ≡ 2 + length s
unfolding w16
length-text_alone s = omega arith

decode_text_tagged :
    (make : Text → DecOp) (pre rest : List ℕ) (s : Text) (bytes : List ℕ) (pc : ℕ)
    → pc ≡ length pre
    → IsCString s
    → emit_text s ≡ ok bytes
    → decode_text make (pre ++ (bytes ++ rest)) pc ≡ ok (make s, pc + length bytes)
unfolding emit_text
decode_text_tagged make pre rest s bytes pc at_end clean h =
    let (u, short, done) =
      >>=-eq-ok (reject_if (ltb (2 ^ 16 - 1) (length s)) string_too_long) _ h in
    let fits : length s < 2 ^ 16 =
      test-short (length s) (reject_if-eq-ok (ltb (2 ^ 16 - 1) (length s)) string_too_long short) in
    rw (← ok-injective _ _ done, append_assoc (w16 (length s)) s rest, length-text_alone s)
      (decode_text_at make pre rest s pc at_end fits clean)

decode_value_at :
    (labels : List LabelAddr) (t : OperandType) (text : Text) (i r : ℕ) (v pre rest : List ℕ)
    → AddressesFit labels
    → IsAssembled (record { type = t; text = text; integer = i; real = r })
    → emit_value labels (record { type = t; text = text; integer = i; real = r }) ≡ ok v
    → DecodesTo (decoded_of labels t text i r) (tag t) pre v rest
unfolding emit_value decode_tagged tag resolve_value
decode_value_at labels none_type text i r v pre rest fits ok_o h pc at_end =
    absurd (ok_o.typed refl)
decode_value_at labels int_type text i r v pre rest fits ok_o h pc at_end =
    decode_word_tagged int truncated_integer pre rest i v pc at_end ok_o.integer_fits
      (ok-injective _ _ h)
decode_value_at labels string_type text i r v pre rest fits ok_o h pc at_end =
    decode_text_tagged string pre rest text v pc at_end ok_o.text_clean h
decode_value_at labels var_type text i r v pre rest fits ok_o h pc at_end =
    decode_text_tagged var pre rest text v pc at_end ok_o.text_clean h
decode_value_at labels address_type text i r v pre rest fits ok_o h pc at_end =
    elim (Option-cases (find_label labels text)) [
      | inl lost ↦ ground arith
      | inr (a, found) ↦
          rw (found, address_of)
            (decode_word_tagged address truncated_integer pre rest a v pc at_end (fits text a found)
              (ok-injective _ _ (rw (found, emit_value, resolve_value) at h)))
    ]
decode_value_at labels float_type text i r v pre rest fits ok_o h pc at_end =
    decode_word_tagged float truncated_float pre rest r v pc at_end ok_o.real_fits
      (ok-injective _ _ h)

-- The operands of a statement, one after the other.
unfoldable pub decoded_list : List LabelAddr → List Operand → List DecOp
decoded_list labels [] = []
decoded_list labels (o ∷ os) = decoded labels o ∷ decoded_list labels os

abbrev pub AllAssembled : List Operand → Type 0
AllAssembled [] = Unit
AllAssembled (o ∷ os) = IsAssembled o × AllAssembled os

decode_operand_step :
    (code : List ℕ) (pc t : ℕ)
    → pc < length code
    → r8 code pc ≡ t
    → decode_operand code pc ≡ decode_tagged t code (pc + 1)
unfolding decode_operand
decode_operand_step code pc t inside e = rw e (ground arith)

w8-tag : (t : OperandType) → w8 (tag t) ≡ tag t ∷ []
unfolding w8 tag
w8-tag none_type = refl
w8-tag _ = refl

decode_operand_at :
    (labels : List LabelAddr) (o : Operand) (v pre rest : List ℕ) (pc : ℕ)
    → AddressesFit labels
    → IsAssembled o
    → emit_value labels o ≡ ok v
    → pc ≡ length pre
    → decode_operand (pre ++ (w8 (tag o.type) ++ (v ++ rest))) pc
      ≡ ok (decoded labels o, pc + 1 + length v)
decode_operand_at labels o v pre rest pc fits good h at_end =
    let code : List ℕ = pre ++ (tag o.type ∷ (v ++ rest)) in
    rw
      (
        w8-tag o.type,
        decode_operand_step code pc (tag o.type)
            (omega (arith, length-append pre (tag o.type ∷ (v ++ rest))))
            (r8_at pre (tag o.type ∷ (v ++ rest)) pc at_end),
        ← append_assoc pre (tag o.type ∷ []) (v ++ rest),
      )
      (decode_value_at labels o.type o.text o.integer o.real v (pre ++ tag o.type ∷ []) rest fits
        good h (pc + 1) (omega (arith, length-append pre (tag o.type ∷ []))))

length-encoded :
    (t : OperandType) (v tail : List ℕ)
    → length (w8 (tag t) ++ (v ++ tail)) ≡ 1 + length v + length tail
length-encoded t v tail = omega (arith, length-w8 (tag t) (v ++ tail), length-append v tail)

-- With 32-bit addresses for all labels, the bytes of a list of operands that the parser makes,
-- wherever they stand in the code, are decoded as these operands, labels resolved, and `pc` ends
-- behind them.
pub decode_operands_at :
    (labels : List LabelAddr) (os : List Operand) (bytes pre rest : List ℕ) (pc : ℕ)
    → AddressesFit labels
    → AllAssembled os
    → emit_operands labels os ≡ ok bytes
    → pc ≡ length pre
    → decode_operands (length os) (pre ++ (bytes ++ rest)) pc
      ≡ ok (decoded_list labels os, pc + length bytes)
unfolding decode_operands emit_operands decoded_list
decode_operands_at labels [] bytes pre rest pc fits good h at_end =
    rw (← ok-injective _ _ h) (ap (λ n. ok ([], n)) (omega arith))
decode_operands_at labels (o ∷ os) bytes pre rest pc fits good h at_end =
    let (v, value, more) = >>=-eq-ok (emit_value labels o) _ h in
    let (tail, others, done) = >>=-eq-ok (emit_operands labels os) _ more in
    let front : List ℕ = w8 (tag o.type) in
    let code : List ℕ = pre ++ (front ++ (v ++ (tail ++ rest))) in
    let whole : pre ++ ((front ++ (v ++ tail)) ++ rest) ≡ code = simp append_assoc in
    let later : (pre ++ (front ++ v)) ++ (tail ++ rest) ≡ code = simp append_assoc in
    let first = decode_operand_at labels o v pre (tail ++ rest) pc fits good.0 value at_end in
    let others_at =
      decode_operands_at labels os tail (pre ++ (front ++ v)) rest (pc + 1 + length v) fits good.1
        others (omega (arith, length-append pre (front ++ v), length-w8 (tag o.type) v)) in
    rw (← ok-injective _ _ done, whole, first, rw later at others_at)
      (ap (λ n. ok (decoded labels o ∷ decoded_list labels os, n))
        (omega (arith, length-encoded o.type v tail)))
