-- ===== src/Parser/Bounds.antt =====
-- What the parser has checked of an instruction or an assignment.
use open_scm.Prelude.{
  ℕ, ◌%◌, ◌^◌, ◌≤◌, ◌≡◌, inl, inr, Bool, true, false, List, [], ◌∷◌, Option, some, map, arith,
  length, take, length-take, length-map, Option-cases, if◌then◌else◌,
}
use open_scm.Prelude.Text.{Text, IsCString, text_eq, codes}
use open_scm.Prelude.Result.{err-ne_ok, ok, err, >>=-eq-ok, ok-injective}
use open_scm.Opcode.{string_type, var_type}
use open_scm.Opcode.Table.{OpcodeInfo}
use open_scm.Opcode.Lookup.{opcode_from_scm_code, opcode_from_name}
use open_scm.Opcode.Arity.{Accepts, opcode_info-Accepts}
use open_scm.Vm.Floats.{FloatOps}
use open_scm.Compiler.{Operand}
use open_scm.Compiler.Encoding.{IsAssembled, AllAssembled}
use open_scm.Lexer.Tokens.{Token}
use open_scm.Lexer.Chars.{has}
use open_scm.Parser.Numbers.{strtol, is_number_token}
use open_scm.Parser.{
  unknown_opcode, Parsed, row_of, find_info, trim_colon, skip_colon, operand_of, assignment,
  instruction, instruction_or_assignment, gather, targets, callee, assigned,
}
use open_scm.Parser.Operands.{
  AllClean, trim_colon-IsCString, skip_colon-AllClean, take-AllClean, no_operand-IsAssembled,
  var-ne, string-ne, ParseFits, operand_of-IsAssembled, map-AllAssembled,
}

module _ (fl : FloatOps) (fits : ParseFits fl) where
  -- What is parsed of an instruction: a row that the machine knows, and at most eight operands,
  -- all of which can be written.
  pub record Good (p : Parsed fl) : Type 0 where
    pub row : OpcodeInfo
    pub known : Accepts p.info row
    pub operands_good : AllAssembled p.operands
    pub few : length p.operands ≤ 8

  if-Good : (b : Bool) (p q : Parsed fl) → Good p → Good q → Good (if b then p else q)
  if-Good true p q h k = h
  if-Good false p q h k = k

  short : (n : ℕ) (toks : List Token) → length (map (operand_of fl) (take n toks)) ≤ n
  short n toks = omega (arith, length-map (take n toks) (operand_of fl), length-take n toks)

  gather-Good :
      (op : Text) (info : OpcodeInfo) (row : OpcodeInfo) (toks : List Token)
      → Accepts info row
      → IsCString op
      → AllClean toks
      → Good (gather fl op info toks)
  unfolding gather
  gather-Good op info row toks known clean h =
      let rest = skip_colon toks in
      if-Good (callee fl info op) _ _
        (record {
          row = row;
          known = known;
          operands_good = (
            no_operand-IsAssembled string_type op string-ne clean,
            map-AllAssembled fl fits (take 7 rest)
                (take-AllClean 7 rest (skip_colon-AllClean toks h)),
          );
          few = omega (arith, short 7 rest);
        })
        (record {
          row = row;
          known = known;
          operands_good = map-AllAssembled fl fits (take 8 toks) (take-AllClean 8 toks h);
          few = short 8 toks;
        })

  row_of-known :
      (line : ℕ) (op name : Text) (info : OpcodeInfo)
      → row_of fl line op name ≡ ok info
      → (row : OpcodeInfo) × Accepts info row
  unfolding row_of
  row_of-known line op name info h = elim (Option-cases (opcode_from_name name)) [
    | inl e ↦ absurd (err-ne_ok (rw (e, row_of) at h))
    | inr (r, e) ↦
        rw (← ok-injective r info (rw (e, row_of) at h)) (opcode_info-Accepts 0 name r (inr e))
  ]

  looked_up-known :
      (by_code : Bool) (code : ℕ) (name : Text) (r : OpcodeInfo)
      → (if by_code then opcode_from_scm_code code else opcode_from_name name) ≡ some r
      → (row : OpcodeInfo) × Accepts r row
  looked_up-known true code name r e = opcode_info-Accepts code name r (inl e)
  looked_up-known false code name r e = opcode_info-Accepts code name r (inr e)

  fallback-known :
      (native : Bool) (line : ℕ) (op : Text) (info : OpcodeInfo)
      → (if native then row_of fl line op (codes "CALL_NATIVE") else err (unknown_opcode line op))
        ≡ ok info
      → (row : OpcodeInfo) × Accepts info row
  fallback-known true line op info h = row_of-known line op (codes "CALL_NATIVE") info h
  fallback-known false line op info h = absurd (err-ne_ok h)

  find_info-known :
      (line : ℕ) (op : Text) (info : OpcodeInfo)
      → find_info fl line op ≡ ok info
      → (row : OpcodeInfo) × Accepts info row
  unfolding find_info
  find_info-known line op info h =
      let code = strtol 16 op % 2 ^ 16 in
      let by_code = is_number_token op in
      let row : Option OpcodeInfo =
        if by_code then opcode_from_scm_code code else opcode_from_name op in
      elim (Option-cases row) [
        | inl e ↦ fallback-known (has b'.' op) line op info (rw (e, find_info) at h)
        | inr (r, e) ↦
            rw (← ok-injective r info (rw (e, find_info) at h))
              (looked_up-known by_code code op r e)
      ]

  instruction-Good :
      (line : ℕ) (first : Token) (toks : List Token) (p : Parsed fl)
      → AllClean (first ∷ toks)
      → instruction fl line first toks ≡ ok p
      → Good p
  unfolding instruction
  instruction-Good line first toks p clean h =
      let op = trim_colon first.text in
      let (info, found, done) = >>=-eq-ok (find_info fl line op) _ h in
      let (row, known) = find_info-known line op info found in
      rw (← ok-injective _ _ done) (
        gather-Good op info row (skip_colon toks) known (trim_colon-IsCString first.text clean.0)
          (skip_colon-AllClean toks clean.1))

  if-targets :
      (b : Bool) (xs ys : List Operand)
      → AllAssembled xs × (length xs ≤ 8)
      → AllAssembled ys × (length ys ≤ 8)
      → AllAssembled (if b then xs else ys) × (length (if b then xs else ys) ≤ 8)
  if-targets true xs ys h k = h
  if-targets false xs ys h k = k

  targets-Good :
      (name dst : Text) (value : Operand)
      → IsCString dst
      → IsAssembled value
      → AllAssembled (targets fl name dst value) × (length (targets fl name dst value) ≤ 8)
  targets-Good name dst value clean h =
      let target = no_operand-IsAssembled var_type dst var-ne clean in
      if-targets (text_eq name (codes "SET")) _ _ ((target, (h, tt)), omega arith)
        ((target, (target, (h, tt))), omega arith)

  assignment-Good :
      (line : ℕ) (name : Text) (dst value : Token) (left : List Token) (p : Parsed fl)
      → IsCString dst.text
      → IsCString value.text
      → assignment fl line name dst value left ≡ ok p
      → Good p
  unfolding assignment
  assignment-Good line name dst value left p clean h e =
      let (info, found, done) = >>=-eq-ok (row_of fl line dst.text name) _ e in
      let (row, known) = row_of-known line dst.text name info found in
      let good =
        targets-Good name dst.text (operand_of fl value) clean
          (operand_of-IsAssembled fl fits value.type value.text value.line value.column h) in
      rw (← ok-injective _ _ done)
        (record { row = row; known = known; operands_good = good.0; few = good.1 })

  pub instruction_or_assignment-Good :
      (line : ℕ) (first : Token) (toks : List Token) (p : Parsed fl)
      → AllClean (first ∷ toks)
      → instruction_or_assignment fl line first toks ≡ ok p
      → Good p
  unfolding instruction_or_assignment
  instruction_or_assignment-Good line first [] p clean h = instruction-Good line first [] p clean h
  instruction_or_assignment-Good line first (t ∷ []) p clean h =
      instruction-Good line first (t ∷ []) p clean h
  instruction_or_assignment-Good line first (sign ∷ value ∷ left) p clean h =
      elim (Option-cases (assigned fl sign.text)) [
        | inl e ↦
            instruction-Good line first (sign ∷ value ∷ left) p clean
              (rw (e, instruction_or_assignment) at h)
        | inr (name, e) ↦
            assignment-Good line name first value left p clean.0 clean.1.1.0
              (rw (e, instruction_or_assignment) at h)
      ]
