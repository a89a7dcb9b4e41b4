-- ===== src/Runtime/Console.antt =====
-- The functions of the built-in module `console` in runtime/scml_runtime_modules.c, which write the
-- escape sequences that instructions of the machine write as well. `stdout` is the machine's `out`.
use open_scm.Prelude.{
  ℕ, ◌≡◌, ◌⊎◌, refl, inl, inr, true, false, ◌||◌, List, [], ◌∷◌, ◌++◌, Option, none, some, ltb,
  if◌then◌else◌, length, get_elem?, Bool-cases,
}
use open_scm.Prelude.Text.{Text, codes}
use open_scm.Prelude.Word.{slt}
use open_scm.Prelude.Decimal.{print_int}
use open_scm.Vm.{Value, Vm}
use open_scm.Vm.Floats.{FloatOps}
use open_scm.Vm.Values.{value_to_int, value_to_cstr}
use open_scm.Vm.Decode.{DecOp}
use open_scm.Vm.Outcome.{Outcome, Failure, next, failed, fail_at}
use open_scm.Vm.Ops.{eval, eval_int, conclude, checked_int}
use open_scm.Vm.Ops.Hosted.{HostReply, no_reply}
use open_scm.Vm.Ops.Console.{
  write, csi, move_to, exec_console_color, exec_console_move, exec_console_style,
  exec_console_clear, exec_console_reset, exec_console_erase_line,
}

-- `*ret = 0` and the return of 1, after an output.
unfoldable pub printed : Vm → Text → HostReply
unfolding write
printed vm bytes = record { success = true; ret = Value.int 0; vm = write vm bytes }

module _ (fl : FloatOps) (vm : Vm) (args : List Value) where
  -- `runtime_checked_int_arg`, with bounds that are not negative.
  unfoldable pub checked_int_arg : ℕ → ℕ → ℕ → Option ℕ
  unfolding value_to_int
  checked_int_arg index low high = elim (get_elem? args index) [
    | none ↦ none
    | some v ↦ let x = value_to_int fl v in if slt x low || slt high x then none else some x
  ]

  -- The buffer is long enough for "%d" and "%g".
  unfoldable pub console_write : HostReply
  unfolding value_to_cstr printed
  console_write = elim (get_elem? args 0) [
    | none ↦ no_reply vm
    | some v ↦ printed vm (value_to_cstr fl v)
  ]

  unfoldable pub console_flush : HostReply
  unfolding printed
  console_flush = printed vm []

  unfoldable pub console_clear : HostReply
  unfolding printed
  console_clear = printed vm (csi (codes "2J") ++ csi (codes "H"))

  unfoldable pub console_home : HostReply
  unfolding printed
  console_home = printed vm (csi (codes "H"))

  unfoldable pub console_reset : HostReply
  unfolding printed
  console_reset = printed vm (csi (codes "0m"))

  unfoldable pub console_erase_line : HostReply
  unfolding printed
  console_erase_line = printed vm (csi (codes "2K"))

  abbrev foreground : ℕ → Text
  foreground fg = csi (codes "38;5;" ++ (print_int fg ++ codes "m"))

  abbrev background : ℕ → Text
  background bg = csi (codes "48;5;" ++ (print_int bg ++ codes "m"))

  unfoldable pub console_color : HostReply
  unfolding printed checked_int_arg
  console_color = elim (checked_int_arg 0 0 255) [
    | none ↦ no_reply vm
    | some fg ↦
        if ltb 1 (length args)
        then elim (checked_int_arg 1 0 255) [
          | none ↦ no_reply vm
          | some bg ↦ printed vm (foreground fg ++ background bg)
        ]
        else printed vm (foreground fg)
  ]

  unfoldable pub console_move : HostReply
  unfolding printed checked_int_arg move_to
  console_move = elim (checked_int_arg 0 1 9999) [
    | none ↦ no_reply vm
    | some row ↦ elim (checked_int_arg 1 1 9999) [
      | none ↦ no_reply vm
      | some col ↦ printed vm (move_to row col)
    ]
  ]

  unfoldable pub console_style : HostReply
  unfolding printed checked_int_arg
  console_style = elim (checked_int_arg 0 0 9) [
    | none ↦ no_reply vm
    | some style ↦ printed vm (csi (print_int style ++ codes "m"))
  ]

-- The function and the instruction do the same to the machine, or both fail and leave it.
abbrev pub Same : Vm → HostReply → Outcome → Type 0
Same vm r o =
    ((r.success ≡ true) × (o ≡ next r.vm))
    ⊎ ((r.success ≡ false) × (r.vm ≡ vm) × ((f : Failure) × (o ≡ failed f vm)))

module _ (fl : FloatOps) (pc : ℕ) (vm : Vm) (a b : DecOp) where
  style-Same : Same vm (console_style fl vm (eval vm a ∷ [])) (exec_console_style fl pc (a ∷ []) vm)
  unfolding console_style exec_console_style checked_int_arg checked_int conclude no_reply fail_at
      eval_int printed
  style-Same =
      elim (Bool-cases
        (slt (value_to_int fl (eval vm a)) 0 || slt 9 (value_to_int fl (eval vm a)))) [
          | inl e ↦ rw (console_style, checked_int_arg, e) (inr (refl, refl, (_, refl)))
          | inr e ↦ rw (console_style, checked_int_arg, e) (inl (refl, refl))
        ]

  move-Same :
      Same vm
        (console_move fl vm (eval vm a ∷ eval vm b ∷ []))
        (exec_console_move fl pc (a ∷ b ∷ []) vm)
  unfolding console_move exec_console_move checked_int_arg checked_int conclude no_reply fail_at
      eval_int printed
  move-Same =
      elim (Bool-cases
        (slt (value_to_int fl (eval vm a)) 1 || slt 9999 (value_to_int fl (eval vm a)))) [
          | inl e ↦ rw (console_move, checked_int_arg, e) (inr (refl, refl, (_, refl)))
          | inr e ↦
              elim (Bool-cases
                (slt (value_to_int fl (eval vm b)) 1 || slt 9999 (value_to_int fl (eval vm b)))) [
                  | inl e' ↦
                      rw (console_move, checked_int_arg, e, checked_int_arg, e')
                        (inr (refl, refl, (_, refl)))
                  | inr e' ↦
                      rw (console_move, checked_int_arg, e, checked_int_arg, e') (inl (refl, refl))
                ]
        ]

  color-Same : Same vm (console_color fl vm (eval vm a ∷ [])) (exec_console_color fl pc (a ∷ []) vm)
  unfolding console_color exec_console_color checked_int_arg checked_int conclude no_reply fail_at
      eval_int printed
  color-Same =
      elim (Bool-cases
        (slt (value_to_int fl (eval vm a)) 0 || slt 255 (value_to_int fl (eval vm a)))) [
          | inl e ↦ rw (console_color, checked_int_arg, e) (inr (refl, refl, (_, refl)))
          | inr e ↦ rw (console_color, checked_int_arg, e) (inl (refl, refl))
        ]

  colors-Same :
      Same vm
        (console_color fl vm (eval vm a ∷ eval vm b ∷ []))
        (exec_console_color fl pc (a ∷ b ∷ []) vm)
  unfolding console_color exec_console_color checked_int_arg checked_int conclude no_reply fail_at
      eval_int printed
  colors-Same =
      elim (Bool-cases
        (slt (value_to_int fl (eval vm a)) 0 || slt 255 (value_to_int fl (eval vm a)))) [
          | inl e ↦ rw (console_color, checked_int_arg, e) (inr (refl, refl, (_, refl)))
          | inr e ↦
              elim (Bool-cases
                (slt (value_to_int fl (eval vm b)) 0 || slt 255 (value_to_int fl (eval vm b)))) [
                  | inl e' ↦
                      rw (console_color, checked_int_arg, e, checked_int_arg, e')
                        (inr (refl, refl, (_, refl)))
                  | inr e' ↦
                      rw (console_color, checked_int_arg, e, checked_int_arg, e') (inl (refl, refl))
                ]
        ]

  plain-Same :
      (args : List Value) (ops : List DecOp)
      → Same vm (console_clear fl vm args) (exec_console_clear fl pc ops vm)
        × Same vm (console_reset fl vm args) (exec_console_reset fl pc ops vm)
        × Same vm (console_erase_line fl vm args) (exec_console_erase_line fl pc ops vm)
  unfolding console_clear exec_console_clear console_reset exec_console_reset console_erase_line
      exec_console_erase_line printed
  plain-Same args ops = (inl (refl, refl), inl (refl, refl), inl (refl, refl))

  -- The functions `color`, `move`, `style`, `clear`, `reset` and `erase_line` of the built-in
  -- module `console`, on the values of the operands of the CONSOLE_* instruction of that name
  -- (`color` on one or two), do the same as the instruction: both succeed with the same machine,
  -- or both fail and leave the machine as it was.
  pub console-Same :
      (args : List Value) (ops : List DecOp)
      → Same vm
          (console_color fl vm (eval vm a ∷ eval vm b ∷ []))
          (exec_console_color fl pc (a ∷ b ∷ []) vm)
        × Same vm (console_color fl vm (eval vm a ∷ [])) (exec_console_color fl pc (a ∷ []) vm)
        × Same vm
            (console_move fl vm (eval vm a ∷ eval vm b ∷ []))
            (exec_console_move fl pc (a ∷ b ∷ []) vm)
        × Same vm (console_style fl vm (eval vm a ∷ [])) (exec_console_style fl pc (a ∷ []) vm)
        × Same vm (console_clear fl vm args) (exec_console_clear fl pc ops vm)
        × Same vm (console_reset fl vm args) (exec_console_reset fl pc ops vm)
        × Same vm (console_erase_line fl vm args) (exec_console_erase_line fl pc ops vm)
  console-Same args ops =
      let (clear, reset, erase) = plain-Same args ops in
      (colors-Same, color-Same, move-Same, style-Same, clear, reset, erase)
