-- ===== src/Debugger.antt =====
-- debugger/debugger.c: breakpoints, single steps, and running on to the next breakpoint. The
-- debugger holds the machine, of which no other part of the program is taken to change the state
-- between its calls. Null pointers are not modelled.
pub mod Continue
use mathlib.Core.Option
use open_scm.Prelude.{
  ℕ, zero, suc, ◌%◌, ◌^◌, Bool, true, false, ◌||◌, List, [], ◌∷◌, ◌++◌, Option, none, some, leb,
  ◌==◌, if◌then◌else◌, length,
}
use open_scm.Prelude.Text.{Text}
use open_scm.Vm.{Vm}
use open_scm.Vm.Floats.{FloatOps}
use open_scm.Vm.Outcome.{Outcome, Failure, next, ended, failed, undefined}
use open_scm.Vm.Ops.Hosted.{Host}
use open_scm.Vm.Api.{vm_find_label}
use open_scm.Vm.Step.{step}

-- SCML_DEBUGGER_MAX_BREAKPOINTS.
abbrev pub max_breakpoints : ℕ
max_breakpoints = 128

-- `ScmlDebugger`: the breakpoints in use.
pub record Debugger : Type 0 where
  pub vm : Vm
  pub breakpoints : List ℕ
  pub paused : Bool

unfoldable pub init : Vm → Debugger
init vm = record { vm = vm; breakpoints = []; paused = false }

-- `none` is a return of 0.
unfoldable pub add_pc_breakpoint : ℕ → Debugger → Option Debugger
add_pc_breakpoint pc d =
    if leb max_breakpoints (length d.breakpoints)
    then none
    else some (record d { breakpoints = d.breakpoints ++ pc ∷ [] })

unfoldable pub add_label_breakpoint : Text → Debugger → Option Debugger
unfolding vm_find_label add_pc_breakpoint
add_label_breakpoint label d = elim (vm_find_label d.vm label) [
  | none ↦ none
  | some pc ↦ add_pc_breakpoint pc d
]

-- The loop of `scml_debugger_is_breakpoint`.
unfoldable pub among : ℕ → List ℕ → Bool
among pc [] = false
among pc (b ∷ breakpoints) = b == pc || among pc breakpoints

-- The machine's `pc` is cast to a `uint32_t`.
unfoldable pub is_breakpoint : List ℕ → Vm → Bool
unfolding among
is_breakpoint breakpoints vm = among (vm.pc % 2 ^ 32) breakpoints

-- What a call returns: 1, 0, or -1 with a message; or the behaviour of the C program is undefined.
pub data Report : Type 0 where
  stopped over : Debugger → Report
  broken : Failure → Debugger → Report
  unknown : Report

module _ (host : Host) (fl : FloatOps) where
  unfoldable pub debug_step : Debugger → Report
  unfolding step is_breakpoint
  debug_step d = elim (step host fl d.vm) [
    | next vm' ↦ stopped (record d { vm = vm'; paused = is_breakpoint d.breakpoints vm' })
    | ended vm' ↦ over (record d { vm = vm'; paused = false })
    | failed f vm' ↦ broken f (record d { vm = vm'; paused = false })
    | undefined ↦ unknown
  ]

  -- The loop of `scml_debugger_continue`. `none`: more steps than the fuel allows.
  unfoldable pub debug_continue : ℕ → Debugger → Option Report
  unfolding step is_breakpoint
  debug_continue zero d = none
  debug_continue (suc fuel) d = elim (step host fl d.vm) [
    | next vm' ↦ elim (is_breakpoint d.breakpoints vm') [
      | true ↦ some (stopped (record d { vm = vm'; paused = true }))
      | false ↦ debug_continue fuel (record d { vm = vm'; paused = false })
    ]
    | ended vm' ↦ some (over (record d { vm = vm'; paused = false }))
    | failed f vm' ↦ some (broken f (record d { vm = vm'; paused = false }))
    | undefined ↦ some unknown
  ]
