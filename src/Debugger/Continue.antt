-- ===== src/Debugger/Continue.antt =====
-- Running on stops at the first breakpoint, and changes nothing of what the program does.
use open_scm.Prelude.{
  ℕ, zero, suc, ◌+◌, ◌≤◌, ◌<◌, ◌≡◌, refl, ap, ◌∙◌, Bool, true, false, List, Option, some, arith,
}
use mathlib.Core.Option
use open_scm.Vm.{Vm}
use open_scm.Vm.Floats.{FloatOps}
use open_scm.Vm.Outcome.{Outcome, next, ended, failed, undefined}
use open_scm.Vm.Ops.Hosted.{Host}
use open_scm.Vm.Step.{step, run}
use open_scm.Debugger.{
  Debugger, Report, stopped, over, broken, unknown, is_breakpoint, debug_continue,
}

stopped-injective :
    (a b : Debugger) → ◌≡◌ {A = Option Report} (some (stopped a)) (some (stopped b)) → a ≡ b
stopped-injective a b h = cc

module _ (host : Host) (fl : FloatOps) where
  -- `n` steps lead from the one machine to the other, and none of them to a breakpoint.
  abbrev pub Quiet : List ℕ → ℕ → Vm → Vm → Type 0
  Quiet bps zero vm vm' = vm ≡ vm'
  Quiet bps (suc n) vm vm'' =
      (vm' : Vm) × (step host fl vm ≡ next vm')
      × (is_breakpoint bps vm' ≡ false)
      × Quiet bps n vm' vm''

  -- If `n` steps lead to a machine without a stop at a breakpoint, and one more to a breakpoint,
  -- the debugger with more than `n` rounds to run stops there and pauses.
  pub debug_continue-reaches :
      (n fuel : ℕ) (vm vm' vm'' : Vm) (bps : List ℕ) (p : Bool)
      → n < fuel
      → Quiet bps n vm vm'
      → step host fl vm' ≡ next vm''
      → is_breakpoint bps vm'' ≡ true
      → debug_continue host fl fuel (record { vm = vm; breakpoints = bps; paused = p })
        ≡ some (stopped (record { vm = vm''; breakpoints = bps; paused = true }))
  unfolding debug_continue
  debug_continue-reaches n zero vm vm' vm'' bps p h q s b = absurd (omega arith)
  debug_continue-reaches zero (suc fuel) vm vm' vm'' bps p h q s b =
      rw (q, s, b, debug_continue) refl
  debug_continue-reaches (suc n) (suc fuel) vm vm' vm'' bps p h (vm₁, s₁, b₁, q) s b =
      rw (s₁, b₁, debug_continue)
        (debug_continue-reaches n fuel vm₁ vm' vm'' bps false (omega arith) q s b)

  -- Where a call that has returned 1 stands.
  abbrev pub First : List ℕ → Vm → Debugger → Type 0
  First bps vm d' =
      (n : ℕ) × (vm' : Vm) × Quiet bps n vm vm'
      × (step host fl vm' ≡ next d'.vm)
      × (is_breakpoint bps d'.vm ≡ true)
      × (d'.breakpoints ≡ bps)
      × (d'.paused ≡ true)

  First-next :
      (bps : List ℕ) (vm vm₁ : Vm) (d' : Debugger)
      → step host fl vm ≡ next vm₁
      → is_breakpoint bps vm₁ ≡ false
      → First bps vm₁ d'
      → First bps vm d'
  First-next bps vm vm₁ d' s b (n, vm', q, rest, at, kept, paused) =
      (suc n, vm', (vm₁, s, b, q), rest, at, kept, paused)

  -- What the loop does after a step, and at the machine that the step has led to.
  abbrev next_machine : ℕ → List ℕ → Vm → Bool → Option Report
  next_machine fuel bps vm' here = elim here [
    | true ↦ some (stopped (record { vm = vm'; breakpoints = bps; paused = true }))
    | false ↦ debug_continue host fl fuel (record { vm = vm'; breakpoints = bps; paused = false })
  ]

  abbrev after_step : ℕ → List ℕ → Outcome → Option Report
  after_step fuel bps o = elim o [
    | next vm' ↦ next_machine fuel bps vm' (is_breakpoint bps vm')
    | ended vm' ↦ some (over (record { vm = vm'; breakpoints = bps; paused = false }))
    | failed f vm' ↦ some (broken f (record { vm = vm'; breakpoints = bps; paused = false }))
    | undefined ↦ some unknown
  ]

  First-next_machine :
      (fuel : ℕ) (bps : List ℕ) (vm vm' : Vm) (d' : Debugger) (here : Bool)
      → step host fl vm ≡ next vm'
      → is_breakpoint bps vm' ≡ here
      → (debug_continue host fl fuel (record { vm = vm'; breakpoints = bps; paused = false })
            ≡ some (stopped d')
          → First bps vm' d')
      → next_machine fuel bps vm' here ≡ some (stopped d')
      → First bps vm d'
  First-next_machine fuel bps vm vm' d' true s b go h =
      rw (← stopped-injective _ d' h) (0, vm, refl, s, b, refl, refl)
  First-next_machine fuel bps vm vm' d' false s b go h = First-next bps vm vm' d' s b (go h)

  First-after_step :
      (fuel : ℕ) (bps : List ℕ) (vm : Vm) (d' : Debugger) (o : Outcome)
      → step host fl vm ≡ o
      → ((vm' : Vm)
          → debug_continue host fl fuel (record { vm = vm'; breakpoints = bps; paused = false })
            ≡ some (stopped d')
          → First bps vm' d')
      → after_step fuel bps o ≡ some (stopped d')
      → First bps vm d'
  First-after_step fuel bps vm d' (next vm') s go h =
      First-next_machine fuel bps vm vm' d' (is_breakpoint bps vm') s refl (go vm') h
  First-after_step fuel bps vm d' (ended vm') s go h = cc
  First-after_step fuel bps vm d' (failed f vm') s go h = cc
  First-after_step fuel bps vm d' undefined s go h = cc

  -- Where the debugger has stopped is the first breakpoint: the steps before the last have passed
  -- none, the last has led to one, and the debugger is paused with its breakpoints as they were.
  pub debug_continue-First :
      (fuel : ℕ) (vm : Vm) (bps : List ℕ) (p : Bool) (d' : Debugger)
      → debug_continue host fl fuel (record { vm = vm; breakpoints = bps; paused = p })
        ≡ some (stopped d')
      → First bps vm d'
  unfolding debug_continue
  debug_continue-First zero vm bps p d' h = cc
  debug_continue-First (suc fuel) vm bps p d' h =
      First-after_step fuel bps vm d' (step host fl vm) refl
        (λ vm' e. debug_continue-First fuel vm' bps false d' e) h

  -- What a report says of the run of the same machine without a debugger, `k` steps on.
  abbrev pub Undisturbed : ℕ → ℕ → Vm → Report → Type 0
  Undisturbed fuel k vm (stopped d') =
      (n : ℕ) × (n ≤ fuel) × (run host fl (n + k) vm ≡ run host fl k d'.vm)
  Undisturbed fuel k vm (over d') = run host fl fuel vm ≡ some (ended d'.vm)
  Undisturbed fuel k vm (broken f d') = run host fl fuel vm ≡ some (failed f d'.vm)
  Undisturbed fuel k vm unknown = run host fl fuel vm ≡ some undefined

  run-next :
      (fuel : ℕ) (vm vm' : Vm)
      → step host fl vm ≡ next vm'
      → run host fl (suc fuel) vm ≡ run host fl fuel vm'
  unfolding run
  run-next fuel vm vm' s = rw (s, run) refl

  Undisturbed-next :
      (fuel k : ℕ) (vm vm' : Vm) (r : Report)
      → step host fl vm ≡ next vm'
      → Undisturbed fuel k vm' r
      → Undisturbed (suc fuel) k vm r
  Undisturbed-next fuel k vm vm' (stopped d') s (n, le, same) = (
    suc n,
    omega (arith, le),
    ap (λ m. run host fl m vm) (omega arith) ∙ run-next (n + k) vm vm' s ∙ same,
  )
  Undisturbed-next fuel k vm vm' (over d') s h = run-next fuel vm vm' s ∙ h
  Undisturbed-next fuel k vm vm' (broken f d') s h = run-next fuel vm vm' s ∙ h
  Undisturbed-next fuel k vm vm' unknown s h = run-next fuel vm vm' s ∙ h

  Undisturbed-next_machine :
      (fuel k : ℕ) (bps : List ℕ) (vm vm' : Vm) (r : Report) (here : Bool)
      → step host fl vm ≡ next vm'
      → (debug_continue host fl fuel (record { vm = vm'; breakpoints = bps; paused = false })
            ≡ some r
          → Undisturbed fuel k vm' r)
      → next_machine fuel bps vm' here ≡ some r
      → Undisturbed (suc fuel) k vm r
  Undisturbed-next_machine fuel k bps vm vm' r true s go h =
      rw (← Option.some-injective _ r h)
        (1, omega arith, ap (λ m. run host fl m vm) (omega arith) ∙ run-next k vm vm' s)
  Undisturbed-next_machine fuel k bps vm vm' r false s go h =
      Undisturbed-next fuel k vm vm' r s (go h)

  Undisturbed-after_step :
      (fuel k : ℕ) (bps : List ℕ) (vm : Vm) (r : Report) (o : Outcome)
      → step host fl vm ≡ o
      → ((vm' : Vm)
          → debug_continue host fl fuel (record { vm = vm'; breakpoints = bps; paused = false })
            ≡ some r
          → Undisturbed fuel k vm' r)
      → after_step fuel bps o ≡ some r
      → Undisturbed (suc fuel) k vm r
  unfolding run
  Undisturbed-after_step fuel k bps vm r (next vm') s go h =
      Undisturbed-next_machine fuel k bps vm vm' r (is_breakpoint bps vm') s (go vm') h
  Undisturbed-after_step fuel k bps vm r (ended vm') s go h =
      rw (← Option.some-injective _ r h) (rw (s, run) refl)
  Undisturbed-after_step fuel k bps vm r (failed f vm') s go h =
      rw (← Option.some-injective _ r h) (rw (s, run) refl)
  Undisturbed-after_step fuel k bps vm r undefined s go h =
      rw (← Option.some-injective _ r h) (rw (s, run) refl)

  -- A debugger that runs on does not change what the program does: a run of the same machine
  -- without it ends as the report says, or comes after the same steps to the machine at which the
  -- debugger has stopped and goes on as from there.
  pub debug_continue-run :
      (fuel k : ℕ) (vm : Vm) (bps : List ℕ) (p : Bool) (r : Report)
      → debug_continue host fl fuel (record { vm = vm; breakpoints = bps; paused = p }) ≡ some r
      → Undisturbed fuel k vm r
  unfolding debug_continue
  debug_continue-run zero k vm bps p r h = cc
  debug_continue-run (suc fuel) k vm bps p r h =
      Undisturbed-after_step fuel k bps vm r (step host fl vm) refl
        (λ vm' e. debug_continue-run fuel k vm' bps false r e) h
