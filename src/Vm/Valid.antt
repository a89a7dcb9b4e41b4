-- ===== src/Vm/Valid.antt =====
-- The bounds of the machine's tables, which every instruction keeps (`Keeps`).
pub mod Parts
pub mod Handlers
pub mod Objects
pub mod Assign
pub mod Hosted
pub mod Steps
use open_scm.Prelude.{ℕ, ◌≤◌, ◌<◌, ◌≡◌, List, [], ◌∷◌, Option, length}
use open_scm.Vm.{
  Value, Var, CallFrame, HeapObject, EventEntry, EventQueueItem, NativeFunc, NativeModule, Vm,
  stack_max, vars_max, local_vars_max, heap_objects_max, call_stack_max, event_queue_max,
  native_funcs_max, native_modules_max,
}
use open_scm.Vm.Events.Registry.{IsRegistry}
use open_scm.Vm.Outcome.{Failure, Outcome, next, ended, failed, undefined}
use open_scm.Vm.Ops.Hosted.{Host}

-- No frame has more locals than its array holds.
abbrev pub FramesFit : List CallFrame → Type 0
FramesFit [] = Unit
FramesFit (f ∷ frames) = (length f.locals ≤ local_vars_max) × FramesFit frames

-- Over the parts of the state, so that an update of another part changes nothing here.
pub record Bounded (stack : List Value) (globals : List Var) (calls : List CallFrame)
    (heap : List (Option HeapObject)) (events : List EventEntry) (event_queue : List EventQueueItem)
    (event_head event_tail : ℕ) (natives : List NativeFunc) (modules : List NativeModule)
    : Type 0 where
  pub stack_fits : length stack ≤ stack_max
  pub globals_fit : length globals ≤ vars_max
  pub calls_fit : length calls ≤ call_stack_max
  pub frames_fit : FramesFit calls
  pub heap_size : length heap ≡ heap_objects_max
  pub registry : IsRegistry events
  pub places : length event_queue ≡ event_queue_max
  pub head_in : event_head < event_queue_max
  pub tail_in : event_tail < event_queue_max
  pub natives_fit : length natives ≤ native_funcs_max
  pub modules_fit : length modules ≤ native_modules_max

abbrev pub IsValid : Vm → Type 0
IsValid vm =
    Bounded vm.stack vm.globals vm.calls vm.heap vm.events vm.event_queue vm.event_head
      vm.event_tail vm.natives vm.modules

-- The machine that is left, however the instruction ends.
pub data Keeps : Outcome → Type 0 where
  next_keeps : (vm : Vm) → IsValid vm → Keeps (next vm)
  ended_keeps : (vm : Vm) → IsValid vm → Keeps (ended vm)
  failed_keeps : (f : Failure) (vm : Vm) → IsValid vm → Keeps (failed f vm)
  undefined_keeps : Keeps undefined

-- Host functions use the machine through its interface, which keeps the bounds.
pub record HostKeeps (host : Host) : Type 0 where
  pub call_keeps :
      (fn user : ℕ) (vm : Vm) (args : List Value)
      → IsValid vm
      → IsValid (host.call fn user vm args).vm
  pub resolve_keeps :
      (resolver user : ℕ) (vm : Vm) (name : List ℕ) (args : List Value)
      → IsValid vm
      → IsValid (host.resolve resolver user vm name args).vm
