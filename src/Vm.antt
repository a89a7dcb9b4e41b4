-- ===== src/Vm.antt =====
-- vm/vm.h and vm/vm.c: the machine. This file holds its data; the children hold its operations.
-- A table that the source keeps as an array with a count is the list of the entries in use. The
-- heap and the event queue are arrays with holes, and keep their length. Memory that the source
-- allocates is taken to be there.
pub mod Floats
pub mod Values
pub mod Vars
pub mod Heap
pub mod Events
pub mod Decode
pub mod Outcome
pub mod Ops
pub mod Api
pub mod Step
pub mod Valid
use open_scm.Prelude.{ℕ, Bool, false, List, [], Option, none, replicate}
use open_scm.Prelude.Text.{Text}

abbrev pub stack_max : ℕ
stack_max = 1024

abbrev pub vars_max : ℕ
vars_max = 256

abbrev pub local_vars_max : ℕ
local_vars_max = 64

abbrev pub heap_objects_max : ℕ
heap_objects_max = 512

abbrev pub call_stack_max : ℕ
call_stack_max = 128

abbrev pub events_max : ℕ
events_max = 64

abbrev pub event_handlers_max : ℕ
event_handlers_max = 16

abbrev pub event_queue_max : ℕ
event_queue_max = 256

abbrev pub native_funcs_max : ℕ
native_funcs_max = 128

abbrev pub native_modules_max : ℕ
native_modules_max = 32

-- `ScmlValue`: the fields that its type makes meaningful. An integer is an `int32_t` as its bit
-- pattern, a float the 32 bits of the `float`.
pub data Value : Type 0 where
  int : ℕ → Value
  string : Text → Value
  float : ℕ → Value

pub record Var : Type 0 where
  pub name : Text
  pub value : Value

-- The `size` cells are bytes if `elem_size` is 1 and 32-bit words if it is 4: no other size is
-- asked for, and an object is read and written only by the size that it has.
pub record HeapObject : Type 0 where
  pub id : ℕ
  pub size : ℕ
  pub elem_size : ℕ
  pub pinned : Bool
  pub cells : List ℕ

-- `calls[call_depth - 1]` is the head of the list of frames.
pub record CallFrame : Type 0 where
  pub return_pc : ℕ
  pub locals : List Var

pub record EventEntry : Type 0 where
  pub name : Text
  pub handlers : List ℕ

pub record EventQueueItem : Type 0 where
  pub name : Text
  pub handler_index : ℕ

pub record LineEntry : Type 0 where
  pub pc : ℕ
  pub line : ℕ

pub record LabelEntry : Type 0 where
  pub name : Text
  pub pc : ℕ

-- A function pointer and a `void *` are numbers; what a function does is a parameter (`Host`).
pub record NativeFunc : Type 0 where
  pub name : Text
  pub fn : ℕ
  pub user_data : ℕ

pub record NativeModule : Type 0 where
  pub name : Text
  pub resolver : ℕ
  pub user_data : ℕ

-- `ScmlVM`. `code_size` is the length of `code`. A slot of the heap that is not active is `none`.
-- `out` is what has been written to `stdout`; the trace on `stderr` is left out.
pub record Vm : Type 0 where
  pub code : List ℕ
  pub pc : ℕ
  pub halted : Bool
  pub stack : List Value
  pub globals : List Var
  pub calls : List CallFrame
  pub heap : List (Option HeapObject)
  pub next_ref : ℕ
  pub events : List EventEntry
  pub event_queue : List EventQueueItem
  pub event_head : ℕ
  pub event_tail : ℕ
  pub lines : List LineEntry
  pub labels : List LabelEntry
  pub natives : List NativeFunc
  pub modules : List NativeModule
  pub out : List ℕ

-- `scml_vm_create`.
unfoldable pub create : Vm
create = record {
  code = [];
  pc = 0;
  halted = false;
  stack = [];
  globals = [];
  calls = [];
  heap = replicate heap_objects_max none;
  next_ref = 1;
  events = [];
  event_queue = replicate event_queue_max (record { name = []; handler_index = 0 });
  event_head = 0;
  event_tail = 0;
  lines = [];
  labels = [];
  natives = [];
  modules = [];
  out = [];
}
