-- ===== src/Vm/Valid/Parts.antt =====
-- The operations on variables, heap and events keep the bounds.
use mathlib.Core.Option
use open_scm.Prelude.{
  ℕ, ◌+◌, ◌≡◌, suc, refl, ap, ltb, ◌==◌, get_elem?, replicate, length-set, Bool-cases, Bool, List,
  [], ◌∷◌, Option, none, some, arith, length, Option-cases, inl, inr,
}
use open_scm.Prelude.Text.{Text}
use open_scm.Vm.{Value, CallFrame, HeapObject, EventQueueItem, Vm, vars_max, local_vars_max}
use open_scm.Vm.Vars.{set_var_in, set_global, set_inner, set_var}
use open_scm.Vm.Vars.Laws.{length-set_var_in}
use open_scm.Vm.Heap.{heap_put, heap_insert, heap_alloc_typed}
use open_scm.Vm.Events.{
  bind_event, event_find, pop_event, run_handler, dispatch_item, queue_event_handler,
  dispatch_next_event,
}
use open_scm.Vm.Events.Queue.{IsRing}
use open_scm.Vm.Events.Registry.{bind_event-IsRegistry}
use open_scm.Vm.Valid.{IsValid}

set_global-IsValid :
    (vm : Vm) (name : Text) (x : Value) (vm' : Vm)
    → IsValid vm
    → set_global vm name x ≡ some vm'
    → IsValid vm'
unfolding set_global
set_global-IsValid vm name x vm' v h = elim (Option-cases (set_var_in vm.globals vars_max name x)) [
  | inl full ↦ ground arith
  | inr (t, made) ↦ ground (arith, length-set_var_in vm.globals vars_max name x t)
]

set_inner-IsValid :
    (frames : List CallFrame) (vm : Vm) (name : Text) (x : Value) (vm' : Vm)
    → vm.calls ≡ frames
    → IsValid vm
    → set_inner frames vm name x ≡ some vm'
    → IsValid vm'
unfolding set_inner
set_inner-IsValid [] vm name x vm' c v h = set_global-IsValid vm name x vm' v h
set_inner-IsValid (f ∷ frames) vm name x vm' c v h =
    elim (Option-cases (set_var_in f.locals local_vars_max name x)) [
      | inl full ↦ ground arith
      | inr (t, made) ↦ ground (arith, length-set_var_in f.locals local_vars_max name x t)
    ]

pub set_var-IsValid :
    (vm : Vm) (name : Text) (x : Value) {vm' : Vm}
    → IsValid vm
    → set_var vm name x ≡ some vm'
    → IsValid vm'
unfolding set_var
set_var-IsValid vm name x {vm'} v h =
    ground
      (arith, set_global-IsValid vm name x vm', set_inner-IsValid vm.calls vm name x vm' refl v)

-- A write whose failure is ignored.
pub set_var_or-IsValid :
    (vm : Vm) (name : Text) (x : Value)
    → IsValid vm
    → IsValid (Option.get_or (set_var vm name x) vm)
set_var_or-IsValid vm name x v = elim (Option-cases (set_var vm name x)) [
  | inl full ↦ rw full v
  | inr (vm', made) ↦ rw made (set_var-IsValid vm name x v made)
]

pub length-heap_put :
    (heap : List (Option HeapObject)) (ref : ℕ) (o : Option HeapObject)
    → length (heap_put heap ref o) ≡ length heap
unfolding heap_put
length-heap_put [] ref o = refl
length-heap_put (none ∷ heap) ref o = ap suc (length-heap_put heap ref o)
length-heap_put (some x ∷ heap) ref o = ground (arith, length-heap_put heap ref o)

length-heap_insert :
    (heap : List (Option HeapObject)) (o : HeapObject) (heap' : List (Option HeapObject))
    → heap_insert heap o ≡ some heap'
    → length heap' ≡ length heap
unfolding heap_insert
length-heap_insert [] o heap' h = ground arith
length-heap_insert (none ∷ heap) o heap' h = ground arith
length-heap_insert (some x ∷ heap) o heap' h = elim (Option-cases (heap_insert heap o)) [
  | inl full ↦ ground arith
  | inr (rest, made) ↦ ground (arith, length-heap_insert heap o rest made)
]

pub heap_alloc_typed-IsValid :
    (vm : Vm) (size elem : ℕ) (pinned : Bool) {ref : ℕ} {vm' : Vm}
    → IsValid vm
    → heap_alloc_typed vm size elem pinned ≡ some (ref, vm')
    → IsValid vm'
unfolding heap_alloc_typed
heap_alloc_typed-IsValid vm size elem pinned v h =
    let new : HeapObject = record {
      id = vm.next_ref;
      size = size;
      elem_size = elem;
      pinned = pinned;
      cells = replicate size 0;
    } in
    elim (Option-cases (heap_insert vm.heap new)) [
      | inl full ↦ ground arith
      | inr (heap, made) ↦ ground (arith, length-heap_insert vm.heap new heap made)
    ]

IsRing-of : {vm : Vm} → IsValid vm → IsRing vm
IsRing-of v = record { places = v.places; head_in = v.head_in; tail_in = v.tail_in }

pub bind_event-IsValid :
    (vm : Vm) (name : Text) (pc : ℕ) {vm' : Vm}
    → IsValid vm
    → bind_event vm name pc ≡ some vm'
    → IsValid vm'
unfolding bind_event
bind_event-IsValid vm name pc v h =
    let fits = bind_event-IsRegistry vm name pc v.registry h in ground (arith, fits)

pub queue_event_handler-IsValid :
    (vm : Vm) (name : Text) (index : ℕ) {vm' : Vm}
    → IsValid vm
    → queue_event_handler vm name index ≡ some vm'
    → IsValid vm'
unfolding queue_event_handler
queue_event_handler-IsValid vm name index v h =
    ground (
      arith,
      length-set vm.event_queue vm.event_tail (record { name = name; handler_index = index }),
    )

run_handler-IsValid :
    (vm : Vm) (name : Text) (handlers : List ℕ) (index pc : ℕ)
    → IsValid vm
    → IsValid (run_handler vm name handlers index pc)
unfolding run_handler
run_handler-IsValid vm name handlers index pc v =
    elim (Bool-cases (ltb (index + 1) (length handlers))) [
      | inl more ↦ elim (Option-cases (queue_event_handler vm name (index + 1))) [
        | inl full ↦ rw (more, full) v
        | inr (vm', made) ↦ rw (more, made) (queue_event_handler-IsValid vm name (index + 1) v made)
      ]
      | inr last ↦ rw last v
    ]

dispatch_item-IsValid :
    (item : EventQueueItem) (vm : Vm) → IsValid vm → IsValid (dispatch_item item vm).1
unfolding dispatch_item
dispatch_item-IsValid item vm v = elim (Option-cases (event_find vm.events item.name)) [
  | inl unknown ↦ rw (unknown, dispatch_item) v
  | inr (e, found) ↦ elim (Option-cases (get_elem? e.handlers item.handler_index)) [
    | inl past ↦ rw (found, dispatch_item, past) v
    | inr (pc, here) ↦
        rw (found, dispatch_item, here)
          (run_handler-IsValid vm item.name e.handlers item.handler_index pc v)
  ]
]

pop_event-IsValid : (vm : Vm) → IsValid vm → IsValid (pop_event vm).1
unfolding pop_event
pop_event-IsValid vm v = ground arith

pub dispatch_next_event-IsValid : (vm : Vm) → IsValid vm → IsValid (dispatch_next_event vm).1
unfolding dispatch_next_event
dispatch_next_event-IsValid vm v = elim (Bool-cases (vm.event_head == vm.event_tail)) [
  | inl e ↦ rw e v
  | inr e ↦ rw e (dispatch_item-IsValid (pop_event vm).0 (pop_event vm).1 (pop_event-IsValid vm v))
]
