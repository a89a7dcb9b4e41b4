-- ===== src/Vm/Events.antt =====
-- The events of vm/vm.c: a registry of handlers by name, and a queue of events in a ring.
pub mod Queue
pub mod Registry
pub mod Dispatch
use mathlib.Core.Option
use open_scm.Prelude.{
  ℕ, ◌+◌, ◌%◌, Bool, true, false, List, [], ◌∷◌, ◌++◌, Option, none, some, ◌==◌, ltb, leb,
  if◌then◌else◌, length, set, get_or, get_elem?,
}
use open_scm.Prelude.Text.{Text, text_eq}
use open_scm.Vm.{EventEntry, EventQueueItem, Vm, events_max, event_handlers_max, event_queue_max}

-- `event_find` with `create` off.
unfoldable pub event_find : List EventEntry → Text → Option EventEntry
event_find [] name = none
event_find (e ∷ events) name =
    let rest = event_find events name in if text_eq e.name name then some e else rest

-- The first entry of that name gets one more handler.
unfoldable pub add_handler : List EventEntry → Text → ℕ → List EventEntry
add_handler [] name pc = []
add_handler (e ∷ events) name pc =
    let rest = e ∷ add_handler events name pc in
    if text_eq e.name name then record e { handlers = e.handlers ++ pc ∷ [] } ∷ events else rest

-- `scml_vm_bind_event`. `none` is a return of 0, which changes nothing.
unfoldable pub bind_event : Vm → Text → ℕ → Option Vm
unfolding event_find add_handler
bind_event vm name pc = elim (event_find vm.events name) [
  | some e ↦
      if leb event_handlers_max (length e.handlers)
      then none
      else some (record vm { events = add_handler vm.events name pc })
  | none ↦
      if leb events_max (length vm.events)
      then none
      else some
          (record vm { events = vm.events ++ record { name = name; handlers = pc ∷ [] } ∷ [] })
]

abbrev pub next_index : ℕ → ℕ
next_index i = (i + 1) % event_queue_max

-- `queue_event_handler`. `none` is a return of 0: the ring is full.
unfoldable pub queue_event_handler : Vm → Text → ℕ → Option Vm
queue_event_handler vm name index =
    if next_index vm.event_tail == vm.event_head
    then none
    else some (record vm {
      event_queue =
          set vm.event_queue vm.event_tail (record { name = name; handler_index = index });
      event_tail = next_index vm.event_tail;
    })

-- `scml_vm_trigger_event`, which queues the event for its first handler.
unfoldable pub trigger_event : Vm → Text → Option Vm
unfolding queue_event_handler
trigger_event vm name = queue_event_handler vm name 0

abbrev no_item : EventQueueItem
no_item = record { name = []; handler_index = 0 }

-- The item at the head is taken out of the ring.
unfoldable pub pop_event : Vm → EventQueueItem × Vm
pop_event vm = (
  get_or vm.event_queue vm.event_head no_item,
  record vm { event_head = next_index vm.event_head },
)

-- The handler at `index` runs next, and the event goes back into the queue for the handler after
-- it, if there is one. The source does not look at whether there was room.
unfoldable pub run_handler : Vm → Text → List ℕ → ℕ → ℕ → Vm
unfolding queue_event_handler
run_handler vm name handlers index pc =
    let requeued =
      if ltb (index + 1) (length handlers)
      then Option.get_or (queue_event_handler vm name (index + 1)) vm
      else vm in
    record requeued { pc = pc; halted = false }

-- `dispatch_next_event`: whether a handler was found, and the new state.
unfoldable pub dispatch_item : EventQueueItem → Vm → Bool × Vm
unfolding event_find run_handler
dispatch_item item vm = elim (event_find vm.events item.name) [
  | none ↦ (false, vm)
  | some e ↦ elim (get_elem? e.handlers item.handler_index) [
    | none ↦ (false, vm)
    | some pc ↦ (true, run_handler vm item.name e.handlers item.handler_index pc)
  ]
]

unfoldable pub dispatch_next_event : Vm → Bool × Vm
unfolding dispatch_item pop_event
dispatch_next_event vm =
    if vm.event_head == vm.event_tail
    then (false, vm)
    else let (item, popped) = pop_event vm in dispatch_item item popped

-- `scml_vm_clear_events`.
unfoldable pub clear_events : Vm → Vm
clear_events vm = record vm { events = []; event_head = 0; event_tail = 0 }
