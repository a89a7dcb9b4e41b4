-- ===== src/Vm/Events/Dispatch.antt =====
-- Dispatching: which handler runs, and what becomes of the queue.
use mathlib.Core.Option
use open_scm.Prelude.{
  ℕ, ◌+◌, ◌<◌, ◌≡◌, refl, ap, ◌∙◌, sym, Bool, true, false, not, ◌&&◌, List, [], ◌∷◌, ◌++◌, Option,
  none, some, arith, ◌==◌, ltb, if◌then◌else◌, length, get_elem?, Bool-cases, Option-cases, inl,
  inr,
}
use mathlib.Core.List.{append-nil}
use open_scm.Prelude.Text.{Text}
use open_scm.Vm.{EventEntry, EventQueueItem, Vm}
use open_scm.Vm.Events.{event_find, pop_event, run_handler, dispatch_item, dispatch_next_event}
use open_scm.Vm.Events.Queue.{
  IsRing, queued, window, pending, pop_event_refines, queue_event_handler_room,
}

-- What goes back into the queue when the handler at `index` starts: the event for the next one.
abbrev pub requeued : Text → List ℕ → ℕ → List EventQueueItem
requeued name handlers index =
    if ltb (index + 1) (length handlers)
    then record { name = name; handler_index = index + 1 } ∷ []
    else []

-- The handler that an item asks for, with what goes back into the queue.
abbrev pub handler_of : List EventEntry → EventQueueItem → Option (ℕ × List EventQueueItem)
handler_of events item = elim (event_find events item.name) [
  | none ↦ none
  | some e ↦
      Option.map (λ pc. (pc, requeued item.name e.handlers item.handler_index))
        (get_elem? e.handlers item.handler_index)
]

-- Dispatching from a queue: the handler that starts, if any, and the queue after it.
abbrev pub dispatch : List EventEntry → List EventQueueItem → Option ℕ × List EventQueueItem
dispatch events [] = (none, [])
dispatch events (item ∷ rest) = elim (handler_of events item) [
  | none ↦ (none, rest)
  | some (pc, again) ↦ (some pc, rest ++ again)
]

abbrev pub is_some {ℓ} : {A : Type ℓ} → Option A → Bool
is_some none = false
is_some (some a) = true

-- What the machine must have done to `vm`, for the handler and the queue that were expected.
pub record Follows (vm : Vm) (want : Option ℕ × List EventQueueItem) (got : Bool × Vm)
    : Type 0 where
  pub ran : got.0 ≡ is_some want.0
  pub queue : pending got.1 ≡ want.1
  pub pc : got.1.pc ≡ Option.get_or want.0 vm.pc
  pub halted : got.1.halted ≡ (vm.halted && not got.0)
  pub events : got.1.events ≡ vm.events
  pub ring : IsRing got.1

-- With a place free the event does go back into the queue.
run_handler-Follows :
    (start vm : Vm) (name : Text) (handlers : List ℕ) (index pc : ℕ)
    → IsRing vm
    → queued vm < 255
    → vm.events ≡ start.events
    → Follows start
        (some pc, pending vm ++ requeued name handlers index)
        (true, run_handler vm name handlers index pc)
unfolding run_handler
run_handler-Follows start vm name handlers index pc v room e =
    elim (Bool-cases (ltb (index + 1) (length handlers))) [
      | inl more ↦
          let (vm', made, queue, events, ring) =
            queue_event_handler_room vm name (index + 1) v room in
          rw (more, made)
            (record {
              ran = refl;
              queue = queue;
              pc = refl;
              halted = ground arith;
              events = events ∙ e;
              ring = record {
                places = ring.places;
                head_in = ring.head_in;
                tail_in = ring.tail_in;
              };
            })
      | inr last ↦ rw last (record {
        ran = refl;
        queue = sym (append-nil (pending vm));
        pc = refl;
        halted = ground arith;
        events = e;
        ring = record { places = v.places; head_in = v.head_in; tail_in = v.tail_in };
      })
    ]

stays :
    (start vm : Vm)
    → IsRing vm
    → vm.events ≡ start.events
    → vm.pc ≡ start.pc
    → vm.halted ≡ start.halted
    → Follows start (none, pending vm) (false, vm)
stays start vm v e p h = record {
  ran = refl;
  queue = refl;
  pc = p;
  halted = ground arith;
  events = e;
  ring = v;
}

dispatch_item-Follows :
    (start vm : Vm) (item : EventQueueItem)
    → IsRing vm
    → queued vm < 255
    → vm.events ≡ start.events
    → vm.pc ≡ start.pc
    → vm.halted ≡ start.halted
    → Follows start (dispatch vm.events (item ∷ pending vm)) (dispatch_item item vm)
unfolding dispatch_item
dispatch_item-Follows start vm item v room e p h =
    elim (Option-cases (event_find vm.events item.name)) [
      | inl none_found ↦
          rw (none_found, dispatch_item, dispatch, handler_of) (stays start vm v e p h)
      | inr (entry, found) ↦ elim (Option-cases (get_elem? entry.handlers item.handler_index)) [
        | inl past ↦ rw (found, dispatch_item, dispatch, handler_of, past) (stays start vm v e p h)
        | inr (pc, here) ↦
            rw (found, dispatch_item, dispatch, handler_of, here)
              (run_handler-Follows start vm item.name entry.handlers item.handler_index pc v room e)
      ]
    ]

popped :
    (vm : Vm)
    → ((pop_event vm).1.events ≡ vm.events)
      × ((pop_event vm).1.pc ≡ vm.pc)
      × ((pop_event vm).1.halted ≡ vm.halted)
unfolding pop_event
popped vm = (refl, refl, refl)

-- On a machine whose queue is within its bounds, `dispatch_next_event` does to the pending events
-- what the queue of the abstract machine does: it takes the first event, starts the handler it
-- names if there is one, and puts the event for the next handler at the end if there is another;
-- the bound events stay.
pub dispatch_next_event_refines :
    (vm : Vm) → IsRing vm → Follows vm (dispatch vm.events (pending vm)) (dispatch_next_event vm)
unfolding dispatch_next_event
dispatch_next_event_refines vm v = elim (Bool-cases (vm.event_head == vm.event_tail)) [
  | inl e ↦
      let empty : queued vm ≡ 0 = ground arith in
      let nothing : pending vm ≡ [] = ap (window vm.event_queue vm.event_head) empty in
      rw (e, nothing)
        (record {
          ran = refl;
          queue = nothing;
          pc = refl;
          halted = ground arith;
          events = refl;
          ring = v;
        })
  | inr e ↦
      let (front, ring, room) = pop_event_refines vm v (ground arith) in
      rw (e, front)
        (dispatch_item-Follows vm (pop_event vm).1 (pop_event vm).0 ring room (popped vm).0
          (popped vm).1 (popped vm).2)
]
