-- ===== src/Vm/Events/Queue.antt =====
-- The ring of queued events is a queue of at most 255 items.
use mathlib.Core.Option
use open_scm.Prelude.{
  ℕ, zero, suc, ◌+◌, ◌-◌, ◌%◌, ◌<◌, ◌≡◌, ◌≢◌, refl, ap, ap₂, ◌∙◌, List, [], ◌∷◌, ◌++◌, Option, none,
  some, arith, ◌==◌, Bool-cases, inl, inr, if◌then◌else◌, length, set, get_or, length-set,
  get_or-set_self, get_or-set_ne,
}
use open_scm.Prelude.Text.{Text}
use open_scm.Vm.{EventQueueItem, Vm, event_queue_max}
use open_scm.Vm.Events.{next_index, no_item, queue_event_handler, pop_event}

-- The ring has its 256 places, and both indices point into it.
pub record IsRing (vm : Vm) : Type 0 where
  pub places : length vm.event_queue ≡ event_queue_max
  pub head_in : vm.event_head < event_queue_max
  pub tail_in : vm.event_tail < event_queue_max

-- The `n` items from index `h` on, going round.
abbrev pub window : List EventQueueItem → ℕ → ℕ → List EventQueueItem
window q h zero = []
window q h (suc n) = get_or q h no_item ∷ window q (next_index h) n

-- How many items are queued, as `scml_vm_dump_memory` prints it.
abbrev pub queued : Vm → ℕ
queued vm = (vm.event_tail + event_queue_max - vm.event_head) % event_queue_max

-- The queued events, next to run first.
abbrev pub pending : Vm → List EventQueueItem
pending vm = window vm.event_queue vm.event_head (queued vm)

pub length-window : (q : List EventQueueItem) (h n : ℕ) → length (window q h n) ≡ n
length-window q h zero = refl
length-window q h (suc n) = ap suc (length-window q (next_index h) n)

-- Writing just past a window extends it by that item.
window-set :
    (q : List EventQueueItem) (x : EventQueueItem) (n h i : ℕ)
    → length q ≡ event_queue_max
    → h < event_queue_max
    → n < event_queue_max
    → i ≡ (h + n) % event_queue_max
    → window (set q i x) h (suc n) ≡ window q h n ++ x ∷ []
window-set q x zero h i hq hh hn e =
    let e' : i ≡ h = omega arith in
    rw e' (ap (λ y. y ∷ []) (get_or-set_self q h x no_item (omega arith)))
window-set q x (suc n) h i hq hh hn e =
    ap₂ ◌∷◌ (get_or-set_ne q i h x no_item (omega arith))
      (window-set q x n (next_index h) i hq (omega arith) (omega arith) (omega arith))

-- What a queue of at most 255 items does with one more.
abbrev pub enqueue : List EventQueueItem → EventQueueItem → Option (List EventQueueItem)
enqueue q x = if length q == 255 then none else some (q ++ x ∷ [])

-- The ring after a write at its tail.
module _ (vm : Vm) (x : EventQueueItem) (v : IsRing vm) where
  pending-pushed :
      next_index vm.event_tail ≢ vm.event_head
      → window
          (set vm.event_queue vm.event_tail x)
          vm.event_head
          ((next_index vm.event_tail + event_queue_max - vm.event_head) % event_queue_max)
        ≡ pending vm ++ x ∷ []
  pending-pushed h =
      ap (window (set vm.event_queue vm.event_tail x) vm.event_head) {y = suc (queued vm)}
        (omega arith)
      ∙ window-set vm.event_queue x (queued vm) vm.event_head vm.event_tail v.places v.head_in
          (omega arith) (omega arith)

-- The test of the source finds out whether 255 items are queued.
full_test :
    (vm : Vm)
    → IsRing vm
    → (next_index vm.event_tail == vm.event_head) ≡ (length (pending vm) == 255)
full_test vm v = rw (length-window vm.event_queue vm.event_head (queued vm)) (ground arith)

-- On a machine whose queue is within its bounds, `queue_event_handler` adds an event at the end
-- of the pending ones, and fails just if 255 are pending.
pub queue_event_handler_refines :
    (vm : Vm) (name : Text) (index : ℕ)
    → IsRing vm
    → Option.map pending (queue_event_handler vm name index)
      ≡ enqueue (pending vm) (record { name = name; handler_index = index })
unfolding queue_event_handler
queue_event_handler_refines vm name index v =
    let x : EventQueueItem = record { name = name; handler_index = index } in
    rw (← full_test vm v) (elim (Bool-cases (next_index vm.event_tail == vm.event_head)) [
      | inl e ↦ rw e
      | inr e ↦ rw e (ap some (pending-pushed vm x v (ground arith)))
    ])

-- The ring stays a ring, whatever is queued.
pub queue_event_handler-IsRing :
    (vm : Vm) (name : Text) (index : ℕ) {vm' : Vm}
    → IsRing vm
    → queue_event_handler vm name index ≡ some vm'
    → IsRing vm'
unfolding queue_event_handler
queue_event_handler-IsRing vm name index v e =
    ground (
      arith,
      length-set vm.event_queue vm.event_tail (record { name = name; handler_index = index }),
    )

-- With a place free, this is the state after.
pub queue_event_handler_room :
    (vm : Vm) (name : Text) (index : ℕ)
    → IsRing vm
    → queued vm < 255
    → (vm' : Vm) × (queue_event_handler vm name index ≡ some vm')
      × (pending vm' ≡ pending vm ++ record { name = name; handler_index = index } ∷ [])
      × (vm'.events ≡ vm.events)
      × IsRing vm'
unfolding queue_event_handler
queue_event_handler_room vm name index v room =
    let x : EventQueueItem = record { name = name; handler_index = index } in
    (
      record vm {
        event_queue = set vm.event_queue vm.event_tail x;
        event_tail = next_index vm.event_tail;
      },
      ground arith,
      pending-pushed vm x v (omega arith),
      refl,
      record {
        places = length-set vm.event_queue vm.event_tail x ∙ v.places;
        head_in = v.head_in;
        tail_in = omega arith;
      },
    )

-- If the queue is within its bounds and not empty, the event at its head is the first of the
-- pending ones, the others stay pending in their order, and there is room for another.
pub pop_event_refines :
    (vm : Vm)
    → IsRing vm
    → vm.event_head ≢ vm.event_tail
    → (pending vm ≡ (pop_event vm).0 ∷ pending (pop_event vm).1)
      × IsRing (pop_event vm).1
      × (queued (pop_event vm).1 < 255)
unfolding pop_event
pop_event_refines vm v h = (
  ap (window vm.event_queue vm.event_head) {x = queued vm}
      {y = suc (queued (record vm { event_head = next_index vm.event_head }))} (omega arith),
  omega arith,
  omega arith,
)
