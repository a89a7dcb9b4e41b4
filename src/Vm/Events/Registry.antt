-- ===== src/Vm/Events/Registry.antt =====
-- Binding handlers, and that a queued event reaches all of them in the order of binding.
use open_scm.Prelude.{
  ℕ, zero, suc, ◌+◌, ◌≤◌, ◌<◌, ◌≡◌, refl, ap, ◌∙◌, sym, List, [], ◌∷◌, ◌++◌, none, some, arith, ltb,
  if◌then◌else◌, length, get_elem?, drop, Bool-cases, Option-cases, inl, inr, subst, length-append,
}
use mathlib.Core.Option.{some-injective}
use open_scm.Prelude.Text.{Text, text_eq, text_eq_iff}
use open_scm.Vm.{EventEntry, EventQueueItem, Vm, events_max, event_handlers_max}
use open_scm.Vm.Events.{event_find, add_handler, bind_event, trigger_event, dispatch_next_event}
use open_scm.Vm.Events.Queue.{IsRing, pending, queued, length-window, queue_event_handler_room}
use open_scm.Vm.Events.Dispatch.{
  Follows, dispatch, handler_of, requeued, dispatch_next_event_refines,
}

-- The handlers of an event, none if it has never been bound.
abbrev pub handlers_of : List EventEntry → Text → List ℕ
handlers_of [] name = []
handlers_of (e ∷ events) name =
    let rest = handlers_of events name in if text_eq e.name name then e.handlers else rest

handlers_of-unbound :
    (events : List EventEntry) (name : Text)
    → event_find events name ≡ none
    → handlers_of events name ≡ []
unfolding event_find
handlers_of-unbound [] name h = refl
handlers_of-unbound (x ∷ events) name h = ground (arith, handlers_of-unbound events name)

handlers_of-add_handler :
    (events : List EventEntry) (name other : Text) (pc : ℕ) (e : EventEntry)
    → event_find events name ≡ some e
    → handlers_of (add_handler events name pc) other ≡ (
        if text_eq name other then handlers_of events name ++ pc ∷ [] else handlers_of events other)
unfolding event_find add_handler
handlers_of-add_handler [] name other pc e h = ground arith
handlers_of-add_handler (x ∷ events) name other pc e h = ground (
  arith,
  text_eq_iff x.name name,
  text_eq_iff x.name other,
  text_eq_iff name other,
  handlers_of-add_handler events name other pc e,
)

handlers_of-append :
    (events : List EventEntry) (name other : Text) (pc : ℕ)
    → event_find events name ≡ none
    → handlers_of (events ++ record { name = name; handlers = pc ∷ [] } ∷ []) other
      ≡ (if text_eq name other then pc ∷ [] else handlers_of events other)
unfolding event_find
handlers_of-append [] name other pc h = ground arith
handlers_of-append (x ∷ events) name other pc h = ground (
  arith,
  text_eq_iff x.name name,
  text_eq_iff x.name other,
  text_eq_iff name other,
  handlers_of-append events name other pc,
)

-- A handler that is bound to an event comes behind those that the event has, and the handlers of
-- all other events stay.
pub bind_event-handlers :
    (vm : Vm) (name other : Text) (pc : ℕ) {vm' : Vm}
    → bind_event vm name pc ≡ some vm'
    → handlers_of vm'.events other ≡ (
        if text_eq name other
        then handlers_of vm.events name ++ pc ∷ []
        else handlers_of vm.events other)
unfolding bind_event
bind_event-handlers vm name other pc h = elim (Option-cases (event_find vm.events name)) [
  | inl missing ↦ ground (
    arith,
    handlers_of-unbound vm.events name missing,
    handlers_of-append vm.events name other pc missing,
  )
  | inr (e, found) ↦ ground (arith, handlers_of-add_handler vm.events name other pc e found)
]

-- No event has more than 16 handlers, and there are at most 64 events.
abbrev pub HandlersFit : List EventEntry → Type 0
HandlersFit [] = Unit
HandlersFit (e ∷ events) = (length e.handlers ≤ event_handlers_max) × HandlersFit events

pub record IsRegistry (events : List EventEntry) : Type 0 where
  pub entries : length events ≤ events_max
  pub handlers : HandlersFit events

HandlersFit-append :
    (xs ys : List EventEntry) → HandlersFit xs → HandlersFit ys → HandlersFit (xs ++ ys)
HandlersFit-append [] ys h k = k
HandlersFit-append (x ∷ xs) ys h k = (h.0, HandlersFit-append xs ys h.1 k)

HandlersFit-add_handler :
    (events : List EventEntry) (name : Text) (pc : ℕ) (e : EventEntry)
    → event_find events name ≡ some e
    → length e.handlers < event_handlers_max
    → HandlersFit events
    → HandlersFit (add_handler events name pc)
      × (length (add_handler events name pc) ≡ length events)
unfolding event_find add_handler
HandlersFit-add_handler [] name pc e found room h = (tt, refl)
HandlersFit-add_handler (x ∷ events) name pc e found room h =
    ground (arith, length-append x.handlers (pc ∷ []), HandlersFit-add_handler events name pc e)

-- If the number of events and the number of handlers of each are within their arrays, they are so
-- after binding a handler.
pub bind_event-IsRegistry :
    (vm : Vm) (name : Text) (pc : ℕ) {vm' : Vm}
    → IsRegistry vm.events
    → bind_event vm name pc ≡ some vm'
    → IsRegistry vm'.events
unfolding bind_event
bind_event-IsRegistry vm name pc v h = elim (Option-cases (event_find vm.events name)) [
  | inl missing ↦ ground (
    arith,
    length-append vm.events (record { name = name; handlers = pc ∷ [] } ∷ []),
    HandlersFit-append vm.events (record { name = name; handlers = pc ∷ [] } ∷ []) v.handlers
        (omega arith, tt),
  )
  | inr (e, found) ↦ ground (arith, HandlersFit-add_handler vm.events name pc e found)
]

-- The addresses at which up to `k` dispatches in a row start, while the machine queues nothing.
pub run_all : ℕ → Vm → List ℕ
run_all zero vm = []
run_all (suc k) vm =
    let (ran, vm') = dispatch_next_event vm in
    let rest = run_all k vm' in if ran then vm'.pc ∷ rest else []

run_all-empty : (k : ℕ) (vm : Vm) → IsRing vm → pending vm ≡ [] → run_all k vm ≡ []
unfolding run_all
run_all-empty zero vm v none_left = refl
run_all-empty (suc k) vm v none_left =
    let after : Follows vm (none, []) (dispatch_next_event vm) =
      rw none_left at (dispatch_next_event_refines vm v) in
    rw after.ran

-- The front of what is left of a list.
drop-get_elem? :
    (xs : List ℕ) (i : ℕ)
    → drop i xs ≡ elim (get_elem? xs i) [ none ↦ [] | some x ↦ x ∷ drop (suc i) xs ]
drop-get_elem? [] zero = refl
drop-get_elem? [] (suc i) = refl
drop-get_elem? (x ∷ xs) zero = refl
drop-get_elem? (x ∷ xs) (suc i) = drop-get_elem? xs i

drop-none : (xs : List ℕ) (i : ℕ) → length xs ≤ i → drop i xs ≡ []
drop-none [] zero h = refl
drop-none [] (suc i) h = refl
drop-none (x ∷ xs) zero h = absurd (omega arith)
drop-none (x ∷ xs) (suc i) h = drop-none xs i (omega arith)

-- One dispatch, with one event queued.
module _ (vm : Vm) (name : Text) (i : ℕ) (e : EventEntry) (v : IsRing vm) where
  dispatch_past :
      event_find vm.events name ≡ some e
      → pending vm ≡ record { name = name; handler_index = i } ∷ []
      → get_elem? e.handlers i ≡ none
      → Follows vm (none, []) (dispatch_next_event vm)
  dispatch_past found only past =
      rw (only, found, dispatch, handler_of, past) at (dispatch_next_event_refines vm v)

  dispatch_here :
      (pc : ℕ)
      → event_find vm.events name ≡ some e
      → pending vm ≡ record { name = name; handler_index = i } ∷ []
      → get_elem? e.handlers i ≡ some pc
      → Follows vm (some pc, requeued name e.handlers i) (dispatch_next_event vm)
  dispatch_here pc found only here =
      rw (only, found, dispatch, handler_of, here) at (dispatch_next_event_refines vm v)

-- With one event queued, for its handler at `i`, the dispatches run the handlers from `i` on.
run_all-drop :
    (k : ℕ) (vm : Vm) (name : Text) (i : ℕ) (e : EventEntry)
    → IsRing vm
    → event_find vm.events name ≡ some e
    → pending vm ≡ record { name = name; handler_index = i } ∷ []
    → length e.handlers < i + k
    → run_all k vm ≡ drop i e.handlers
unfolding run_all
run_all-drop zero vm name i e v found only room = sym (drop-none e.handlers i (omega arith))
run_all-drop (suc k) vm name i e v found only room = elim (Option-cases (get_elem? e.handlers i)) [
  | inl past ↦
      rw ((dispatch_past vm name i e v found only past).ran, drop-get_elem? e.handlers i, past)
  | inr (pc, here) ↦
      let after = dispatch_here vm name i e v pc found only here in
      rw (after.ran, after.pc, drop-get_elem? e.handlers i, here)
        (ap (λ r. pc ∷ r)
          (elim (Bool-cases (ltb (i + 1) (length e.handlers))) [
            | inl more ↦
                run_all-drop k (dispatch_next_event vm).1 name (suc i) e after.ring
                  (rw after.events found) (after.queue ∙ ground arith) (omega arith)
            | inr last ↦
                run_all-empty k (dispatch_next_event vm).1 after.ring (after.queue ∙ ground arith)
                ∙ sym (drop-none e.handlers (suc i) (ground arith))
          ]))
]

-- On a machine whose queue is within its bounds and holds no events, an event that is triggered
-- runs all its handlers, in the order in which they were bound, each once, if events are
-- dispatched one after the other and nothing else is queued.
pub trigger_event-run_all :
    (vm : Vm) (name : Text) (e : EventEntry) {vm' : Vm}
    → IsRing vm
    → pending vm ≡ []
    → event_find vm.events name ≡ some e
    → trigger_event vm name ≡ some vm'
    → run_all (suc (length e.handlers)) vm' ≡ e.handlers
unfolding trigger_event
trigger_event-run_all vm name e {vm'} v none_left found h =
    let few : queued vm < 255 = omega (
      arith,
      length-window vm.event_queue vm.event_head (queued vm),
      ap (λ (q : List EventQueueItem). length q) none_left,
    ) in
    let (w, made, queue, events, ring) = queue_event_handler_room vm name 0 v few in
    let same : w ≡ vm' = some-injective _ _ (sym made ∙ h) in
    subst (λ x. run_all (suc (length e.handlers)) x ≡ e.handlers) same
      (run_all-drop (suc (length e.handlers)) w name 0 e ring (rw events found)
        (queue ∙ ap (λ q. q ++ record { name = name; handler_index = 0 } ∷ []) none_left)
        (omega arith))
