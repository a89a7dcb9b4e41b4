-- ===== src/Tests/Tables.antt =====
-- Variables and events.
use mathlib.Core.Option
use open_scm.Prelude.{
  ◌≡◌, ◌≢◌, ◌<◌, refl, List, [], ◌∷◌, ◌++◌, none, some, arith, if◌then◌else◌, set,
}
use open_scm.Prelude.Text.{Text, text_eq, codes}
use open_scm.Vm.{Value, Var, EventEntry, Vm, create}
use open_scm.Vm.Vars.{
  find_var_in, set_var_in, is_global_name, find_var, set_global, set_inner, set_var,
}
use open_scm.Vm.Values.{value_to_int}
use open_scm.Vm.Vars.Scope.{find_var-set_var}
use open_scm.Vm.Events.{
  event_find, bind_event, queue_event_handler, trigger_event, pop_event, dispatch_next_event,
}
use open_scm.Vm.Events.Queue.{
  IsRing, pending, queued, enqueue, queue_event_handler_refines, pop_event_refines,
}
use open_scm.Vm.Events.Registry.{
  handlers_of, IsRegistry, run_all, bind_event-handlers, trigger_event-run_all,
}
use open_scm.Vm.Events.Dispatch.{dispatch, Follows, dispatch_next_event_refines}
use open_scm.Vm.Ops.Hosted.{native_find, register_function}
use open_scm.Vm.Ops.Hosted.Registry.{native_find-register_function}
use open_scm.Vm.Api.{set_int, get_int}
use open_scm.Tests.Machine.{create-IsValid, whole_floats}

abbrev x_name : Text
x_name = codes "x"

abbrev y_name : Text
y_name = codes "y"

abbrev x_vars : List Var
x_vars = record { name = x_name; value = Value.int 3 } ∷ []

abbrev with_x : Vm
with_x = record create { globals = x_vars }

set_x : set_var create x_name (Value.int 3) ≡ some with_x
unfolding set_var set_inner set_global is_global_name create
set_x = refl

find_var-set_var_example :
    find_var with_x y_name
    ≡ (if text_eq x_name y_name then some (Value.int 3) else find_var create y_name)
find_var-set_var_example = find_var-set_var create x_name y_name (Value.int 3) set_x

x_fits : set_var_in [] 1 x_name (Value.int 3) ≡ some x_vars
unfolding set_var_in find_var_in
x_fits = refl

y_refused : set_var_in x_vars 1 y_name (Value.int 4) ≡ none
unfolding set_var_in find_var_in
y_refused = refl

-- A machine on which two handlers are bound to one event.
abbrev tick : Text
tick = codes "tick"

abbrev tick_entry : EventEntry
tick_entry = record { name = tick; handlers = 7 ∷ 9 ∷ [] }

abbrev ticking : Vm
ticking = record create { events = tick_entry ∷ [] }

create-IsRing : IsRing create
create-IsRing = record {
  places = create-IsValid.places;
  head_in = create-IsValid.head_in;
  tail_in = create-IsValid.tail_in;
}

ticking-IsRing : IsRing ticking
ticking-IsRing = record {
  places = create-IsValid.places;
  head_in = create-IsValid.head_in;
  tail_in = create-IsValid.tail_in;
}

queue_event_handler_refines_example :
    Option.map pending (queue_event_handler ticking tick 0)
    ≡ enqueue (pending ticking) (record { name = tick; handler_index = 0 })
queue_event_handler_refines_example = queue_event_handler_refines ticking tick 0 ticking-IsRing

abbrev triggered : Vm
triggered = record ticking {
  event_queue = set create.event_queue 0 (record { name = tick; handler_index = 0 });
  event_tail = 1;
}

ticking-triggered : trigger_event ticking tick ≡ some triggered
unfolding trigger_event queue_event_handler create
ticking-triggered = refl

triggered-IsRing : IsRing triggered
unfolding create
triggered-IsRing = record { places = refl; head_in = omega arith; tail_in = omega arith }

triggered-waiting : triggered.event_head ≢ triggered.event_tail
unfolding create
triggered-waiting e = absurd (omega arith)

pop_event_refines_example :
    (pending triggered ≡ (pop_event triggered).0 ∷ pending (pop_event triggered).1)
    × IsRing (pop_event triggered).1
    × (queued (pop_event triggered).1 < 255)
pop_event_refines_example = pop_event_refines triggered triggered-IsRing triggered-waiting

dispatch_next_event_refines_example :
    Follows triggered
      (dispatch triggered.events (pending triggered))
      (dispatch_next_event triggered)
dispatch_next_event_refines_example = dispatch_next_event_refines triggered triggered-IsRing

ticking-idle : pending ticking ≡ []
unfolding create
ticking-idle = refl

tick-found : event_find ticking.events tick ≡ some tick_entry
unfolding event_find
tick-found = refl

trigger_event-run_all_example : run_all 3 triggered ≡ 7 ∷ 9 ∷ []
trigger_event-run_all_example =
    trigger_event-run_all ticking tick tick_entry ticking-IsRing ticking-idle tick-found
      ticking-triggered

abbrev bound : Vm
bound = record ticking { events = record { name = tick; handlers = 7 ∷ 9 ∷ 11 ∷ [] } ∷ [] }

ticking-bound : bind_event ticking tick 11 ≡ some bound
unfolding bind_event event_find
ticking-bound = refl

bind_event-handlers_example : handlers_of bound.events tick ≡ (
    if text_eq tick tick
    then handlers_of ticking.events tick ++ 11 ∷ []
    else handlers_of ticking.events tick)
bind_event-handlers_example = bind_event-handlers ticking tick tick 11 ticking-bound

ticking-IsRegistry : IsRegistry ticking.events
ticking-IsRegistry = record { entries = omega arith; handlers = (omega arith, tt) }

set_int_x : set_int create x_name 3 ≡ some with_x
unfolding set_int set_var set_inner set_global is_global_name create
set_int_x = refl

get_int_x : get_int whole_floats with_x x_name ≡ some 3
unfolding get_int find_var find_var_in is_global_name value_to_int create
get_int_x = refl

abbrev with_beep : Vm
with_beep = record create { natives = record { name = codes "beep"; fn = 4; user_data = 0 } ∷ [] }

beep_registered : register_function create (codes "beep") 4 0 ≡ some with_beep
unfolding register_function native_find create
beep_registered = refl

native_find-register_function_example : native_find with_beep.natives x_name ≡ (
    if text_eq (codes "beep") x_name
    then some (record { name = codes "beep"; fn = 4; user_data = 0 })
    else native_find create.natives x_name)
native_find-register_function_example =
    native_find-register_function create (codes "beep") x_name 4 0 beep_registered
