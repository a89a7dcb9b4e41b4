-- ===== src/Vm/Valid/Objects.antt =====
-- The instructions on heap objects and for output keep the bounds.
use open_scm.Prelude.{ℕ, ◌≡◌, refl, Bool, false, List, Option, none, some, arith}
use open_scm.Prelude.Word.{to_size}
use open_scm.Vm.{Value, HeapObject, Vm}
use open_scm.Vm.Floats.{FloatOps}
use open_scm.Vm.Heap.{heap_find, heap_alloc, heap_load_i32}
use open_scm.Vm.Decode.{DecOp}
use open_scm.Vm.Outcome.{Message, Outcome, next}
use open_scm.Vm.Ops.{arg, eval_int}
use open_scm.Vm.Ops.Objects.{
  put_object, with_object, update_object, give_ref, exec_heap_alloc, exec_free, exec_heap_store,
  exec_heap_load, exec_span_create, exec_span_pin, exec_span_fill, exec_span_write_u8,
  exec_span_read_u8, exec_array_len,
}
use open_scm.Vm.Ops.Console.{
  write, exec_print, exec_console_color, exec_console_move, exec_console_style, render_object,
  exec_render_span, dirty_objects, exec_render_span_dirty,
}
use open_scm.Vm.Valid.{IsValid, Keeps, next_keeps}
use open_scm.Vm.Valid.Parts.{length-heap_put, heap_alloc_typed-IsValid}
use open_scm.Vm.Valid.Handlers.{fail_at-Keeps, if-Keeps, assign-Keeps, conclude-Keeps}

-- A result that may be missing.
pub option-Keeps :
    {A : Type 0} (o : Option A) {x : Outcome} {k : A → Outcome}
    → Keeps x
    → ((a : A) → o ≡ some a → Keeps (k a))
    → Keeps (elim o [ none ↦ x | some a ↦ k a ])
option-Keeps none h hk = h
option-Keeps (some a) h hk = hk a refl

put_object-IsValid :
    (vm : Vm) (ref : ℕ) (o : Option HeapObject) → IsValid vm → IsValid (put_object vm ref o)
unfolding put_object
put_object-IsValid vm ref o v = ground (arith, length-heap_put vm.heap ref o)

module _ (pc : ℕ) (vm : Vm) (v : IsValid vm) where
  with_object-Keeps :
      (m : Message) (ref : ℕ) {k : HeapObject → Outcome}
      → ((o : HeapObject) → Keeps (k o))
      → Keeps (with_object pc m vm ref k)
  unfolding with_object
  with_object-Keeps m ref h =
      option-Keeps (heap_find vm.heap ref) (fail_at-Keeps pc m vm v) (λ o found. h o)

  update_object-Keeps :
      (m : Message) (ref : ℕ) (o : Option HeapObject) → Keeps (update_object pc m vm ref o)
  unfolding update_object
  update_object-Keeps m ref none = fail_at-Keeps pc m vm v
  update_object-Keeps m ref (some o) = next_keeps _ (put_object-IsValid vm ref (some o) v)

  give_ref-Keeps :
      (m : Message) (d : DecOp) (r : Option (ℕ × Vm))
      → ((ref : ℕ) (vm' : Vm) → r ≡ some (ref, vm') → IsValid vm')
      → Keeps (give_ref pc m vm d r)
  unfolding give_ref
  give_ref-Keeps m d none h = fail_at-Keeps pc m vm v
  give_ref-Keeps m d (some (ref, vm')) h = assign-Keeps vm' d _ (h ref vm' refl)

  pub write-Keeps : (bytes : List ℕ) → Keeps (next (write vm bytes))
  unfolding write
  write-Keeps bytes = next_keeps _ v

  module _ (fl : FloatOps) (ops : List DecOp) where
    pub exec_heap_alloc-Keeps : Keeps (exec_heap_alloc fl pc ops vm)
    unfolding exec_heap_alloc heap_alloc
    exec_heap_alloc-Keeps = if-Keeps _ (fail_at-Keeps pc _ vm v) (
        give_ref-Keeps _ _ _
          (λ ref vm' h. heap_alloc_typed-IsValid vm (eval_int fl vm (arg ops 0)) 4 false v h))

    pub exec_span_create-Keeps : Keeps (exec_span_create fl pc ops vm)
    unfolding exec_span_create
    exec_span_create-Keeps =
        if-Keeps _ (fail_at-Keeps pc _ vm v)
          (give_ref-Keeps _ _ _ (λ ref vm' h. heap_alloc_typed-IsValid vm _ _ _ v h))

    pub exec_free-Keeps : Keeps (exec_free fl pc ops vm)
    unfolding exec_free
    exec_free-Keeps = next_keeps _ (put_object-IsValid vm _ none v)

    pub exec_heap_store-Keeps : Keeps (exec_heap_store fl pc ops vm)
    unfolding exec_heap_store
    exec_heap_store-Keeps = with_object-Keeps _ _ (λ o. update_object-Keeps _ _ _)

    pub exec_heap_load-Keeps : Keeps (exec_heap_load fl pc ops vm)
    unfolding exec_heap_load
    exec_heap_load-Keeps = with_object-Keeps _ _ (λ o.
        option-Keeps (heap_load_i32 o (to_size (eval_int fl vm (arg ops 2))))
          (fail_at-Keeps pc _ vm v) (λ x read. assign-Keeps vm (arg ops 0) (Value.int x) v))

    pub exec_span_pin-Keeps : Keeps (exec_span_pin fl pc ops vm)
    unfolding exec_span_pin
    exec_span_pin-Keeps = with_object-Keeps _ _ (λ o. next_keeps _ (put_object-IsValid vm _ _ v))

    pub exec_span_fill-Keeps : Keeps (exec_span_fill fl pc ops vm)
    unfolding exec_span_fill
    exec_span_fill-Keeps =
        if-Keeps _ (fail_at-Keeps pc _ vm v)
          (with_object-Keeps _ _ (λ o. update_object-Keeps _ _ _))

    pub exec_span_write_u8-Keeps : Keeps (exec_span_write_u8 fl pc ops vm)
    unfolding exec_span_write_u8
    exec_span_write_u8-Keeps =
        with_object-Keeps _ _
          (λ o. if-Keeps _ (fail_at-Keeps pc _ vm v) (next_keeps _ (put_object-IsValid vm _ _ v)))

    pub exec_span_read_u8-Keeps : Keeps (exec_span_read_u8 fl pc ops vm)
    unfolding exec_span_read_u8
    exec_span_read_u8-Keeps =
        with_object-Keeps _ _ (λ o. if-Keeps _ (fail_at-Keeps pc _ vm v) (assign-Keeps vm _ _ v))

    pub exec_array_len-Keeps : Keeps (exec_array_len fl pc ops vm)
    unfolding exec_array_len
    exec_array_len-Keeps = assign-Keeps vm _ _ v

    pub exec_print-Keeps : (raw : Bool) → Keeps (exec_print fl pc ops vm raw)
    unfolding exec_print
    exec_print-Keeps raw = write-Keeps _

    pub exec_console_color-Keeps : Keeps (exec_console_color fl pc ops vm)
    unfolding exec_console_color
    exec_console_color-Keeps =
        conclude-Keeps pc vm _ v
          (λ fg. if-Keeps _ (conclude-Keeps pc vm _ v (λ bg. write-Keeps _)) (write-Keeps _))

    pub exec_console_move-Keeps : Keeps (exec_console_move fl pc ops vm)
    unfolding exec_console_move
    exec_console_move-Keeps =
        conclude-Keeps pc vm _ v (λ row. conclude-Keeps pc vm _ v (λ col. write-Keeps _))

    pub exec_console_style-Keeps : Keeps (exec_console_style fl pc ops vm)
    unfolding exec_console_style
    exec_console_style-Keeps = conclude-Keeps pc vm _ v (λ style. write-Keeps _)

    render_object-Keeps :
        (width height : ℕ) (o : Option HeapObject)
        → Keeps (render_object fl pc ops vm width height o)
    unfolding render_object
    render_object-Keeps width height none = fail_at-Keeps pc _ vm v
    render_object-Keeps width height (some o) = if-Keeps _ (fail_at-Keeps pc _ vm v) (write-Keeps _)

    pub exec_render_span-Keeps : Keeps (exec_render_span fl pc ops vm)
    unfolding exec_render_span
    exec_render_span-Keeps = render_object-Keeps _ _ _

    dirty_objects-Keeps :
        (ref width height : ℕ) (current previous : HeapObject)
        → Keeps (dirty_objects fl pc ops vm ref width height current previous)
    unfolding dirty_objects write put_object
    dirty_objects-Keeps ref width height current previous =
        if-Keeps _ (fail_at-Keeps pc _ vm v) (next_keeps _ (put_object-IsValid vm ref _ v))

    pub exec_render_span_dirty-Keeps : Keeps (exec_render_span_dirty fl pc ops vm)
    unfolding exec_render_span_dirty
    exec_render_span_dirty-Keeps =
        option-Keeps (heap_find vm.heap (eval_int fl vm (arg ops 0))) (fail_at-Keeps pc _ vm v)
          (λ current there.
            option-Keeps (heap_find vm.heap (eval_int fl vm (arg ops 1))) (fail_at-Keeps pc _ vm v)
              (λ previous here. dirty_objects-Keeps _ _ _ current previous))
