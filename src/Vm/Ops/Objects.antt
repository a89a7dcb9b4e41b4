-- ===== src/Vm/Ops/Objects.antt =====
-- Heap objects: arrays of integers and spans of bytes.
use open_scm.Prelude.{
  ℕ, ◌%◌, ◌^◌, true, false, not, ◌||◌, List, Option, none, some, ◌==◌, ltb, leb, if◌then◌else◌,
  get_or, set,
}
use open_scm.Prelude.Word.{is_neg, to_size}
use open_scm.Vm.{Value, HeapObject, Vm}
use open_scm.Vm.Floats.{FloatOps}
use open_scm.Vm.Heap.{
  heap_find, heap_put, heap_alloc_typed, heap_alloc, heap_fill, heap_store_i32, heap_load_i32,
}
use open_scm.Vm.Decode.{DecOp}
use open_scm.Vm.Outcome.{
  Message, negative_heap_size, heap_allocation_failed, heap_write_out_of_range,
  heap_read_out_of_range, negative_span_size, span_allocation_failed, span_pin_invalid,
  span_fill_out_of_range, span_write_out_of_range, span_read_out_of_range, Outcome, next, fail_at,
}
use open_scm.Vm.Ops.{arg, eval_int, assign}

-- The object with that number becomes `o`.
unfoldable pub put_object : Vm → ℕ → Option HeapObject → Vm
put_object vm ref o = record vm { heap = heap_put vm.heap ref o }

-- What is done with the object that a reference names, and the message if there is none.
unfoldable pub with_object : ℕ → Message → Vm → ℕ → (HeapObject → Outcome) → Outcome
with_object pc message vm ref k = elim (heap_find vm.heap ref) [
  | none ↦ fail_at pc message vm
  | some o ↦ k o
]

-- An update of an object that may be refused.
unfoldable pub update_object : ℕ → Message → Vm → ℕ → Option HeapObject → Outcome
update_object pc message vm ref none = fail_at pc message vm
update_object pc message vm ref (some o) = next (put_object vm ref (some o))

-- The number of a new object goes into a variable.
unfoldable pub give_ref : ℕ → Message → Vm → DecOp → Option (ℕ × Vm) → Outcome
give_ref pc message vm o none = fail_at pc message vm
give_ref pc message vm o (some (ref, vm')) = assign vm' o (Value.int ref)

module _ (fl : FloatOps) (pc : ℕ) (ops : List DecOp) (vm : Vm) where
  -- ALLOC and ARRAY_CREATE.
  unfoldable pub exec_heap_alloc : Outcome
  exec_heap_alloc =
      let count = eval_int fl vm (arg ops 0) in
      if is_neg count
      then fail_at pc negative_heap_size vm
      else give_ref pc heap_allocation_failed vm (arg ops 1) (heap_alloc vm count)

  unfoldable pub exec_span_create : Outcome
  exec_span_create =
      let count = eval_int fl vm (arg ops 0) in
      if is_neg count
      then fail_at pc negative_span_size vm
      else give_ref pc span_allocation_failed vm (arg ops 1) (heap_alloc_typed vm count 1 false)

  -- A reference that names no object is ignored.
  unfoldable pub exec_free : Outcome
  exec_free = next (put_object vm (eval_int fl vm (arg ops 0)) none)

  unfoldable pub exec_heap_store : Outcome
  exec_heap_store =
      let ref = eval_int fl vm (arg ops 0) in
      with_object pc heap_write_out_of_range vm ref (λ o.
        update_object pc heap_write_out_of_range vm ref
          (heap_store_i32 o (to_size (eval_int fl vm (arg ops 1))) (eval_int fl vm (arg ops 2))))

  unfoldable pub exec_heap_load : Outcome
  exec_heap_load = with_object pc heap_read_out_of_range vm (eval_int fl vm (arg ops 1)) (λ o.
      elim (heap_load_i32 o (to_size (eval_int fl vm (arg ops 2)))) [
        | none ↦ fail_at pc heap_read_out_of_range vm
        | some x ↦ assign vm (arg ops 0) (Value.int x)
      ])

  unfoldable pub exec_span_pin : Outcome
  exec_span_pin =
      let ref = eval_int fl vm (arg ops 0) in
      with_object pc span_pin_invalid vm ref
        (λ o. next (put_object vm ref (some (record o { pinned = true }))))

  unfoldable pub exec_span_fill : Outcome
  exec_span_fill =
      let ref = eval_int fl vm (arg ops 0) in
      let first = eval_int fl vm (arg ops 1) in
      let count = eval_int fl vm (arg ops 2) in
      if is_neg first || is_neg count
      then fail_at pc span_fill_out_of_range vm
      else with_object pc span_fill_out_of_range vm ref (λ o.
        update_object pc span_fill_out_of_range vm ref
          (heap_fill o first count (eval_int fl vm (arg ops 3))))

  unfoldable pub exec_span_write_u8 : Outcome
  exec_span_write_u8 =
      let ref = eval_int fl vm (arg ops 0) in
      let i = to_size (eval_int fl vm (arg ops 1)) in
      let byte = eval_int fl vm (arg ops 2) in
      with_object pc span_write_out_of_range vm ref (λ o.
        if not (o.elem_size == 1) || leb o.size i || is_neg byte || ltb 255 byte
        then fail_at pc span_write_out_of_range vm
        else next (put_object vm ref (some (record o { cells = set o.cells i byte }))))

  unfoldable pub exec_span_read_u8 : Outcome
  exec_span_read_u8 =
      let i = to_size (eval_int fl vm (arg ops 2)) in
      with_object pc span_read_out_of_range vm (eval_int fl vm (arg ops 1)) (λ o.
        if not (o.elem_size == 1) || leb o.size i
        then fail_at pc span_read_out_of_range vm
        else assign vm (arg ops 0) (Value.int (get_or o.cells i 0)))

  -- `(int32_t)obj->size`, and 0 for no object.
  unfoldable pub exec_array_len : Outcome
  exec_array_len =
      let size : ℕ = elim (heap_find vm.heap (eval_int fl vm (arg ops 1))) [
        | none ↦ 0
        | some o ↦ o.size % 2 ^ 32
      ] in
      assign vm (arg ops 0) (Value.int size)
