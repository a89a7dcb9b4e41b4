-- ===== src/Tests/Objects.antt =====
-- Heap objects, rendering and values.
use open_scm.Prelude.{
  ℕ, ◌+◌, ◌*◌, ◌-◌, ◌^◌, ◌≤◌, ◌<◌, ◌≡◌, ◌↔◌, ◌⊎◌, refl, true, false, ◌&&◌, [], ◌∷◌, ◌++◌, none,
  some, arith, ◌==◌, leb, ltb, if◌then◌else◌, take, drop, replicate,
}
use open_scm.Prelude.Text.{codes, same}
use open_scm.Vm.{Value, HeapObject, Vm, create}
use open_scm.Vm.Values.{value_to_int, value_to_cstr, values_equal, values_compare}
use open_scm.Vm.Values.Laws.{value_to_int-value_to_cstr, values_equal-values_compare}
use open_scm.Vm.Heap.{
  heap_find, heap_insert, heap_alloc_typed, heap_fill, heap_store_i32, heap_load_i32,
}
use open_scm.Vm.Heap.Laws.{IsHeap, heap_find-heap_alloc_typed, heap_alloc_typed-IsHeap}
use open_scm.Vm.Heap.Cells.{kept, IsObject, heap_load_i32-heap_store_i32, heap_load_i32-heap_fill}
use open_scm.Vm.Ops.Console.{dirty_rows}
use open_scm.Vm.Ops.Console.Dirty.{dirty_rows-cells}
use open_scm.Tests.Machine.{whole_floats}

-- A heap with two places.
abbrev small : Vm
small = record create { heap = none ∷ none ∷ [] }

abbrev fresh : ℕ → HeapObject
fresh id = record { id = id; size = 3; elem_size = 1; pinned = false; cells = 0 ∷ 0 ∷ 0 ∷ [] }

abbrev allocated : Vm
allocated = record small { heap = some (fresh 1) ∷ none ∷ []; next_ref = 2 }

small-allocated : heap_alloc_typed small 3 1 false ≡ some (1, allocated)
unfolding heap_alloc_typed heap_insert create
small-allocated = refl

heap_find-heap_alloc_typed_example :
    (1 ≡ small.next_ref)
    × (heap_find allocated.heap 1 ≡ (
        if 1 == 1
        then some
            (record { id = 1; size = 3; elem_size = 1; pinned = false; cells = replicate 3 0 })
        else heap_find small.heap 1))
heap_find-heap_alloc_typed_example = heap_find-heap_alloc_typed small 3 1 false 1 tt small-allocated

small-room : small.next_ref + 1 < 2 ^ 32
unfolding create
small-room = omega arith

heap_alloc_typed-IsHeap_example : IsHeap allocated.heap allocated.next_ref
heap_alloc_typed-IsHeap_example =
    heap_alloc_typed-IsHeap small 3 1 false tt small-room small-allocated

allocated-IsHeap : IsHeap allocated.heap 2
unfolding heap_find
allocated-IsHeap = (omega arith, refl, tt)

fresh-IsObject : IsObject (fresh 1)
fresh-IsObject = record { sized = refl; typed = refl }

heap_load_i32-heap_store_i32_example :
    ((3 ≤ 2) × (heap_store_i32 (fresh 1) 2 300 ≡ none))
    ⊎ (o' : HeapObject) × (2 < 3)
      × (heap_store_i32 (fresh 1) 2 300 ≡ some o')
      × IsObject o'
      × (heap_load_i32 o' 2 ≡ (if 2 == 2 then some (kept 1 300) else heap_load_i32 (fresh 1) 2))
heap_load_i32-heap_store_i32_example = heap_load_i32-heap_store_i32 (fresh 1) 2 2 300 fresh-IsObject

heap_load_i32-heap_fill_example :
    ((3 < 1 + 2) × (heap_fill (fresh 1) 1 2 5 ≡ none))
    ⊎ (o' : HeapObject) × (1 + 2 ≤ 3)
      × (heap_fill (fresh 1) 1 2 5 ≡ some o')
      × IsObject o'
      × (heap_load_i32 o' 0
          ≡ (if leb 1 0 && ltb 0 (1 + 2) then some (kept 1 5) else heap_load_i32 (fresh 1) 0))
heap_load_i32-heap_fill_example = heap_load_i32-heap_fill (fresh 1) 1 2 0 5 fresh-IsObject

dirty_rows-cells_example :
    (dirty_rows 2 0 2 (1 ∷ 2 ∷ 3 ∷ 4 ∷ []) (1 ∷ 9 ∷ 9 ∷ 4 ∷ 5 ∷ [])).1
    ≡ take (2 * 2) (1 ∷ 2 ∷ 3 ∷ 4 ∷ []) ++ drop (2 * 2) (1 ∷ 9 ∷ 9 ∷ 4 ∷ 5 ∷ [])
dirty_rows-cells_example =
    dirty_rows-cells 2 2 (1 ∷ 2 ∷ 3 ∷ 4 ∷ []) (1 ∷ 9 ∷ 9 ∷ 4 ∷ 5 ∷ []) (omega arith) (omega arith)

value_to_int-value_to_cstr_example :
    value_to_int whole_floats (Value.string (value_to_cstr whole_floats (Value.int (2 ^ 32 - 40))))
    ≡ 2 ^ 32 - 40
value_to_int-value_to_cstr_example =
    value_to_int-value_to_cstr whole_floats (2 ^ 32 - 40) (omega arith)

values_equal-values_compare_example :
    (values_equal whole_floats (Value.string (codes "12")) (Value.int 12) ≡ true)
    ↔ (values_compare whole_floats (Value.string (codes "12")) (Value.int 12) ≡ same)
values_equal-values_compare_example =
    values_equal-values_compare whole_floats (Value.string (codes "12")) (Value.int 12) refl refl tt
      (omega arith)
