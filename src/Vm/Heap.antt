-- ===== src/Vm/Heap.antt =====
-- The heap of vm/vm.c: objects found by the number that they got when they were allocated.
pub mod Laws
pub mod Cells
use mathlib.Core.Option
use open_scm.Prelude.{
  ℕ, ◌+◌, ◌-◌, ◌*◌, ◌%◌, ◌/◌, ◌^◌, Bool, true, false, ◌||◌, List, [], ◌∷◌, ◌++◌, Option, none, some,
  ◌==◌, ltb, leb, if◌then◌else◌, length, set, get_or, take, drop, replicate,
}
use open_scm.Vm.{HeapObject, Vm}

-- `heap_find`: the first active object with that number.
unfoldable pub heap_find : List (Option HeapObject) → ℕ → Option HeapObject
heap_find [] ref = none
heap_find (none ∷ heap) ref = heap_find heap ref
heap_find (some o ∷ heap) ref =
    let rest = heap_find heap ref in if o.id == ref then some o else rest

-- A write through the pointer that `heap_find` gives: `free` and `memset` for `none`.
unfoldable pub heap_put :
    List (Option HeapObject) → ℕ → Option HeapObject → List (Option HeapObject)
heap_put [] ref new = []
heap_put (none ∷ heap) ref new = none ∷ heap_put heap ref new
heap_put (some o ∷ heap) ref new =
    let rest = some o ∷ heap_put heap ref new in if o.id == ref then new ∷ heap else rest

-- The first slot that is not active gets the object. `none`: there is no such slot.
unfoldable pub heap_insert :
    List (Option HeapObject) → HeapObject → Option (List (Option HeapObject))
heap_insert [] new = none
heap_insert (none ∷ heap) new = some (some new ∷ heap)
heap_insert (some o ∷ heap) new = Option.map (λ rest. some o ∷ rest) (heap_insert heap new)

-- `heap_alloc_typed`, with the number of the new object. `calloc` clears the cells; `next_ref` is
-- a `uint32_t`.
unfoldable pub heap_alloc_typed : Vm → ℕ → ℕ → Bool → Option (ℕ × Vm)
unfolding heap_insert
heap_alloc_typed vm size elem_size pinned =
    if elem_size == 0
    then none
    else if ltb ((2 ^ 64 - 1) / elem_size) size
    then none
    else Option.map
        (λ heap. (vm.next_ref, record vm { heap = heap; next_ref = (vm.next_ref + 1) % 2 ^ 32 }))
        (heap_insert vm.heap (record {
          id = vm.next_ref;
          size = size;
          elem_size = elem_size;
          pinned = pinned;
          cells = replicate size 0;
        }))

unfoldable pub heap_alloc : Vm → ℕ → Option (ℕ × Vm)
unfolding heap_alloc_typed
heap_alloc vm size = heap_alloc_typed vm size 4 false

-- What a cell keeps of an `int32_t`: `(unsigned char)value` in a span.
unfoldable pub cell_of : ℕ → ℕ → ℕ
cell_of elem_size value = if elem_size == 1 then value % 256 else value

-- Whether the object's cells are of one of the two sizes that the source can write.
abbrev pub has_cells : HeapObject → Bool
has_cells o = o.elem_size == 1 || o.elem_size == 4

-- `count` cells from `start` on get the value.
unfoldable pub fill_cells : List ℕ → ℕ → ℕ → ℕ → List ℕ
fill_cells cells start count value =
    take start cells ++ (replicate count value ++ drop (start + count) cells)

-- `heap_fill`, `heap_store_i32` and `heap_load_i32` on an object that was found.
unfoldable pub heap_fill : HeapObject → ℕ → ℕ → ℕ → Option HeapObject
unfolding cell_of fill_cells
heap_fill o start count value =
    if ltb o.size start || ltb (o.size - start) count
    then none
    else if has_cells o
    then some (record o { cells = fill_cells o.cells start count (cell_of o.elem_size value) })
    else none

unfoldable pub heap_store_i32 : HeapObject → ℕ → ℕ → Option HeapObject
unfolding cell_of
heap_store_i32 o index value =
    if leb o.size index
    then none
    else if has_cells o
    then some (record o { cells = set o.cells index (cell_of o.elem_size value) })
    else none

unfoldable pub heap_load_i32 : HeapObject → ℕ → Option ℕ
heap_load_i32 o index =
    if leb o.size index then none else if has_cells o then some (get_or o.cells index 0) else none
