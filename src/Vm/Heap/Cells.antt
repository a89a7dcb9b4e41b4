-- ===== src/Vm/Heap/Cells.antt =====
-- Reads and writes of the cells of an object.
use open_scm.Prelude.{
  ℕ, zero, suc, ◌+◌, ◌%◌, ◌≤◌, ◌<◌, ◌≡◌, ◌⊎◌, refl, ◌∙◌, true, ◌&&◌, List, [], ◌∷◌, ◌++◌, none,
  some, arith, ◌==◌, ltb, leb, if◌then◌else◌, length, set, get_or, take, drop, replicate,
  length-set, get_or-set_self, get_or-set_ne, length-append, length-take, length-drop,
  length-replicate, Bool-cases, inl, inr,
}
use open_scm.Vm.{HeapObject}
use open_scm.Vm.Heap.{cell_of, has_cells, fill_cells, heap_fill, heap_store_i32, heap_load_i32}

-- What a cell keeps of a value: a cell of one byte its last byte, a cell of four all of it.
abbrev pub kept : ℕ → ℕ → ℕ
kept size value = if size == 1 then value % 256 else value

-- As many cells as the size says, of one of the two sizes that are ever allocated.
pub record IsObject (o : HeapObject) : Type 0 where
  pub sized : length o.cells ≡ o.size
  pub typed : has_cells o ≡ true

refused-or-done : (size i : ℕ) → (size ≤ i) ⊎ (i < size)
refused-or-done size i = elim (Bool-cases (leb size i)) [
  | inl out ↦ inl (ground arith)
  | inr inside ↦ inr (ground arith)
]

-- For an object with as many cells as its size says, of one of the two sizes of cells: a write
-- outside it is refused, and every other write is done: the cell then holds the last byte of the
-- value if it has one byte, and else the value, all other cells read as before, and the object
-- keeps its size.
pub heap_load_i32-heap_store_i32 :
    (o : HeapObject) (i j value : ℕ)
    → IsObject o
    → ((o.size ≤ i) × (heap_store_i32 o i value ≡ none))
      ⊎ (o' : HeapObject) × (i < o.size)
        × (heap_store_i32 o i value ≡ some o')
        × IsObject o'
        × (heap_load_i32 o' j
            ≡ (if i == j then some (kept o.elem_size value) else heap_load_i32 o j))
unfolding heap_store_i32 heap_load_i32 cell_of
heap_load_i32-heap_store_i32 o i j value good = elim (refused-or-done o.size i) [
  | inl out ↦ inl (out, ground arith)
  | inr inside ↦
      let x = kept o.elem_size value in
      inr (
        record o { cells = set o.cells i x },
        inside,
        ground (arith, good.typed),
        record { sized = length-set o.cells i x ∙ good.sized; typed = good.typed },
        ground (
          arith,
          good.typed,
          good.sized,
          get_or-set_self o.cells i x 0,
          get_or-set_ne o.cells i j x 0,
        ),
      )
]

-- A list whose cells from `start` on are overwritten.
get_or-replicate :
    (count n value j : ℕ) (cells : List ℕ)
    → n ≡ count
    → count ≤ length cells
    → get_or (replicate count value ++ drop n cells) j 0
      ≡ (if ltb j count then value else get_or cells j 0)
get_or-replicate zero zero value j cells e h = ground arith
get_or-replicate zero (suc n) value j cells e h = absurd (omega arith)
get_or-replicate (suc count) n value j [] e h = absurd (omega arith)
get_or-replicate (suc count) zero value j (c ∷ cells) e h = absurd (omega arith)
get_or-replicate (suc count) (suc n) value zero (c ∷ cells) e h = ground arith
get_or-replicate (suc count) (suc n) value (suc j) (c ∷ cells) e h =
    ground (arith, get_or-replicate count n value j cells (omega arith) (omega arith))

get_or-fill_at :
    (start n count value j : ℕ) (cells : List ℕ)
    → n ≡ start + count
    → n ≤ length cells
    → get_or (take start cells ++ (replicate count value ++ drop n cells)) j 0
      ≡ (if leb start j && ltb j n then value else get_or cells j 0)
get_or-fill_at zero n count value j cells e h =
    ground (arith, get_or-replicate count n value j cells (omega arith) (omega arith))
get_or-fill_at (suc start) n count value j [] e h = absurd (omega arith)
get_or-fill_at (suc start) zero count value j (c ∷ cells) e h = absurd (omega arith)
get_or-fill_at (suc start) (suc n) count value zero (c ∷ cells) e h = ground arith
get_or-fill_at (suc start) (suc n) count value (suc j) (c ∷ cells) e h =
    ground (arith, get_or-fill_at start n count value j cells (omega arith) (omega arith))

length-fill_cells :
    (cells : List ℕ) (start count value : ℕ)
    → start + count ≤ length cells
    → length (fill_cells cells start count value) ≡ length cells
unfolding fill_cells
length-fill_cells cells start count value h = omega (
  arith,
  length-append (take start cells) (replicate count value ++ drop (start + count) cells),
  length-append (replicate count value) (drop (start + count) cells),
  length-take start cells,
  length-replicate count value,
  length-drop (start + count) cells,
)

fill_refused :
    (o : HeapObject) (start count value : ℕ)
    → o.size < start + count
    → heap_fill o start count value ≡ none
unfolding heap_fill
fill_refused o start count value h = ground arith

-- For an object with as many cells as its size says, of one of the two sizes of cells: a fill
-- that would leave it is refused as a whole, and every other fill is done: the cells of the range
-- then hold the last byte of the value if they have one byte, and else the value, and all other
-- cells read as before.
pub heap_load_i32-heap_fill :
    (o : HeapObject) (start count j value : ℕ)
    → IsObject o
    → ((o.size < start + count) × (heap_fill o start count value ≡ none))
      ⊎ (o' : HeapObject) × (start + count ≤ o.size)
        × (heap_fill o start count value ≡ some o')
        × IsObject o'
        × (heap_load_i32 o' j ≡ (
            if leb start j && ltb j (start + count)
            then some (kept o.elem_size value)
            else heap_load_i32 o j))
unfolding heap_fill heap_load_i32 fill_cells cell_of
heap_load_i32-heap_fill o start count j value good =
    elim (refused-or-done (o.size + 1) (start + count)) [
      | inl out ↦ inl (omega arith, fill_refused o start count value (omega arith))
      | inr inside ↦
          let x = kept o.elem_size value in
          let room : start + count ≤ length o.cells = omega (arith, good.sized) in
          inr (
            record o { cells = fill_cells o.cells start count x },
            omega arith,
            ground (arith, good.typed),
            record {
              sized = length-fill_cells o.cells start count x room ∙ good.sized;
              typed = good.typed;
            },
            ground (
              arith,
              good.typed,
              get_or-fill_at start (start + count) count x j o.cells refl room,
            ),
          )
    ]
