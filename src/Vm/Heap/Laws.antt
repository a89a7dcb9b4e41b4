-- ===== src/Vm/Heap/Laws.antt =====
-- Objects and their numbers: an object is found by its number from its allocation until it is freed.
use mathlib.Core.Option
use open_scm.Prelude.{
  ℕ, ◌+◌, ◌%◌, ◌^◌, ◌≤◌, ◌<◌, ◌≡◌, refl, Bool, List, [], ◌∷◌, Option, none, some, arith, ◌==◌,
  if◌then◌else◌, replicate, Option-cases, inl, inr,
}
use open_scm.Vm.{HeapObject, Vm}
use open_scm.Vm.Heap.{heap_find, heap_put, heap_insert, heap_alloc_typed}

-- Every number is below `next`, and no two active objects have the same.
abbrev pub IsHeap : List (Option HeapObject) → ℕ → Type 0
IsHeap [] next = Unit
IsHeap (none ∷ heap) next = IsHeap heap next
IsHeap (some o ∷ heap) next = (o.id < next) × (heap_find heap o.id ≡ none) × IsHeap heap next

heap_find-below :
    (heap : List (Option HeapObject)) (next ref : ℕ)
    → IsHeap heap next
    → next ≤ ref
    → heap_find heap ref ≡ none
unfolding heap_find
heap_find-below [] next ref h above = refl
heap_find-below (none ∷ heap) next ref h above = heap_find-below heap next ref h above
heap_find-below (some o ∷ heap) next ref h above =
    ground (arith, heap_find-below heap next ref h.2 above)

heap_find-heap_insert :
    (heap : List (Option HeapObject)) (new : HeapObject) (ref : ℕ)
    (heap' : List (Option HeapObject))
    → heap_find heap new.id ≡ none
    → heap_insert heap new ≡ some heap'
    → heap_find heap' ref ≡ (if new.id == ref then some new else heap_find heap ref)
unfolding heap_find heap_insert
heap_find-heap_insert [] new ref heap' fresh h = ground arith
heap_find-heap_insert (none ∷ heap) new ref heap' fresh h = ground arith
heap_find-heap_insert (some o ∷ heap) new ref heap' fresh h =
    elim (Option-cases (heap_insert heap new)) [
      | inl full ↦ ground arith
      | inr (rest, made) ↦
          ground (arith, heap_find-heap_insert heap new ref rest (ground arith) made)
    ]

-- While the numbers in use are distinct and below `next_ref`, an allocation that succeeds gives
-- the object the number `next_ref`, under which it is then found, zeroed and of the size asked
-- for, and what is found under every other number is unchanged.
pub heap_find-heap_alloc_typed :
    (vm : Vm) (size elem_size : ℕ) (pinned : Bool) (ref : ℕ) {new : ℕ} {vm' : Vm}
    → IsHeap vm.heap vm.next_ref
    → heap_alloc_typed vm size elem_size pinned ≡ some (new, vm')
    → (new ≡ vm.next_ref)
      × (heap_find vm'.heap ref ≡ (
          if new == ref
          then some (record {
            id = new;
            size = size;
            elem_size = elem_size;
            pinned = pinned;
            cells = replicate size 0;
          })
          else heap_find vm.heap ref))
unfolding heap_alloc_typed
heap_find-heap_alloc_typed vm size elem pinned ref {new} {vm'} good h =
    let o : HeapObject = record {
      id = vm.next_ref;
      size = size;
      elem_size = elem;
      pinned = pinned;
      cells = replicate size 0;
    } in
    elim (Option-cases (heap_insert vm.heap o)) [
      | inl full ↦ ground arith
      | inr (heap, made) ↦
          let found =
            heap_find-heap_insert vm.heap o ref heap
              (heap_find-below vm.heap vm.next_ref vm.next_ref good (omega arith)) made in
          ground (arith, found)
    ]

-- A write to an object changes what is found under its number, if anything, and nothing else.
pub heap_find-heap_put :
    (heap : List (Option HeapObject)) (new : HeapObject) (ref : ℕ)
    → heap_find (heap_put heap new.id (some new)) ref
      ≡ (if new.id == ref then Option.map (λ o. new) (heap_find heap ref) else heap_find heap ref)
unfolding heap_find heap_put
heap_find-heap_put [] new ref = ground arith
heap_find-heap_put (none ∷ heap) new ref = heap_find-heap_put heap new ref
heap_find-heap_put (some o ∷ heap) new ref = ground (arith, heap_find-heap_put heap new ref)

-- In a heap whose numbers are distinct, an object that is freed is not found any more, and every
-- other object is found as before.
pub heap_find-heap_put-none :
    (heap : List (Option HeapObject)) (freed ref next : ℕ)
    → IsHeap heap next
    → heap_find (heap_put heap freed none) ref ≡ (if freed == ref then none else heap_find heap ref)
unfolding heap_find heap_put
heap_find-heap_put-none [] freed ref next h = ground arith
heap_find-heap_put-none (none ∷ heap) freed ref next h =
    heap_find-heap_put-none heap freed ref next h
heap_find-heap_put-none (some o ∷ heap) freed ref next h =
    ground (arith, heap_find-heap_put-none heap freed ref next h.2)

IsHeap-later :
    (heap : List (Option HeapObject)) (next later : ℕ)
    → IsHeap heap next
    → next ≤ later
    → IsHeap heap later
IsHeap-later [] next later h le = tt
IsHeap-later (none ∷ heap) next later h le = IsHeap-later heap next later h le
IsHeap-later (some o ∷ heap) next later h le =
    (omega (arith, h.0), h.1, IsHeap-later heap next later h.2 le)

IsHeap-insert :
    (heap : List (Option HeapObject)) (new : HeapObject) (heap' : List (Option HeapObject))
    → IsHeap heap new.id
    → heap_insert heap new ≡ some heap'
    → IsHeap heap' (new.id + 1)
unfolding heap_insert
IsHeap-insert [] new heap' good h = ground arith
IsHeap-insert (none ∷ heap) new heap' good h =
    ground
      (arith, IsHeap-later heap new.id (new.id + 1) good, heap_find-below heap new.id new.id good)
IsHeap-insert (some o ∷ heap) new heap' good h = elim (Option-cases (heap_insert heap new)) [
  | inl full ↦ ground arith
  | inr (rest, made) ↦ ground (
    arith,
    IsHeap-insert heap new rest good.2 made,
    heap_find-heap_insert heap new o.id rest
        (heap_find-below heap new.id new.id good.2 (omega arith)) made,
  )
]

-- If the numbers of the objects are distinct and below `next_ref`, they are so after an
-- allocation, as long as `next_ref` does not wrap round.
pub heap_alloc_typed-IsHeap :
    (vm : Vm) (size elem_size : ℕ) (pinned : Bool) {new : ℕ} {vm' : Vm}
    → IsHeap vm.heap vm.next_ref
    → vm.next_ref + 1 < 2 ^ 32
    → heap_alloc_typed vm size elem_size pinned ≡ some (new, vm')
    → IsHeap vm'.heap vm'.next_ref
unfolding heap_alloc_typed
heap_alloc_typed-IsHeap vm size elem pinned {new} {vm'} good small h =
    let o : HeapObject = record {
      id = vm.next_ref;
      size = size;
      elem_size = elem;
      pinned = pinned;
      cells = replicate size 0;
    } in
    elim (Option-cases (heap_insert vm.heap o)) [
      | inl full ↦ ground arith
      | inr (heap, made) ↦
          let below : (vm.next_ref + 1) % 2 ^ 32 ≡ vm.next_ref + 1 = omega arith in
          ground (arith, IsHeap-insert vm.heap o heap good made, below)
    ]
