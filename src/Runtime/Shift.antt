-- ===== src/Runtime/Shift.antt =====
-- What removing a module does to the calls of the others.
use open_scm.Prelude.{
  ℕ, zero, suc, ◌+◌, ◌-◌, ◌≤◌, ◌<◌, ◌≡◌, refl, ◌∙◌, ap, List, [], ◌∷◌, ◌++◌, some, arith, length,
  get_elem?, take, drop, length-take, length-drop, ltb, ltb→lt, Bool-cases, Option-cases, inl, inr,
  if◌then◌else◌,
}
use open_scm.Prelude.Text.{Text}
use open_scm.Vm.{Value, Vm}
use open_scm.Vm.Ops.Hosted
use open_scm.Vm.Ops.Hosted.{HostReply}
use open_scm.Runtime.{
  RuntimeModule, Registry, Runtime, close_gap, runtime_find, find_from, unregister_module, slot_at,
  runtime_dispatch,
}

module _ {A : Type 0} where
  get_elem?-append_left :
      (xs ys : List A) (i : ℕ) → i < length xs → get_elem? (xs ++ ys) i ≡ get_elem? xs i
  get_elem?-append_left [] ys i h = absurd (omega arith)
  get_elem?-append_left (x ∷ xs) ys zero h = refl
  get_elem?-append_left (x ∷ xs) ys (suc i) h = get_elem?-append_left xs ys i (omega arith)

  get_elem?-append_right :
      (xs ys : List A) (i : ℕ) → get_elem? (xs ++ ys) (length xs + i) ≡ get_elem? ys i
  get_elem?-append_right [] ys i = let e : 0 + i ≡ i = omega arith in ap (get_elem? ys) e
  get_elem?-append_right (x ∷ xs) ys i =
      let e : suc (length xs) + i ≡ suc (length xs + i) = omega arith in
      ap (get_elem? (x ∷ xs ++ ys)) e ∙ get_elem?-append_right xs ys i

  get_elem?-take : (xs : List A) (n i : ℕ) → i < n → get_elem? (take n xs) i ≡ get_elem? xs i
  get_elem?-take xs zero i h = absurd (omega arith)
  get_elem?-take [] (suc n) i h = refl
  get_elem?-take (x ∷ xs) (suc n) zero h = refl
  get_elem?-take (x ∷ xs) (suc n) (suc i) h = get_elem?-take xs n i (omega arith)

  get_elem?-drop : (xs : List A) (n i : ℕ) → get_elem? (drop n xs) i ≡ get_elem? xs (n + i)
  get_elem?-drop xs zero i = let e : i ≡ 0 + i = omega arith in ap (get_elem? xs) e
  get_elem?-drop [] (suc n) i = refl
  get_elem?-drop (x ∷ xs) (suc n) i =
      let e : suc (n + i) ≡ suc n + i = omega arith in
      get_elem?-drop xs n i ∙ ap (get_elem? (x ∷ xs)) e

-- The slot whose contents a pointer to slot `j` finds after slot `i` of `count` is removed.
unfoldable pub shifted : ℕ → ℕ → ℕ → ℕ
shifted count i j = if ltb j i then j else if ltb (suc j) count then suc j else j

module _ (F : Type 0) where
  before :
      (reg : Registry F) (i j : ℕ)
      → i < reg.count
      → reg.count ≤ length reg.slots
      → j < i
      → get_elem? (close_gap F reg i).slots j ≡ get_elem? reg.slots j
  before reg i j inside whole h =
      let size = length-take i reg.slots in
      get_elem?-append_left (take i reg.slots) _ j (omega (arith, size, inside, whole, h))
      ∙ get_elem?-take reg.slots i j h

  behind :
      (reg : Registry F) (i k : ℕ)
      → i < reg.count
      → reg.count ≤ length reg.slots
      → suc (i + k) < reg.count
      → get_elem? (close_gap F reg i).slots (i + k) ≡ get_elem? reg.slots (suc (i + k))
  behind reg i k inside whole h =
      let size = length-take i reg.slots in
      let place : i + k ≡ length (take i reg.slots) + k = omega (arith, size, inside, whole) in
      let moved = take (reg.count - suc i) (drop (suc i) reg.slots) in
      let room : k < length moved = omega (
        arith,
        length-take (reg.count - suc i) (drop (suc i) reg.slots),
        length-drop (suc i) reg.slots,
        inside,
        whole,
        h,
      ) in
      let next : suc i + k ≡ suc (i + k) = omega arith in
      ap (get_elem? (close_gap F reg i).slots) place
      ∙ get_elem?-append_right (take i reg.slots) _ k
      ∙ get_elem?-append_left moved _ k room
      ∙ get_elem?-take (drop (suc i) reg.slots) (reg.count - suc i) k (omega (arith, h))
      ∙ get_elem?-drop reg.slots (suc i) k
      ∙ ap (get_elem? reg.slots) next

  last :
      (reg : Registry F) (i k : ℕ)
      → i < reg.count
      → reg.count ≤ length reg.slots
      → get_elem? (close_gap F reg i).slots (reg.count - 1 + k)
        ≡ get_elem? reg.slots (reg.count - 1 + k)
  last reg i k inside whole =
      let size = length-take i reg.slots in
      let moved = take (reg.count - suc i) (drop (suc i) reg.slots) in
      let gap = length-take (reg.count - suc i) (drop (suc i) reg.slots) in
      let tail = length-drop (suc i) reg.slots in
      let place : reg.count - 1 + k ≡ length (take i reg.slots) + (length moved + k) =
        omega (arith, size, gap, tail, inside, whole) in
      ap (get_elem? (close_gap F reg i).slots) place
      ∙ get_elem?-append_right (take i reg.slots) _ (length moved + k)
      ∙ get_elem?-append_right moved _ k
      ∙ get_elem?-drop reg.slots (reg.count - 1) k

  slots-close_gap :
      (reg : Registry F) (i j : ℕ)
      → i < reg.count
      → reg.count ≤ length reg.slots
      → get_elem? (close_gap F reg i).slots j ≡ get_elem? reg.slots (shifted reg.count i j)
  unfolding shifted
  slots-close_gap reg i j inside whole = elim (Bool-cases (ltb j i)) [
    | inl e ↦ rw (e, shifted) (before reg i j inside whole (ltb→lt j i e))
    | inr e ↦ elim (Bool-cases (ltb (suc j) reg.count)) [
      | inl e' ↦
          let here : i + (j - i) ≡ j = ground arith in
          let below = ltb→lt (suc j) reg.count e' in
          rw (e, e', shifted)
            (rw here at (behind reg i (j - i) inside whole (omega (arith, here, below))))
      | inr e' ↦
          let here : reg.count - 1 + (j - (reg.count - 1)) ≡ j = ground arith in
          rw (e, e', shifted) (rw here at (last reg i (j - (reg.count - 1)) inside whole))
    ]
  ]

  find_from-below :
      (k i : ℕ) (ms : List (RuntimeModule F)) (name : Text)
      → find_from F k ms name ≡ some i
      → i < k + length ms
  unfolding find_from
  find_from-below k i [] name h = cc
  find_from-below k i (m ∷ ms) name h = ground (arith, find_from-below (suc k) i ms name)

  runtime_find-below :
      (reg : Registry F) (i : ℕ) (name : Text) → runtime_find F reg name ≡ some i → i < reg.count
  unfolding runtime_find
  runtime_find-below reg i name h = omega (
    arith,
    find_from-below 0 i (take reg.count reg.slots) name h,
    length-take reg.count reg.slots,
  )

  unregister_module-close_gap :
      (s : Runtime F) (i : ℕ) (name : Text)
      → runtime_find F s.registry name ≡ some i
      → (unregister_module F s name).1.registry ≡ close_gap F s.registry i
  unfolding unregister_module
  unregister_module-close_gap s i name h =
      elim (Option-cases (Hosted.unregister_module s.vm name)) [
        | inl e ↦ rw (h, e, unregister_module) refl
        | inr (vm', e) ↦ rw (h, e, unregister_module) refl
      ]

  -- After a module is removed from a registry, a pointer that the machine holds to its slot or to
  -- one behind it finds the module that stood in the slot after that, if the slot after was in
  -- use; all other pointers, to slots before it, to the last slot in use and to slots not in use,
  -- find what they found before.
  pub runtime_dispatch-unregister_module :
      (call : F → ℕ → Vm → List Value → HostReply) (s : Runtime F) (i j : ℕ) (name f : Text)
      (vm : Vm) (args : List Value)
      → runtime_find F s.registry name ≡ some i
      → s.registry.count ≤ length s.registry.slots
      → runtime_dispatch F call (unregister_module F s name).1.registry (suc j) vm f args
        ≡ runtime_dispatch F call s.registry (suc (shifted s.registry.count i j)) vm f args
  unfolding runtime_dispatch slot_at
  runtime_dispatch-unregister_module call s i j name f vm args h whole =
      let moved = slots-close_gap s.registry i j (runtime_find-below s.registry i name h) whole in
      rw (unregister_module-close_gap s i name h) (rw (moved, runtime_dispatch, slot_at) refl)
