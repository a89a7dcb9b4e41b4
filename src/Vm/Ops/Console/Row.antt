-- ===== src/Vm/Ops/Console/Row.antt =====
-- One row of CONSOLE_RENDER_SPAN_DIRTY: the rounds over it come to its end, and they copy every
-- changed cell.
use mathlib.Core.List.{append_assoc}
use open_scm.Prelude.{
  ℕ, zero, suc, ◌+◌, ◌≤◌, ◌≡◌, refl, ap, sym, ◌∙◌, Bool-cases, inl, inr, ◌⊎◌, List, [], ◌∷◌, ◌++◌,
  arith, ◌==◌, length, take, drop, length-append, length-take, length-drop, take-append,
  drop-append, take-append-drop,
}
use open_scm.Vm.Ops.Console.{Run, Scan, skip_same, count_changed, dirty_row, splice, copy_runs}

-- Where the search for a change stops: both rows are the same up to there, and the cells there
-- differ or the row ends.
record Skipped (col : ℕ) (cs ps : List ℕ) (s : Scan) : Type 0 where
  same : List ℕ
  current_is : same ++ s.current ≡ cs
  previous_is : same ++ s.previous ≡ ps
  col_is : s.col ≡ col + length same
  sizes : length s.current ≡ length s.previous
  changed : (length s.current ≡ 0) ⊎ (1 ≤ count_changed s.current s.previous)

skip_same-Skipped :
    (col : ℕ) (cs ps : List ℕ) → length cs ≡ length ps → Skipped col cs ps (skip_same col cs ps)
unfolding skip_same count_changed
skip_same-Skipped col [] [] e = record {
  same = [];
  current_is = refl;
  previous_is = refl;
  col_is = omega arith;
  sizes = refl;
  changed = inl refl;
}
skip_same-Skipped col [] (p ∷ ps) e = absurd (omega arith)
skip_same-Skipped col (c ∷ cs) [] e = absurd (omega arith)
skip_same-Skipped col (c ∷ cs) (p ∷ ps) e = elim (Bool-cases (c == p)) [
  | inl equal ↦
      let h = skip_same-Skipped (col + 1) cs ps (omega arith) in
      let cell : c ≡ p = ground arith in
      rw equal (record {
        same = c ∷ h.same;
        current_is = ap (λ t. c ∷ t) h.current_is;
        previous_is = ap (λ t. c ∷ t) h.previous_is ∙ ap (λ d. d ∷ ps) cell;
        col_is = omega (arith, h.col_is);
        sizes = h.sizes;
        changed = h.changed;
      })
  | inr differ ↦ rw differ (record {
    same = [];
    current_is = refl;
    previous_is = refl;
    col_is = omega arith;
    sizes = e;
    changed = inr (ground arith);
  })
]

count_changed-fits : (cs ps : List ℕ) → count_changed cs ps ≤ length cs
unfolding count_changed
count_changed-fits [] ps = omega arith
count_changed-fits (c ∷ cs) [] = omega arith
count_changed-fits (c ∷ cs) (p ∷ ps) = ground (arith, count_changed-fits cs ps)

length-zero : (xs ys : List ℕ) → length xs + length ys ≡ 0 → xs ≡ ys
length-zero [] [] h = refl
length-zero [] (y ∷ ys) h = absurd (omega arith)
length-zero (x ∷ xs) ys h = absurd (omega arith)

List-cases : (xs : List ℕ) → (xs ≡ []) ⊎ (x : ℕ) × (rest : List ℕ) × (xs ≡ x ∷ rest)
List-cases [] = inl refl
List-cases (x ∷ xs) = inr (x, xs, refl)

-- The bytes of a run replace those at its place.
splice-at :
    (front middle back bytes : List ℕ) (at : ℕ)
    → at ≡ length front
    → length bytes ≡ length middle
    → splice (front ++ (middle ++ back)) at bytes ≡ front ++ (bytes ++ back)
unfolding splice
splice-at front middle back bytes at e same =
    rw
      (
        take-append front (middle ++ back) at e,
        ← append_assoc front middle back,
        drop-append (front ++ middle) back (at + length bytes)
            (omega (arith, length-append front middle)),
      )
      refl

-- One round: the run of `n` cells is copied behind the cells that were the same.
splice-run :
    (at n : ℕ) (same cur prev front back : List ℕ)
    → length cur ≡ length prev
    → at ≡ length front + length same
    → splice (front ++ ((same ++ prev) ++ back)) at (take n cur)
      ≡ (front ++ (same ++ take n cur)) ++ (drop n prev ++ back)
splice-run at n same cur prev front back e place =
    let parts : front ++ ((same ++ (take n prev ++ drop n prev)) ++ back)
        ≡ (front ++ same) ++ (take n prev ++ (drop n prev ++ back)) =
      simp append_assoc in
    let joined : (front ++ same) ++ (take n cur ++ (drop n prev ++ back))
        ≡ (front ++ (same ++ take n cur)) ++ (drop n prev ++ back) =
      simp append_assoc in
    ap (λ t. splice (front ++ ((same ++ t) ++ back)) at (take n cur))
      (sym (take-append-drop n prev))
    ∙ ap (λ t. splice t at (take n cur)) parts
    ∙ splice-at (front ++ same) (take n prev) (drop n prev ++ back) (take n cur) at
        (omega (arith, length-append front same))
        (omega (arith, length-take n cur, length-take n prev))
    ∙ joined

rounds_done :
    (col : ℕ) (cs ps front back : List ℕ) (s : Scan)
    → Skipped col cs ps s
    → s.current ≡ []
    → front ++ (ps ++ back) ≡ front ++ (cs ++ back)
rounds_done col cs ps front back s k done =
    let gone : s.previous ≡ s.current =
      length-zero s.previous s.current (omega (arith, k.sizes, ap length done)) in
    ap (λ t. front ++ (t ++ back)) (sym k.previous_is ∙ ap (λ t. k.same ++ t) gone ∙ k.current_is)

moved :
    (xs : List ℕ) (x : ℕ) (rest : List ℕ) (n : ℕ)
    → xs ≡ x ∷ rest
    → (length xs ≡ 0) ⊎ (1 ≤ n)
    → 1 ≤ n
moved xs x rest n there (inl empty) = absurd (omega (arith, ap length there))
moved xs x rest n there (inr some_cell) = some_cell

nonempty :
    (xs : List ℕ) (x : ℕ) (rest : List ℕ) (runs : List Run)
    → xs ≡ x ∷ rest
    → (elim xs [ [] ↦ [] | _ ∷ _ ↦ runs ]) ≡ runs
nonempty [] x rest runs h = ground arith
nonempty (y ∷ ys) x rest runs h = refl

-- The runs of a row, copied to where the row stands, make the previous cells the current ones. The
-- length of the row is fuel enough for the rounds.
pub copy_runs-dirty_row :
    (fuel base col : ℕ) (cs ps front back : List ℕ)
    → length cs ≡ length ps
    → length cs ≤ fuel
    → length front ≡ base + col
    → copy_runs base (dirty_row fuel col cs ps) (front ++ (ps ++ back)) ≡ front ++ (cs ++ back)
unfolding copy_runs dirty_row
copy_runs-dirty_row zero base col [] [] front back e enough at = refl
copy_runs-dirty_row zero base col [] (p ∷ ps) front back e enough at = absurd (omega arith)
copy_runs-dirty_row zero base col (c ∷ cs) ps front back e enough at = absurd (omega arith)
copy_runs-dirty_row (suc fuel) base col cs ps front back e enough at =
    let s : Scan = skip_same col cs ps in
    let k = skip_same-Skipped col cs ps e in
    let n : ℕ = count_changed s.current s.previous in
    elim (List-cases s.current) [
      | inl done ↦ rw (done, dirty_row) (rounds_done col cs ps front back s k done)
      | inr (c, cur, there) ↦
          let old : List ℕ = front ++ (k.same ++ take n s.current) in
          let more : List Run = dirty_row fuel (s.col + n) (drop n s.current) (drop n s.previous) in
          let sizes : length (drop n s.current) ≡ length (drop n s.previous) =
            omega (arith, k.sizes, length-drop n s.current, length-drop n s.previous) in
          let whole : length cs ≡ length k.same + length s.current =
            ap length (sym k.current_is) ∙ length-append k.same s.current in
          let some_cell : 1 ≤ n = moved s.current c cur n there k.changed in
          let fits : n ≤ length s.current = count_changed-fits s.current s.previous in
          let joined : old ++ (drop n s.current ++ back)
              ≡ front ++ ((k.same ++ (take n s.current ++ drop n s.current)) ++ back) =
            simp append_assoc in
          ap (λ r. copy_runs base r (front ++ (ps ++ back)))
            (nonempty s.current c cur (record { col = s.col; bytes = take n s.current } ∷ more)
              there)
          ∙ ap
              (λ t.
                copy_runs base more
                  (splice (front ++ (t ++ back)) (base + s.col) (take n s.current)))
              (sym k.previous_is)
          ∙ ap (copy_runs base more) (
              splice-run (base + s.col) n k.same s.current s.previous front back k.sizes
                (omega (arith, k.col_is, at)))
          ∙ copy_runs-dirty_row fuel base (s.col + n) (drop n s.current) (drop n s.previous) old
              back sizes (omega (arith, length-drop n s.current, whole))
              (omega (
                arith,
                k.col_is,
                length-append front (k.same ++ take n s.current),
                length-append k.same (take n s.current),
                length-take n s.current,
              ))
          ∙ joined
          ∙ ap (λ t. front ++ ((k.same ++ t) ++ back)) (take-append-drop n s.current)
          ∙ ap (λ t. front ++ (t ++ back)) k.current_is
    ]
