-- ===== src/Vm/Ops/Console/Dirty.antt =====
-- The rows of CONSOLE_RENDER_SPAN_DIRTY together.
use mathlib.Core.List.{append_assoc}
use open_scm.Prelude.{
  ℕ, zero, suc, ◌+◌, ◌*◌, ◌≤◌, ◌≡◌, refl, ap, sym, ◌∙◌, List, [], ◌∷◌, ◌++◌, arith, length, take,
  drop, length-append, length-take, length-drop, drop-append, take-append-drop,
}
use open_scm.Vm.Ops.Console.{dirty_row, copy_runs, dirty_rows}
use open_scm.Vm.Ops.Console.Row.{copy_runs-dirty_row}

take-add : (m n k : ℕ) (xs : List ℕ) → k ≡ m + n → take k xs ≡ take m xs ++ take n (drop m xs)
take-add zero n k xs e = ap (λ i. take i xs) (omega arith)
take-add (suc m) n zero xs e = absurd (omega arith)
take-add (suc m) zero (suc k) [] e = refl
take-add (suc m) (suc n) (suc k) [] e = refl
take-add (suc m) n (suc k) (x ∷ xs) e = ap (λ t. x ∷ t) (take-add m n k xs (omega arith))

drop-add : (m n k : ℕ) (xs : List ℕ) → k ≡ m + n → drop k xs ≡ drop n (drop m xs)
drop-add zero n k xs e = ap (λ i. drop i xs) (omega arith)
drop-add (suc m) n zero xs e = absurd (omega arith)
drop-add (suc m) zero (suc k) [] e = refl
drop-add (suc m) (suc n) (suc k) [] e = refl
drop-add (suc m) n (suc k) (x ∷ xs) e = drop-add m n k xs (omega arith)

module _ (row width : ℕ) (cf cr pf pr : List ℕ) where
  -- One row, behind cells that are done.
  one_row :
      row * width ≡ length cf
      → row * width ≡ length pf
      → width ≤ length cr
      → width ≤ length pr
      → copy_runs
          (row * width)
          (dirty_row width 0
            (take width (drop (row * width) (cf ++ cr)))
            (take width (drop (row * width) (pf ++ pr))))
          (pf ++ pr)
        ≡ (pf ++ take width cr) ++ drop width pr
  one_row ec ep hc hp =
      rw (drop-append cf cr (row * width) ec, drop-append pf pr (row * width) ep)
        (ap
            (λ t.
              copy_runs (row * width) (dirty_row width 0 (take width cr) (take width pr)) (pf ++ t))
            (sym (take-append-drop width pr))
          ∙ copy_runs-dirty_row width (row * width) 0 (take width cr) (take width pr) pf
              (drop width pr) (omega (arith, length-take width cr, length-take width pr))
              (omega (arith, length-take width cr)) (omega (arith, ep))
          ∙ sym (append_assoc pf (take width cr) (drop width pr)))

-- The rows from one on, behind cells that are done.
dirty_rows-cells_from :
    (n row width : ℕ) (cf cr pf pr : List ℕ)
    → row * width ≡ length cf
    → row * width ≡ length pf
    → n * width ≤ length cr
    → n * width ≤ length pr
    → (dirty_rows n row width (cf ++ cr) (pf ++ pr)).1
      ≡ pf ++ (take (n * width) cr ++ drop (n * width) pr)
unfolding dirty_rows
dirty_rows-cells_from zero row width cf cr pf pr ec ep hc hp =
    rw (let z : 0 * width ≡ 0 = omega arith in z) refl
dirty_rows-cells_from (suc n) row width cf cr pf pr ec ep hc hp =
    let more : suc n * width ≡ width + n * width = omega arith in
    let next_row : (row + 1) * width ≡ row * width + width = omega arith in
    let cf' : List ℕ = cf ++ take width cr in
    let pf' : List ℕ = pf ++ take width cr in
    let whole : cf' ++ drop width cr ≡ cf ++ cr =
      append_assoc cf (take width cr) (drop width cr)
      ∙ ap (λ t. cf ++ t) (take-append-drop width cr) in
    let rest =
      dirty_rows-cells_from n (row + 1) width cf' (drop width cr) pf' (drop width pr)
        (omega (arith, length-append cf (take width cr), length-take width cr))
        (omega (arith, length-append pf (take width cr), length-take width cr))
        (omega (arith, length-drop width cr)) (omega (arith, length-drop width pr)) in
    rw
      (
        one_row row width cf cr pf pr ec ep (omega arith) (omega arith),
        take-add width (n * width) (suc n * width) cr more,
        drop-add width (n * width) (suc n * width) pr more,
        ← whole,
      )
      (rest ∙ simp append_assoc)

-- A dirty render of a number of rows leaves in the previous span the current cells of those rows,
-- and behind them what was there, if both spans have that many cells; the width is fuel enough
-- for each row.
pub dirty_rows-cells :
    (height width : ℕ) (cs ps : List ℕ)
    → height * width ≤ length cs
    → height * width ≤ length ps
    → (dirty_rows height 0 width cs ps).1 ≡ take (height * width) cs ++ drop (height * width) ps
dirty_rows-cells height width cs ps hc hp =
    dirty_rows-cells_from height 0 width [] cs [] ps (omega arith) (omega arith) hc hp
