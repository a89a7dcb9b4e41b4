-- ===== src/Vm/Ops/Console.antt =====
-- Output to the terminal.
pub mod Row
pub mod Dirty
use mathlib.Core.Option
use open_scm.Prelude.{
  ℕ, zero, suc, ◌+◌, ◌-◌, ◌*◌, ◌/◌, ◌^◌, Bool, true, false, not, ◌&&◌, ◌||◌, List, [], ◌∷◌, ◌++◌,
  Option, none, some, ◌==◌, ltb, leb, if◌then◌else◌, length, take, drop,
}
use open_scm.Prelude.Text.{Text, codes}
use open_scm.Prelude.Word.{is_neg}
use open_scm.Prelude.Decimal.{print_int}
use open_scm.Vm.{HeapObject, Vm}
use open_scm.Vm.Floats.{FloatOps}
use open_scm.Vm.Heap.{heap_find, heap_put}
use open_scm.Vm.Decode.{DecOp}
use open_scm.Vm.Outcome.{
  bad_foreground, bad_background, bad_row, bad_column, bad_style, render_out_of_range,
  dirty_render_out_of_range, Outcome, next, fail_at,
}
use open_scm.Vm.Ops.{arg, eval_int, conclude, checked_int}
use open_scm.Vm.Ops.Texts.{eval_text}

unfoldable pub write : Vm → List ℕ → Vm
write vm bytes = record vm { out = vm.out ++ bytes }

-- The escape character and a bracket.
abbrev pub csi : Text → Text
csi s = 27 ∷ b'[' ∷ s

-- "\033[%d;%dH".
unfoldable pub move_to : ℕ → ℕ → Text
move_to row col = csi (print_int row ++ (b';' ∷ (print_int col ++ codes "H")))

-- `width` bytes from `from` on, as `fwrite` takes them.
abbrev pub slice : List ℕ → ℕ → ℕ → List ℕ
slice cells from width = take width (drop from cells)

-- The rows of CONSOLE_RENDER_SPAN from `row` on, `n` of them.
unfoldable pub render_rows : ℕ → ℕ → ℕ → List ℕ → List ℕ
render_rows zero row width cells = []
render_rows (suc n) row width cells =
    move_to (row + 1) 1 ++ (slice cells (row * width) width ++ render_rows n (row + 1) width cells)

-- A pinned span of bytes.
abbrev pub is_pinned_span : HeapObject → Bool
is_pinned_span o = o.elem_size == 1 && o.pinned

-- One run of changed cells of a row: the column of the first, and the new bytes.
pub record Run : Type 0 where
  pub col : ℕ
  pub bytes : List ℕ

-- What is left of a row at a column: the current cells and the previous ones.
pub record Scan : Type 0 where
  pub col : ℕ
  pub current : List ℕ
  pub previous : List ℕ

-- `while (col < width && current == previous) col++`.
unfoldable pub skip_same : ℕ → List ℕ → List ℕ → Scan
skip_same col [] ps = record { col = col; current = []; previous = ps }
skip_same col (c ∷ cs) [] = record { col = col; current = c ∷ cs; previous = [] }
skip_same col (c ∷ cs) (p ∷ ps) =
    let rest = skip_same (col + 1) cs ps in
    if c == p then rest else record { col = col; current = c ∷ cs; previous = p ∷ ps }

-- `while (col < width && current != previous) col++`: how many cells that passes.
unfoldable pub count_changed : List ℕ → List ℕ → ℕ
count_changed [] ps = 0
count_changed (c ∷ cs) [] = 0
count_changed (c ∷ cs) (p ∷ ps) = let rest = suc (count_changed cs ps) in if c == p then 0 else rest

-- The outer loop over a row. Each round that goes on passes a changed cell, so that the width is
-- fuel enough (`Row`).
unfoldable pub dirty_row : ℕ → ℕ → List ℕ → List ℕ → List Run
dirty_row zero col cs ps = []
dirty_row (suc fuel) col cs ps =
    let s = skip_same col cs ps in
    let n = count_changed s.current s.previous in
    let more = dirty_row fuel (s.col + n) (drop n s.current) (drop n s.previous) in
    elim s.current [ [] ↦ [] | _ ∷ _ ↦ record { col = s.col; bytes = take n s.current } ∷ more ]

-- `memcpy(previous->data + at, bytes)`.
unfoldable pub splice : List ℕ → ℕ → List ℕ → List ℕ
splice cells at bytes = take at cells ++ (bytes ++ drop (at + length bytes) cells)

unfoldable pub copy_runs : ℕ → List Run → List ℕ → List ℕ
copy_runs base [] cells = cells
copy_runs base (r ∷ runs) cells = copy_runs base runs (splice cells (base + r.col) r.bytes)

unfoldable pub print_runs : ℕ → List Run → List ℕ
print_runs row [] = []
print_runs row (r ∷ runs) = move_to (row + 1) (r.col + 1) ++ (r.bytes ++ print_runs row runs)

-- The rows of CONSOLE_RENDER_SPAN_DIRTY from `row` on: what is printed and what becomes of the
-- previous span. (If both spans are one object, no cell differs and nothing is copied.)
unfoldable pub dirty_rows : ℕ → ℕ → ℕ → List ℕ → List ℕ → List ℕ × List ℕ
dirty_rows zero row width cs ps = ([], ps)
dirty_rows (suc n) row width cs ps =
    let base = row * width in
    let runs = dirty_row width 0 (slice cs base width) (slice ps base width) in
    let (printed, ps') = dirty_rows n (row + 1) width cs (copy_runs base runs ps) in
    (print_runs row runs ++ printed, ps')

module _ (fl : FloatOps) (pc : ℕ) (ops : List DecOp) (vm : Vm) where
  -- PRINT and LOG end the line, PRINT_RAW does not.
  unfoldable pub exec_print : Bool → Outcome
  exec_print raw =
      let line = eval_text fl vm (arg ops 0) in
      next (write vm (if raw then line else line ++ 10 ∷ []))

  unfoldable pub exec_console_clear : Outcome
  exec_console_clear = next (write vm (csi (codes "2J") ++ csi (codes "H")))

  -- The background is the second operand, if there is one.
  unfoldable pub exec_console_color : Outcome
  exec_console_color =
      conclude pc vm (checked_int 0 255 bad_foreground (eval_int fl vm (arg ops 0))) (λ fg.
        let front = csi (codes "38;5;" ++ (print_int fg ++ codes "m")) in
        if ltb 1 (length ops)
        then conclude pc vm (checked_int 0 255 bad_background (eval_int fl vm (arg ops 1)))
            (λ bg. next (write vm (front ++ csi (codes "48;5;" ++ (print_int bg ++ codes "m")))))
        else next (write vm front))

  unfoldable pub exec_console_reset : Outcome
  exec_console_reset = next (write vm (csi (codes "0m")))

  unfoldable pub exec_console_move : Outcome
  exec_console_move =
      conclude pc vm (checked_int 1 9999 bad_row (eval_int fl vm (arg ops 0))) (λ row.
        conclude pc vm (checked_int 1 9999 bad_column (eval_int fl vm (arg ops 1)))
          (λ col. next (write vm (move_to row col))))

  unfoldable pub exec_console_erase_line : Outcome
  exec_console_erase_line = next (write vm (csi (codes "2K")))

  unfoldable pub exec_console_style : Outcome
  exec_console_style =
      conclude pc vm (checked_int 0 9 bad_style (eval_int fl vm (arg ops 0)))
        (λ style. next (write vm (csi (print_int style ++ codes "m"))))

  unfoldable pub render_object : ℕ → ℕ → Option HeapObject → Outcome
  render_object width height none = fail_at pc render_out_of_range vm
  render_object width height (some o) =
      if is_neg width
        || width == 0
        || is_neg height
        || height == 0
        || not (is_pinned_span o)
        || ltb o.size (width * height)
      then fail_at pc render_out_of_range vm
      else next (write vm (render_rows height 0 width o.cells))

  -- The products of two `int`s do not reach SIZE_MAX.
  unfoldable pub exec_render_span : Outcome
  exec_render_span =
      render_object (eval_int fl vm (arg ops 1)) (eval_int fl vm (arg ops 2))
        (heap_find vm.heap (eval_int fl vm (arg ops 0)))

  unfoldable pub dirty_objects : ℕ → ℕ → ℕ → HeapObject → HeapObject → Outcome
  dirty_objects ref width height current previous =
      if is_neg width
        || width == 0
        || is_neg height
        || height == 0
        || not (is_pinned_span current)
        || not (is_pinned_span previous)
        || ltb current.size (width * height)
        || ltb previous.size (width * height)
      then fail_at pc dirty_render_out_of_range vm
      else let (printed, cells) = dirty_rows height 0 width current.cells previous.cells in
        next (
          write
            (record vm { heap = heap_put vm.heap ref (some (record previous { cells = cells })) })
            printed)

  unfoldable pub exec_render_span_dirty : Outcome
  exec_render_span_dirty =
      let ref = eval_int fl vm (arg ops 1) in
      elim (heap_find vm.heap (eval_int fl vm (arg ops 0))) [
        | none ↦ fail_at pc dirty_render_out_of_range vm
        | some current ↦ elim (heap_find vm.heap ref) [
          | none ↦ fail_at pc dirty_render_out_of_range vm
          | some previous ↦
              dirty_objects ref (eval_int fl vm (arg ops 2)) (eval_int fl vm (arg ops 3)) current
                previous
        ]
      ]
