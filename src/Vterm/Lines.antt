-- ===== src/Vterm/Lines.antt =====
-- ESC [ L and ESC [ M of src/components/breezy_term/vterm.c: what `insert_lines` and `delete_lines`
-- leave in each cell, row by row.
use native.Mathlib.Nat.{mul-le-mul_right}
use breezybox.Prelude.{
  ℕ, ◌+◌, ◌-◌, ◌*◌, ◌≤◌, ◌<◌, ◌≡◌, ap, fun_ext, ltb, if◌then◌else◌, Bool-cases, inl, inr, Bytes,
  arith, lt→ltb, ltb→lt, ℤ, pos, negsuc, zero, suc, atoi,
}
use breezybox.Vterm.Screen.{Geometry, size, Cell, Cells, Term, row, blank, default_attr, move}
use breezybox.Vterm.Layout.{move_lem, with_cells, moved, filled, blank_rows_lem}
use breezybox.Vterm.Escape.{
  at_least_one, repeat_count, line_count, insert_lines, delete_lines, note_overflow,
}

-- The cells after `n` blank rows are put in above row `y`.
abbrev pub inserted : Geometry → ℕ → ℕ → Cells → Cells
inserted g y n m i =
    if ltb i (row g y)
    then m i
    else if ltb i (row g (y + n))
    then blank default_attr
    else if ltb i (size g)
    then m (i - n * g.cols)
    else m i

-- The cells after `n` rows are taken out from row `y` on.
abbrev pub deleted : Geometry → ℕ → ℕ → Cells → Cells
deleted g y n m i =
    if ltb i (row g y)
    then m i
    else if ltb i (row g (g.rows - n))
    then m (i + n * g.cols)
    else if ltb i (size g)
    then blank default_attr
    else m i

-- Rows y to y + n - 1 and the rows below them fill the screen.
row_split :
    (g : Geometry) (y n : ℕ)
    → y + n ≤ g.rows
    → (row g (y + n) ≡ row g y + n * g.cols)
      × (row g (y + n) + (g.rows - y - n) * g.cols ≡ size g)
      × (row g (g.rows - n) ≡ row g y + (g.rows - y - n) * g.cols)
      × (row g (g.rows - n) + n * g.cols ≡ size g)
row_split g y n h =
    let e : y + n + (g.rows - y - n) ≡ g.rows = omega arith in
    let d : y + (g.rows - y - n) ≡ g.rows - n = omega arith in
    let e' : (y + n + (g.rows - y - n)) * g.cols ≡ g.rows * g.cols = ap (λ (k : ℕ). k * g.cols) e in
    let d' : (y + (g.rows - y - n)) * g.cols ≡ (g.rows - n) * g.cols =
      ap (λ (k : ℕ). k * g.cols) d in
    (omega arith, omega arith, omega arith, omega arith)

moved_none : (to from : ℕ) (m : Cells) → m ≡ moved to from 0 m
moved_none to from m = fun_ext (λ i. ground arith)

-- A block move of no rows is left out, which makes no difference.
move_if :
    (g : Geometry) (to from lines : ℕ) (t : Term)
    → to + lines * g.cols ≤ size g
    → from + lines * g.cols ≤ size g
    → (if ltb 0 lines then move g to from (lines * g.cols) t else t)
      ≡ with_cells t (moved to from (lines * g.cols) t.cells)
move_if g to from lines t h k = elim (Bool-cases (ltb 0 lines)) [
  | inl some ↦ rw some (move_lem g to from (lines * g.cols) t h k)
  | inr none ↦
      let e : lines ≡ 0 = ground arith in
      let d : lines * g.cols ≡ 0 = rw e (omega arith) in
      rw (none, d) (ap (with_cells t) (moved_none to from t.cells))
]

inserted_lem :
    (g : Geometry) (y n : ℕ) (m : Cells)
    → y + n ≤ g.rows
    → filled
        (n * g.cols)
        (row g y)
        (blank default_attr)
        (moved (row g (y + n)) (row g y) ((g.rows - y - n) * g.cols) m)
      ≡ inserted g y n m
inserted_lem g y n m h = fun_ext (λ i. ground (arith, row_split g y n h))

deleted_lem :
    (g : Geometry) (y n : ℕ) (m : Cells)
    → y + n ≤ g.rows
    → filled
        (n * g.cols)
        (row g (g.rows - n))
        (blank default_attr)
        (moved (row g y) (row g (y + n)) ((g.rows - y - n) * g.cols) m)
      ≡ deleted g y n m
deleted_lem g y n m h = fun_ext (λ i. ground (arith, row_split g y n h))

pub line_count-le : (g : Geometry) (y n : ℕ) → y < g.rows → y + line_count g y n ≤ g.rows
line_count-le g y n h = ground arith

-- How many lines the sequence asks for, as far as they lie below the cursor.
abbrev pub lines_asked : Geometry → Bytes → Term → ℕ
lines_asked g params t = line_count g t.cursor_y (repeat_count params).0

pub insert_lines_lem :
    (g : Geometry) (params : Bytes) (t : Term)
    → t.cursor_y < g.rows
    → insert_lines g params t
      ≡ note_overflow
          (repeat_count params).1
          (with_cells t (inserted g t.cursor_y (lines_asked g params t) t.cells))
unfolding insert_lines
insert_lines_lem g params t h =
    let n = lines_asked g params t in
    let y = t.cursor_y in
    let k : y + n ≤ g.rows = line_count-le g y _ h in
    let lines = g.rows - y - n in
    rw
      (move_if g (row g (y + n)) (row g y) lines t (omega (arith, row_split g y n k))
        (omega (arith, row_split g y n k)))
      (rw (blank_rows_lem g n y (with_cells t _) k) (rw (inserted_lem g y n t.cells k)))

pub delete_lines_lem :
    (g : Geometry) (params : Bytes) (t : Term)
    → t.cursor_y < g.rows
    → delete_lines g params t
      ≡ note_overflow
          (repeat_count params).1
          (with_cells t (deleted g t.cursor_y (lines_asked g params t) t.cells))
unfolding delete_lines
delete_lines_lem g params t h =
    let n = lines_asked g params t in
    let y = t.cursor_y in
    let k : y + n ≤ g.rows = line_count-le g y _ h in
    let lines = g.rows - y - n in
    rw
      (move_if g (row g y) (row g (y + n)) lines t (omega (arith, row_split g y n k))
        (omega (arith, row_split g y n k)))
      (rw (blank_rows_lem g n (g.rows - n) (with_cells t _) (omega arith))
        (rw (deleted_lem g y n t.cells k)))

at_least_one-pos : (n : ℤ) → 1 ≤ at_least_one n
at_least_one-pos (pos zero) = omega arith
at_least_one-pos (pos (suc n)) = omega arith
at_least_one-pos (negsuc n) = omega arith

repeat_count-pos : (params : Bytes) → 1 ≤ (repeat_count params).0
unfolding repeat_count
repeat_count-pos params = at_least_one-pos (atoi params).0

line_count-pos : (g : Geometry) (y n : ℕ) → y < g.rows → 1 ≤ n → 1 ≤ line_count g y n
line_count-pos g y n h k = ground arith

-- The cell in row `r` and column `x`.
abbrev pub cell_at : Geometry → Cells → ℕ → ℕ → Cell
cell_at g m r x = m (row g r + x)

in_row : (g : Geometry) (a b x : ℕ) → x < g.cols → a < b → row g a + x < row g b
in_row g a b x h k = omega (arith, mul-le-mul_right g.cols k)

below_row : (g : Geometry) (a b x : ℕ) → a ≤ b → row g a ≤ row g b + x
below_row g a b x h = omega (arith, mul-le-mul_right g.cols h)

row-sub : (g : Geometry) (r n x : ℕ) → n ≤ r → row g r + x - n * g.cols ≡ row g (r - n) + x
row-sub g r n x h =
    let e : r - n + n ≡ r = omega arith in omega (arith, ap (λ (k : ℕ). k * g.cols) e)

row-add : (g : Geometry) (r n x : ℕ) → row g r + x + n * g.cols ≡ row g (r + n) + x
row-add g r n x = omega arith

row-ltb : (g : Geometry) (r y x : ℕ) → x < g.cols → ltb (row g r + x) (row g y) ≡ ltb r y
row-ltb g r y x h = elim (Bool-cases (ltb r y)) [
  | inl above ↦ rw above (lt→ltb _ _ (in_row g r y x h (ltb→lt r y above)))
  | inr below ↦
      rw below (let k : y ≤ r = ground arith in let e = below_row g y r x k in ground (arith, e))
]

cell_at-inserted :
    (g : Geometry) (y n r x : ℕ) (m : Cells)
    → r < g.rows
    → x < g.cols
    → cell_at g (inserted g y n m) r x ≡ (
        if ltb r y
        then cell_at g m r x
        else if ltb r (y + n)
        then blank default_attr
        else cell_at g m (r - n) x)
cell_at-inserted g y n r x m h k =
    rw (row-ltb g r y x k, row-ltb g r (y + n) x k, lt→ltb _ _ (in_row g r g.rows x k h))
      (elim (Bool-cases (ltb r (y + n))) [
        | inl fresh ↦ rw fresh
        | inr old ↦ rw (old, row-sub g r n x (ground arith))
      ])

cell_at-deleted :
    (g : Geometry) (y n r x : ℕ) (m : Cells)
    → r < g.rows
    → x < g.cols
    → cell_at g (deleted g y n m) r x ≡ (
        if ltb r y
        then cell_at g m r x
        else if ltb r (g.rows - n)
        then cell_at g m (r + n) x
        else blank default_attr)
cell_at-deleted g y n r x m h k = rw (
  row-ltb g r y x k,
  row-ltb g r (g.rows - n) x k,
  lt→ltb _ _ (in_row g r g.rows x k h),
  row-add g r n x,
)

-- ESC [ n L and ESC [ n M, on every cell of the screen. With `k` the number of lines asked for, at
-- least one and at most those from the cursor's row down, an insert leaves the rows above the cursor
-- as they are, puts `k` blank rows at the cursor, and moves the rows from there on down by `k`; a
-- delete leaves the rows above, moves the rows below the first `k` up by `k`, and ends in `k` blank
-- rows.
pub insert_delete_rows :
    (g : Geometry) (params : Bytes) (t : Term) (r x : ℕ)
    → t.cursor_y < g.rows
    → r < g.rows
    → x < g.cols
    → let k = lines_asked g params t in
      let y = t.cursor_y in
      (1 ≤ k)
      × (y + k ≤ g.rows)
      × (cell_at g (insert_lines g params t).cells r x ≡ (
          if ltb r y
          then cell_at g t.cells r x
          else if ltb r (y + k)
          then blank default_attr
          else cell_at g t.cells (r - k) x))
      × (cell_at g (delete_lines g params t).cells r x ≡ (
          if ltb r y
          then cell_at g t.cells r x
          else if ltb r (g.rows - k)
          then cell_at g t.cells (r + k) x
          else blank default_attr))
insert_delete_rows g params t r x h hr hx = (
  omega (arith, line_count-pos g t.cursor_y _ h (repeat_count-pos params)),
  line_count-le g t.cursor_y _ h,
  rw (insert_lines_lem g params t h)
      (cell_at-inserted g t.cursor_y (lines_asked g params t) r x t.cells hr hx),
  rw (delete_lines_lem g params t h)
      (cell_at-deleted g t.cursor_y (lines_asked g params t) r x t.cells hr hx),
)
