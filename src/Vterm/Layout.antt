-- ===== src/Vterm/Layout.antt =====
-- The buffer of src/components/breezy_term/vterm.c row by row: within its bounds each of the loops
-- and block moves changes cells alone, and what they leave in each cell.
use native.Mathlib.Nat.{mul-le-mul_right}
use breezybox.Prelude.{
  ℕ, zero, suc, ◌+◌, ◌-◌, ◌*◌, ◌/◌, ◌%◌, ◌≤◌, ◌<◌, ◌≡◌, ◌∙◌, ap, fun_ext, Bool, true, ◌&&◌, ltb,
  leb, if◌then◌else◌, arith,
}
use breezybox.Vterm.Screen.{
  Geometry, size, Cell, Cells, Term, row, blank, default_attr, store, poke, fill, move, scroll,
  fill_words, clear_internal,
}
use breezybox.Vterm.Escape.{blank_rows}

-- A screen that the C code can lay out: it has a row and a column, and an even number of cells.
pub record IsGeometry (g : Geometry) : Type 0 where
  pub rows_pos : 0 < g.rows
  pub cols_pos : 0 < g.cols
  pub even : size g % 2 ≡ 0

-- A row of the screen lies in the buffer.
pub row_in_size : (g : Geometry) (y : ℕ) → y < g.rows → row g y + g.cols ≤ size g
row_in_size g y h = grind arith

pub rows_in_size : (g : Geometry) (y n : ℕ) → y + n ≤ g.rows → row g y + n * g.cols ≤ size g
rows_in_size g y n h = omega (arith, mul-le-mul_right g.cols h)

pub last_row : (g : Geometry) → 0 < g.rows → row g (g.rows - 1) + g.cols ≡ size g
last_row g h =
    let e : g.rows - 1 + 1 ≡ g.rows = omega arith in omega (arith, ap (λ (k : ℕ). k * g.cols) e)

pub here_in_size : (g : Geometry) (y x : ℕ) → y < g.rows → x < g.cols → row g y + x < size g
here_in_size g y x h k = omega (arith, row_in_size g y h)

-- What is in the cells after the loop of `fill`.
abbrev pub filled : ℕ → ℕ → Cell → Cells → Cells
filled n i c m j = if leb i j && ltb j (i + n) then c else m j

-- What is in the cells after the block move.
abbrev pub moved : ℕ → ℕ → ℕ → Cells → Cells
moved to from n m i = if leb to i && ltb i (to + n) then m (from + (i - to)) else m i

pub poke_lem :
    (g : Geometry) (i : ℕ) (c : Cell) (t : Term)
    → i < size g
    → poke g i c t ≡ record t { cells = store t.cells i c }
unfolding poke
poke_lem g i c t h = ground arith

filled-store :
    (n i : ℕ) (c : Cell) (m : Cells) → filled n (i + 1) c (store m i c) ≡ filled (suc n) i c m
unfolding store
filled-store n i c m = fun_ext (λ j. ground arith)

filled_none : (i : ℕ) (c : Cell) (m : Cells) → m ≡ filled 0 i c m
filled_none i c m = fun_ext (λ j. ground arith)

-- A copy of a terminal with other cells.
abbrev pub with_cells : Term → Cells → Term
with_cells t m = record t { cells = m }

pub fill_lem :
    (g : Geometry) (n i : ℕ) (c : Cell) (t : Term)
    → i + n ≤ size g
    → fill g n i c t ≡ with_cells t (filled n i c t.cells)
unfolding fill
fill_lem g zero i c t h = ap (with_cells t) (filled_none i c t.cells)
fill_lem g (suc n) i c t h = rw (poke_lem g i c t (omega arith)) (
    fill_lem g n (i + 1) c (with_cells t (store t.cells i c)) (omega arith)
    ∙ ap (with_cells t) (filled-store n i c t.cells))

pub move_lem :
    (g : Geometry) (to from n : ℕ) (t : Term)
    → to + n ≤ size g
    → from + n ≤ size g
    → move g to from n t ≡ with_cells t (moved to from n t.cells)
unfolding move
move_lem g to from n t h k = ground arith

pub row_suc : (g : Geometry) (y : ℕ) → row g (y + 1) ≡ row g y + g.cols
row_suc g y = omega arith

filled_rows :
    (g : Geometry) (n y : ℕ) (c : Cell) (m : Cells)
    → filled (n * g.cols) (row g (y + 1)) c (filled g.cols (row g y) c m)
      ≡ filled (suc n * g.cols) (row g y) c m
filled_rows g n y c m =
    let e : suc n * g.cols ≡ g.cols + n * g.cols = omega arith in
    fun_ext (λ j. ground (arith, row_suc g y, e))

pub blank_rows_lem :
    (g : Geometry) (n y : ℕ) (t : Term)
    → y + n ≤ g.rows
    → blank_rows g n y t ≡ with_cells t (filled (n * g.cols) (row g y) (blank default_attr) t.cells)
unfolding blank_rows
blank_rows_lem g zero y t h =
    let e : zero * g.cols ≡ 0 = omega arith in
    rw e (ap (with_cells t) (filled_none (row g y) _ t.cells))
blank_rows_lem g (suc n) y t h =
    rw (fill_lem g g.cols (row g y) (blank default_attr) t (row_in_size g y (omega arith))) (
      blank_rows_lem g n (y + 1) (with_cells t _) (omega arith)
      ∙ ap (with_cells t) (filled_rows g n y (blank default_attr) t.cells))

-- The scroll moves every row up by one and leaves a blank row at the bottom.
abbrev pub scrolled : Geometry → Cells → Cells
scrolled g m i =
    if ltb i (row g (g.rows - 1))
    then m (g.cols + i)
    else if ltb i (size g)
    then blank default_attr
    else m i

scrolled_lem :
    (g : Geometry) (m : Cells)
    → 0 < g.rows
    → filled g.cols
        (row g (g.rows - 1))
        (blank default_attr)
        (moved 0 g.cols (row g (g.rows - 1)) m)
      ≡ scrolled g m
scrolled_lem g m h = fun_ext (λ i. ground (arith, last_row g h))

pub scroll_lem :
    (g : Geometry) (t : Term)
    → 0 < g.rows
    → scroll g t ≡ record t { cells = scrolled g t.cells; cursor_y = g.rows - 1 }
unfolding scroll
scroll_lem g t h =
    rw
      (move_lem g 0 g.cols (row g (g.rows - 1)) t (omega (arith, last_row g h))
        (omega (arith, last_row g h)))
      (rw
        (fill_lem g g.cols (row g (g.rows - 1)) (blank default_attr) _
          (omega (arith, last_row g h)))
        (rw (scrolled_lem g t.cells h)))

store_pair :
    (n i : ℕ) (c : Cell) (m : Cells)
    → filled (2 * n) (i + 2) c (store (store m i c) (i + 1) c) ≡ filled (2 * suc n) i c m
unfolding store
store_pair n i c m = fun_ext (λ j. ground arith)

pub fill_words_lem :
    (g : Geometry) (n i : ℕ) (c : Cell) (t : Term)
    → i + 2 * n ≤ size g
    → fill_words g n i c t ≡ with_cells t (filled (2 * n) i c t.cells)
unfolding fill_words
fill_words_lem g zero i c t h = ap (with_cells t) (filled_none i c t.cells)
fill_words_lem g (suc n) i c t h = rw (poke_lem g i c t (omega arith)) (
    rw (poke_lem g (i + 1) c (with_cells t (store t.cells i c)) (omega arith)) (
      fill_words_lem g n (i + 2) c (with_cells t (store (store t.cells i c) (i + 1) c))
        (omega arith)
      ∙ ap (with_cells t) (store_pair n i c t.cells)))

-- The state after `vterm_clear_internal`, where every cell of the buffer is blank.
abbrev pub cleared : Geometry → Term → Term
cleared g t = record t {
  cells = filled (size g) 0 (blank default_attr) t.cells;
  cursor_x = 0;
  cursor_y = 0;
  cursor_visible = Bool.true;
  current_attr = default_attr;
}

pub clear_internal_lem :
    (g : Geometry) (t : Term) → size g % 2 ≡ 0 → clear_internal g t ≡ cleared g t
unfolding clear_internal
clear_internal_lem g t h =
    let e : 2 * ((size g + 1) / 2) ≡ size g = omega arith in
    rw (fill_words_lem g ((size g + 1) / 2) 0 (blank default_attr) t (omega arith)) (rw e)

-- Where the number of cells is odd, the last of the paired writes leaves the buffer.
fill_words_outside :
    (g : Geometry) (n i : ℕ) (c : Cell) (t : Term)
    → i + 2 * n ≡ size g + 1
    → 0 < n
    → (fill_words g n i c t).out_of_bounds ≡ true
unfolding fill_words
fill_words_outside g zero i c t h k = absurd (omega arith)
fill_words_outside g (suc zero) i c t h k = unfold poke in ground arith
fill_words_outside g (suc (suc n)) i c t h k =
    fill_words_outside g (suc n) (i + 2) c (poke g (i + 1) c (poke g i c t)) (omega arith)
      (omega arith)

-- A clear of an even number of cells blanks each of them, sets the cursor to the top left, visible,
-- and the attribute to the default, and touches nothing else. With an odd number of cells, its
-- 32-bit writes go past the end of the buffer.
pub clear_internal_even_odd :
    (g : Geometry) (t : Term)
    → (size g % 2 ≡ 0 → clear_internal g t ≡ cleared g t)
      × (size g % 2 ≡ 1 → (clear_internal g t).out_of_bounds ≡ true)
clear_internal_even_odd g t = (clear_internal_lem g t, odd)
  where
    odd : size g % 2 ≡ 1 → (clear_internal g t).out_of_bounds ≡ true
    odd h =
        unfold clear_internal in
        fill_words_outside g ((size g + 1) / 2) 0 (blank default_attr) t (omega arith) (omega arith)
