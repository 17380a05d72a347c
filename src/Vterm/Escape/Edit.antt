-- ===== src/Vterm/Escape/Edit.antt =====
-- src/components/breezy_term/vterm.c: the commands of `vterm_handle_escape` that erase, insert,
-- delete and report, and the choice of the command by its letter.
use breezybox.Prelude.{
  ℕ, zero, suc, ◌+◌, ◌-◌, ◌*◌, true, false, ◌&&◌, ◌||◌, ltb, ◌==◌, if◌then◌else◌, Bytes, codes,
  str_eq, ℤ, pos, negsuc, int_max, atoi, decimal, [], ◌∷◌, ◌++◌,
}
use breezybox.Vterm.Screen.{Geometry, Term, row, blank, default_attr, fill, move, clear_internal}
use breezybox.Vterm.Escape.Motion.{
  esc, note_overflow, repeat_count, cursor_position, cursor_up, cursor_left, cursor_down,
  cursor_right,
}

-- The columns `start` and `end` of an erase, by its mode.
abbrev pub erase_range : Geometry → ℤ → ℕ → ℕ × ℕ
erase_range g (pos zero) x = (x, g.cols)
erase_range g (pos (suc zero)) x = (0, x + 1)
erase_range g (pos (suc (suc n))) x = (0, g.cols)
erase_range g (negsuc n) x = (0, g.cols)

-- `for (x = from; x < to; x++) row[x] = …` on the cursor's row
abbrev pub erase_columns : Geometry → ℕ → ℕ → Term → Term
erase_columns g from to t = fill g (to - from) (row g t.cursor_y + from) (blank t.current_attr) t

unfoldable pub erase_line : Geometry → Bytes → Term → Term
unfolding atoi fill
erase_line g params t =
    let (mode, large) = atoi params in
    let (from, to) = erase_range g mode t.cursor_x in
    note_overflow large (erase_columns g from to t)

unfoldable pub erase_chars : Geometry → Bytes → Term → Term
unfolding repeat_count fill
erase_chars g params t =
    let (n, large) = repeat_count params in
    let end = t.cursor_x + n in
    note_overflow (large || ltb int_max end)
      (erase_columns g t.cursor_x (if ltb g.cols end then g.cols else end) t)

-- `for (y = from; y < from + n; y++)` over whole rows of blanks
unfoldable pub blank_rows : Geometry → ℕ → ℕ → Term → Term
unfolding fill
blank_rows g zero y t = t
blank_rows g (suc n) y t = blank_rows g n (y + 1) (fill g g.cols (row g y) (blank default_attr) t)

-- `if (n > VTERM_ROWS - cursor_y) n = VTERM_ROWS - cursor_y`
abbrev pub line_count : Geometry → ℕ → ℕ → ℕ
line_count g y n = if ltb (g.rows - y) n then g.rows - y else n

unfoldable pub insert_lines : Geometry → Bytes → Term → Term
unfolding repeat_count move blank_rows
insert_lines g params t =
    let (n₀, large) = repeat_count params in
    let n = line_count g t.cursor_y n₀ in
    let lines = g.rows - t.cursor_y - n in
    let moved =
      if ltb 0 lines
      then move g (row g (t.cursor_y + n)) (row g t.cursor_y) (lines * g.cols) t
      else t in
    note_overflow large (blank_rows g n t.cursor_y moved)

unfoldable pub delete_lines : Geometry → Bytes → Term → Term
unfolding repeat_count move blank_rows
delete_lines g params t =
    let (n₀, large) = repeat_count params in
    let n = line_count g t.cursor_y n₀ in
    let lines = g.rows - t.cursor_y - n in
    let moved =
      if ltb 0 lines
      then move g (row g t.cursor_y) (row g (t.cursor_y + n)) (lines * g.cols) t
      else t in
    note_overflow large (blank_rows g n (g.rows - n) moved)

-- ESC [ row ; col R; ten digits are enough for an `int`
unfoldable pub position_report : ℕ → ℕ → Bytes
unfolding decimal
position_report y x = esc ∷ b'[' ∷ decimal 10 (y + 1) (b';' ∷ decimal 10 (x + 1) (b'R' ∷ []))

unfoldable pub device_status : Bytes → Term → Term
unfolding str_eq position_report
device_status params t =
    if str_eq params (codes "6")
    then record t { replies = t.replies ++ position_report t.cursor_y t.cursor_x }
    else t

-- ESC [ ? 25 h and ESC [ ? 25 l
unfoldable pub private_mode : ℕ → Bytes → Term → Term
unfolding str_eq
private_mode c params t =
    if c == b'h' && str_eq params (codes "?25")
    then record t { cursor_visible = true }
    else if c == b'l' && str_eq params (codes "?25")
    then record t { cursor_visible = false }
    else t

unfoldable pub erase_display : Geometry → Bytes → Term → Term
unfolding str_eq
erase_display g params t =
    if str_eq params (codes "2") || str_eq params [] then clear_internal g t else t

-- The `switch` on the final letter, for the commands that always return.
unfoldable pub run_csi : Geometry → ℕ → Bytes → Term → Term
run_csi g c params t =
    if c == b'J'
    then erase_display g params t
    else if c == b'H' || c == b'f'
    then cursor_position g params t
    else if c == b'A'
    then cursor_up params t
    else if c == b'B'
    then cursor_down g params t
    else if c == b'C'
    then cursor_right g params t
    else if c == b'D'
    then cursor_left params t
    else if c == b'K'
    then erase_line g params t
    else if c == b'X'
    then erase_chars g params t
    else if c == b'L'
    then insert_lines g params t
    else if c == b'M'
    then delete_lines g params t
    else if c == b'n'
    then device_status params t
    else t
