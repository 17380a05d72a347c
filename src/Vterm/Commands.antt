-- ===== src/Vterm/Commands.antt =====
-- The commands of the escape sequences of src/components/breezy_term/vterm.c keep the invariant.
use breezybox.Prelude.{
  ℕ, zero, suc, ◌+◌, ◌-◌, ◌≤◌, ◌<◌, Bool, if_both, ltb, ◌==◌, ◌||◌, if◌then◌else◌, Bytes, arith,
  codes, peek, str_eq, ℤ, pos, negsuc, atoi,
}
use breezybox.Vterm.Screen.{Geometry, Cells, Term, row, blank}
use breezybox.Vterm.Layout.{IsGeometry, row_in_size, fill_lem, with_cells, clear_internal_lem}
use breezybox.Vterm.Escape.{
  clamp, zero_based, scan_position, cursor_position, cursor_up, cursor_down, cursor_left,
  cursor_right, repeat_count, erase_columns, erase_line, erase_range, erase_chars, insert_lines,
  delete_lines, device_status, private_mode, erase_display, run_csi, note_overflow,
}
use breezybox.Vterm.Lines.{insert_lines_lem, delete_lines_lem}
use breezybox.Vterm.Valid.{IsValid}

-- The cells and the flags that the invariant does not read may be any.
pub with_cells-IsValid :
    (g : Geometry) (t : Term) (m : Cells) → IsValid g t → IsValid g (with_cells t m)
with_cells-IsValid g t m v = ground arith

pub note_overflow-IsValid :
    (g : Geometry) (b : Bool) (t : Term) → IsValid g t → IsValid g (note_overflow b t)
note_overflow-IsValid g b t v = ground arith

clamp-lt : (limit v : ℕ) → 0 < limit → clamp limit v < limit
clamp-lt limit v h = ground arith

module _ (g : Geometry) (w : IsGeometry g) where
  pub moved_cursor-IsValid :
      (t : Term) (x y : ℕ)
      → IsValid g t
      → x < g.cols
      → y < g.rows
      → IsValid g (record t { cursor_x = x; cursor_y = y })
  moved_cursor-IsValid t x y v h k = ground arith

  cursor_position-IsValid :
      (params : Bytes) (t : Term) → IsValid g t → IsValid g (cursor_position g params t)
  unfolding cursor_position
  cursor_position-IsValid params t v =
      let p = scan_position params in
      if_both (IsValid g) (peek params == 0 || str_eq params (codes "1;1")) _ _
        (moved_cursor-IsValid t 0 0 v w.cols_pos w.rows_pos)
        (note_overflow-IsValid g _ _ (
          moved_cursor-IsValid t _ _ v (clamp-lt g.cols (zero_based p.at_col) w.cols_pos)
            (clamp-lt g.rows (zero_based p.at_row) w.rows_pos)))

  cursor_up-IsValid : (params : Bytes) (t : Term) → IsValid g t → IsValid g (cursor_up params t)
  unfolding cursor_up
  cursor_up-IsValid params t v =
      note_overflow-IsValid g _ _ (moved_cursor-IsValid t t.cursor_x _ v v.x_in (omega arith))

  cursor_left-IsValid : (params : Bytes) (t : Term) → IsValid g t → IsValid g (cursor_left params t)
  unfolding cursor_left
  cursor_left-IsValid params t v =
      note_overflow-IsValid g _ _ (moved_cursor-IsValid t _ t.cursor_y v (omega arith) v.y_in)

  cursor_down-IsValid :
      (params : Bytes) (t : Term) → IsValid g t → IsValid g (cursor_down g params t)
  unfolding cursor_down
  cursor_down-IsValid params t v =
      note_overflow-IsValid g _ _
        (moved_cursor-IsValid t t.cursor_x _ v v.x_in (clamp-lt g.rows _ w.rows_pos))

  cursor_right-IsValid :
      (params : Bytes) (t : Term) → IsValid g t → IsValid g (cursor_right g params t)
  unfolding cursor_right
  cursor_right-IsValid params t v =
      note_overflow-IsValid g _ _
        (moved_cursor-IsValid t _ t.cursor_y v (clamp-lt g.cols _ w.cols_pos) v.y_in)

  -- An erase of columns of the cursor's row changes cells alone.
  pub erase_columns-IsValid :
      (from to : ℕ) (t : Term)
      → IsValid g t
      → from ≤ g.cols
      → to ≤ g.cols
      → IsValid g (erase_columns g from to t)
  erase_columns-IsValid from to t v h k =
      rw
        (fill_lem g (to - from) (row g t.cursor_y + from) (blank t.current_attr) t
          (omega (arith, row_in_size g t.cursor_y v.y_in)))
        (with_cells-IsValid g t _ v)

  erase_range-le :
      (mode : ℤ) (x : ℕ)
      → x < g.cols
      → ((erase_range g mode x).0 ≤ g.cols) × ((erase_range g mode x).1 ≤ g.cols)
  erase_range-le (pos zero) x h = omega arith
  erase_range-le (pos (suc zero)) x h = omega arith
  erase_range-le (pos (suc (suc n))) x h = omega arith
  erase_range-le (negsuc n) x h = omega arith

  erase_line-IsValid : (params : Bytes) (t : Term) → IsValid g t → IsValid g (erase_line g params t)
  unfolding erase_line
  erase_line-IsValid params t v =
      let (mode, large) = atoi params in
      let (h, k) = erase_range-le mode t.cursor_x v.x_in in
      let (from, to) = erase_range g mode t.cursor_x in
      note_overflow-IsValid g large _ (erase_columns-IsValid from to t v h k)

  erase_chars-IsValid :
      (params : Bytes) (t : Term) → IsValid g t → IsValid g (erase_chars g params t)
  unfolding erase_chars
  erase_chars-IsValid params t v =
      let end = t.cursor_x + (repeat_count params).0 in
      note_overflow-IsValid g _ _ (
        erase_columns-IsValid t.cursor_x (if ltb g.cols end then g.cols else end) t v (omega arith)
          (ground arith))

  insert_lines-IsValid :
      (params : Bytes) (t : Term) → IsValid g t → IsValid g (insert_lines g params t)
  insert_lines-IsValid params t v =
      rw (insert_lines_lem g params t v.y_in)
        (note_overflow-IsValid g _ _ (with_cells-IsValid g t _ v))

  delete_lines-IsValid :
      (params : Bytes) (t : Term) → IsValid g t → IsValid g (delete_lines g params t)
  delete_lines-IsValid params t v =
      rw (delete_lines_lem g params t v.y_in)
        (note_overflow-IsValid g _ _ (with_cells-IsValid g t _ v))

  device_status-IsValid :
      (params : Bytes) (t : Term) → IsValid g t → IsValid g (device_status params t)
  unfolding device_status
  device_status-IsValid params t v = ground arith

  erase_display-IsValid :
      (params : Bytes) (t : Term) → IsValid g t → IsValid g (erase_display g params t)
  unfolding erase_display
  erase_display-IsValid params t v =
      rw (clear_internal_lem g t w.even) (ground (arith, w.rows_pos, w.cols_pos))

  pub private_mode-IsValid :
      (c : ℕ) (params : Bytes) (t : Term) → IsValid g t → IsValid g (private_mode c params t)
  unfolding private_mode
  private_mode-IsValid c params t v = ground arith

  pub run_csi-IsValid :
      (c : ℕ) (params : Bytes) (t : Term) → IsValid g t → IsValid g (run_csi g c params t)
  unfolding run_csi
  run_csi-IsValid c p t v =
      let P = IsValid g in
      if_both P (c == b'J') _ _ (erase_display-IsValid p t v) (
        if_both P (c == b'H' || c == b'f') _ _ (cursor_position-IsValid p t v) (
          if_both P (c == b'A') _ _ (cursor_up-IsValid p t v) (
            if_both P (c == b'B') _ _ (cursor_down-IsValid p t v) (
              if_both P (c == b'C') _ _ (cursor_right-IsValid p t v) (
                if_both P (c == b'D') _ _ (cursor_left-IsValid p t v) (
                  if_both P (c == b'K') _ _ (erase_line-IsValid p t v) (
                    if_both P (c == b'X') _ _ (erase_chars-IsValid p t v) (
                      if_both P (c == b'L') _ _ (insert_lines-IsValid p t v) (
                        if_both P (c == b'M') _ _ (delete_lines-IsValid p t v)
                          (if_both P (c == b'n') _ _ (device_status-IsValid p t v) v))))))))))
