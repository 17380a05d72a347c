-- ===== src/Vterm/Valid.antt =====
-- The invariant of a terminal of src/components/breezy_term/vterm.c, and what the cursor moves,
-- the scrolls and the fills do to it.
use breezybox.Prelude.{
  ℕ, zero, suc, ◌+◌, ◌-◌, ◌≤◌, ◌<◌, ◌≡◌, refl, false, if_both, ◌==◌, length, arith,
}
use breezybox.Vterm.Screen.{
  Geometry, Term, blank, store, scroll, line_feed, new_line, tab_loop, backspace, wrap, print_cell,
  putchar_internal, here, is_printable,
}
use breezybox.Vterm.Layout.{IsGeometry, here_in_size, poke_lem, scroll_lem, with_cells}

-- The cursor is on the screen, the attribute is a byte, the text collected fits `escape_buf`, and no
-- access was outside the buffer.
pub record IsValid (g : Geometry) (t : Term) : Type 0 where
  pub x_in : t.cursor_x < g.cols
  pub y_in : t.cursor_y < g.rows
  pub attr_in : t.current_attr < 256
  pub buf_in : length t.escape_buf ≤ 31
  pub in_bounds : t.out_of_bounds ≡ false

-- The invariant but for the column, which may have reached the end of the row.
abbrev pub IsWrappable : Geometry → Term → Type 0
IsWrappable g t = IsValid g (record t { cursor_x = 0 })

module _ (g : Geometry) (w : IsGeometry g) where
  pub scroll-IsValid :
      (t : Term)
      → IsWrappable g (record t { cursor_y = 0 })
      → t.cursor_x < g.cols
      → IsValid g (scroll g t)
  scroll-IsValid t v h = rw (scroll_lem g t w.rows_pos) (ground (arith, w.rows_pos))

  line_feed-IsValid : (t : Term) → IsValid g t → IsValid g (line_feed g t)
  unfolding line_feed
  line_feed-IsValid t v =
      ground (arith, w.cols_pos, scroll-IsValid (record t { cursor_y = t.cursor_y + 1 }))

  pub new_line-IsValid : (t : Term) → IsWrappable g t → IsValid g (new_line g t)
  unfolding new_line
  new_line-IsValid t v = line_feed-IsValid (record t { cursor_x = 0 }) v

  pub wrap-IsValid : (t : Term) → IsWrappable g t → IsValid g (wrap g t)
  unfolding wrap
  wrap-IsValid t v = ground (arith, new_line-IsValid t v)

  pub print_cell-IsValid : (c : ℕ) (t : Term) → IsValid g t → IsValid g (print_cell g c t)
  unfolding print_cell
  print_cell-IsValid c t v =
      rw
        (poke_lem g (here g t) (record { ch = c; attr = t.current_attr }) t
          (here_in_size g t.cursor_y t.cursor_x v.y_in v.x_in))
        (wrap-IsValid _ (ground (arith, w.cols_pos)))

  backspace-IsValid : (t : Term) → IsValid g t → IsValid g (backspace g t)
  unfolding backspace
  backspace-IsValid t v = ground (
    arith,
    here_in_size g t.cursor_y t.cursor_x v.y_in v.x_in,
    poke_lem g (here g t - 1) (blank t.current_attr) (record t { cursor_x = t.cursor_x - 1 }),
  )

  -- The loop of a tab stays in the cursor's row.
  tab_loop-IsWrappable :
      (f i : ℕ) (t : Term) → IsValid g t → i ≡ here g t → IsWrappable g (tab_loop g f i t)
  unfolding tab_loop
  tab_loop-IsWrappable zero i t v h = ground (arith, w.cols_pos)
  tab_loop-IsWrappable (suc f) i t v h =
      rw
        (poke_lem g i (blank t.current_attr) t
          (omega (arith, here_in_size g t.cursor_y t.cursor_x v.y_in v.x_in)))
        (ground (
          arith,
          w.cols_pos,
          tab_loop-IsWrappable f (i + 1)
              (record (with_cells t (store t.cells i (blank t.current_attr))) {
                cursor_x = t.cursor_x + 1;
              }),
        ))

  pub carriage_return-IsValid : (t : Term) → IsValid g t → IsValid g (record t { cursor_x = 0 })
  carriage_return-IsValid t v = ground (arith, w.cols_pos)

  pub putchar-IsValid : (c : ℕ) (t : Term) → IsValid g t → IsValid g (putchar_internal g c t)
  unfolding putchar_internal
  putchar-IsValid c t v =
      let first = carriage_return-IsValid t v in
      if_both (IsValid g) (c == b'\n') _ _ (new_line-IsValid t first) (
        if_both (IsValid g) (c == b'\r') _ _ first (
          if_both (IsValid g) (c == 8) _ _ (backspace-IsValid t v) (
            if_both (IsValid g) (c == b'\t') _ _
              (wrap-IsValid _ (tab_loop-IsWrappable 8 (here g t) t v refl))
              (if_both (IsValid g) (is_printable c) _ _ (print_cell-IsValid c t v) v))))
