-- ===== src/Vterm/Write.antt =====
-- src/components/breezy_term/vterm.c: `vterm_write` on one terminal. It keeps the cursor, the
-- attribute, the escape state and two pointers in local variables, and runs the general code only
-- for what is no plain character.
use breezybox.Prelude.{
  ℕ, ◌+◌, Bool, true, false, not, ◌&&◌, ◌||◌, leb, ◌==◌, if◌then◌else◌, Bytes, Option, none, some,
  [], ◌∷◌,
}
use breezybox.Vterm.Screen.{
  Geometry, EscapeState, idle, after_esc, in_csi, Term, row, poke, scroll, putchar_internal,
  is_printable,
}
use breezybox.Vterm.Escape.{handle_escape}

-- The local variables, and the terminal, whose own cursor, attribute and state are out of date.
pub record Writer : Type 0 where
  pub term : Term
  pub cx : ℕ
  pub cy : ℕ
  pub attr : ℕ
  pub mode : EscapeState
  pub cursor_ptr : ℕ
  pub row_end : ℕ

abbrev pub is_idle : EscapeState → Bool
is_idle idle = true
is_idle after_esc = false
is_idle in_csi = false

-- The cached values, written back.
abbrev pub flush : Writer → Term
flush w = record (w.term) {
  cursor_x = w.cx;
  cursor_y = w.cy;
  current_attr = w.attr;
  escape_state = w.mode;
}

abbrev pub load : Geometry → Term → Writer
load g t = record {
  term = t;
  cx = t.cursor_x;
  cy = t.cursor_y;
  attr = t.current_attr;
  mode = t.escape_state;
  cursor_ptr = row g t.cursor_y + t.cursor_x;
  row_end = row g t.cursor_y + g.cols;
}

-- `cells_base[…]` pointers for the cursor at (x, y)
abbrev pub aim : Geometry → ℕ → ℕ → Writer → Writer
aim g x y w = record w { cx = x; cy = y; cursor_ptr = row g y + x; row_end = row g y + g.cols }

-- The end of a row, in the loop's fast path.
unfoldable pub fast_wrap : Geometry → Writer → Writer
fast_wrap g w =
    if leb g.rows (w.cy + 1)
    then (let scrolled = scroll g (record (w.term) { cursor_x = 0; cursor_y = w.cy + 1 }) in
        aim g 0 scrolled.cursor_y (record w { term = scrolled }))
    else record w {
      cx = 0;
      cy = w.cy + 1;
      cursor_ptr = w.cursor_ptr + 1;
      row_end = w.row_end + g.cols;
    }

unfoldable pub fast_byte : Geometry → ℕ → Writer → Writer
fast_byte g c w =
    let written = record w {
      term = poke g w.cursor_ptr (record { ch = c; attr = w.attr }) w.term;
    } in
    if leb w.row_end (w.cursor_ptr + 1)
    then fast_wrap g written
    else record written { cx = w.cx + 1; cursor_ptr = w.cursor_ptr + 1 }

-- `if (!vterm_handle_escape(vt, c)) vterm_putchar_internal(vt, c)`
abbrev pub or_put : Geometry → ℕ → Option (Bool × Term) → Option Term
or_put g c none = none
or_put g c (some (true, t)) = some t
or_put g c (some (false, t)) = some (putchar_internal g c t)

unfoldable pub slow_byte : Geometry → ℕ → Term → Option Term
slow_byte g c t = or_put g c (handle_escape g c t)

-- The pointers are computed again only where the cursor has moved.
abbrev pub reload : Geometry → Writer → Term → Writer
reload g w t =
    let kept = record w { term = t; attr = t.current_attr; mode = t.escape_state } in
    if not (t.cursor_x == w.cx) || not (t.cursor_y == w.cy)
    then aim g t.cursor_x t.cursor_y kept
    else kept

abbrev pub reload_some : Geometry → Writer → Option Term → Option Writer
reload_some g w none = none
reload_some g w (some t) = some (reload g w t)

unfoldable pub write_byte : Geometry → ℕ → Writer → Option Writer
write_byte g c w =
    if is_idle w.mode && is_printable c
    then some (fast_byte g c w)
    else reload_some g w (slow_byte g c (flush w))

unfoldable pub write_loop : Geometry → Bytes → Writer → Option Writer
write_loop g [] w = some w
write_loop g (c ∷ cs) w = elim (write_byte g c w) [ none ↦ none | some w' ↦ write_loop g cs w' ]

abbrev pub flush_some : Option Writer → Option Term
flush_some none = none
flush_some (some w) = some (flush w)

-- `none` where the C code does not return.
unfoldable pub write : Geometry → Bytes → Term → Option Term
unfolding write_loop
write g bytes t = flush_some (write_loop g bytes (load g t))
