-- ===== src/Vterm/Escape/Motion.antt =====
-- src/components/breezy_term/vterm.c: the numbers in an escape sequence and the commands of
-- `vterm_handle_escape` that move the cursor.
use breezybox.Prelude.{
  ℕ, zero, suc, ◌+◌, ◌-◌, Bool, false, ◌||◌, ltb, leb, ◌==◌, if◌then◌else◌, Bytes, codes, str_eq,
  peek, ℤ, pos, negsuc, int_max, Scanned, scan_int, atoi, Option, none, some, [], ◌∷◌,
}
use breezybox.Vterm.Screen.{Geometry, Term}

abbrev pub esc : ℕ
esc = 27

-- `sizeof(escape_buf) - 1`
abbrev pub escape_room : ℕ
escape_room = 31

abbrev pub note_overflow : Bool → Term → Term
note_overflow b t = record t { overflow = t.overflow || b }

-- `if (n < 1) n = 1`
abbrev pub at_least_one : ℤ → ℕ
at_least_one (pos zero) = 1
at_least_one (pos (suc n)) = suc n
at_least_one (negsuc n) = 1

-- `int n = 1; if (escape_buf[0]) n = atoi(escape_buf); if (n < 1) n = 1`, and whether `atoi` was
-- given a number that no `int` holds. Without a digit `atoi` gives 0, which becomes 1 as well.
unfoldable pub repeat_count : Bytes → ℕ × Bool
unfolding atoi
repeat_count params = let (n, large) = atoi params in (at_least_one n, large)

-- `sscanf(escape_buf, "%d;%d", &row, &col)` with 1 for what it does not assign.
pub record Position : Type 0 where
  pub at_row : ℤ
  pub at_col : ℤ
  pub too_large : Bool

abbrev pub scan_col : ℤ → Bool → Option Scanned → Position
scan_col r large none = record { at_row = r; at_col = pos 1; too_large = large }
scan_col r large (some s) = record {
  at_row = r;
  at_col = s.value;
  too_large = large || s.too_large;
}

abbrev pub scan_after_row : ℤ → Bool → Bytes → Position
scan_after_row r large [] = record { at_row = r; at_col = pos 1; too_large = large }
scan_after_row r large (c ∷ s) =
    if c == b';'
    then scan_col r large (scan_int s)
    else record { at_row = r; at_col = pos 1; too_large = large }

abbrev pub scan_row : Option Scanned → Position
scan_row none = record { at_row = pos 1; at_col = pos 1; too_large = false }
scan_row (some s) = scan_after_row s.value s.too_large s.rest

unfoldable pub scan_position : Bytes → Position
unfolding scan_int
scan_position s = scan_row (scan_int s)

-- `v > 0 ? v - 1 : 0`
abbrev pub zero_based : ℤ → ℕ
zero_based (pos n) = n - 1
zero_based (negsuc n) = 0

-- `if (v >= limit) v = limit - 1`
abbrev pub clamp : ℕ → ℕ → ℕ
clamp limit v = if leb limit v then limit - 1 else v

unfoldable pub cursor_position : Geometry → Bytes → Term → Term
unfolding scan_position str_eq
cursor_position g params t =
    if peek params == 0 || str_eq params (codes "1;1")
    then record t { cursor_x = 0; cursor_y = 0 }
    else (let position = scan_position params in
        note_overflow position.too_large (record t {
          cursor_y = clamp g.rows (zero_based position.at_row);
          cursor_x = clamp g.cols (zero_based position.at_col);
        }))

-- Up and left stop at 0, as the subtraction of numbers does here.
unfoldable pub cursor_up : Bytes → Term → Term
unfolding repeat_count
cursor_up params t =
    let (n, large) = repeat_count params in
    note_overflow large (record t { cursor_y = t.cursor_y - n })

unfoldable pub cursor_left : Bytes → Term → Term
unfolding repeat_count
cursor_left params t =
    let (n, large) = repeat_count params in
    note_overflow large (record t { cursor_x = t.cursor_x - n })

-- The sum is an `int`, which may overflow before it is clamped. The C code is undefined then, and a
-- sum that wraps is a negative row, which the clamp lets through: the flag is set, and what else this
-- gives no longer speaks of the C code.
unfoldable pub cursor_down : Geometry → Bytes → Term → Term
unfolding repeat_count
cursor_down g params t =
    let (n, large) = repeat_count params in
    note_overflow (large || ltb int_max (t.cursor_y + n))
      (record t { cursor_y = clamp g.rows (t.cursor_y + n) })

unfoldable pub cursor_right : Geometry → Bytes → Term → Term
unfolding repeat_count
cursor_right g params t =
    let (n, large) = repeat_count params in
    note_overflow (large || ltb int_max (t.cursor_x + n))
      (record t { cursor_x = clamp g.cols (t.cursor_x + n) })
