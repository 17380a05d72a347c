-- ===== src/Vterm/Screen.antt =====
-- src/components/breezy_term/vterm.c and vterm.h: one terminal's cells and cursor, the scroll, the
-- clear and the putchar. Undefined behaviour of the C code is recorded in two flags:
-- `out_of_bounds` for an access outside the cell buffer, and `overflow` for an `int` that overflows.
use breezybox.Prelude.{
  ℕ, zero, suc, ◌+◌, ◌-◌, ◌*◌, ◌/◌, ◌%◌, Bool, true, not, ◌&&◌, ltb, leb, ◌==◌, if◌then◌else◌,
  Bytes,
}

-- VTERM_ROWS and VTERM_COLS, which Kconfig chooses
pub record Geometry : Type 0 where
  pub rows : ℕ
  pub cols : ℕ

-- the number of cells of a buffer
abbrev pub size : Geometry → ℕ
size g = g.rows * g.cols

pub record Cell : Type 0 where
  pub ch : ℕ
  pub attr : ℕ

abbrev pub Cells : Type 0
Cells = ℕ → Cell

-- idle, after ESC, and after ESC [: the values 0, 1 and 2 of `escape_state`
pub data EscapeState : Type 0 where
  idle after_esc in_csi : EscapeState

-- `vterm_t`. `escape_buf` holds the `escape_len` bytes stored so far, and `replies` the bytes handed
-- to `vterm_send_input`.
pub record Term : Type 0 where
  pub cells : Cells
  pub cursor_x : ℕ
  pub cursor_y : ℕ
  pub cursor_visible : Bool
  pub current_attr : ℕ
  pub escape_state : EscapeState
  pub escape_buf : Bytes
  pub replies : Bytes
  pub out_of_bounds : Bool
  pub overflow : Bool

abbrev pub color_black : ℕ
color_black = 0

abbrev pub color_white : ℕ
color_white = 7

abbrev pub color_bright : ℕ
color_bright = 8

-- VTERM_ATTR and its parts. The two nibbles are disjoint, so `|` is a sum; the value is a uint8_t.
abbrev pub attr_of : ℕ → ℕ → ℕ
attr_of fg bg = (bg * 16 + fg % 16) % 256

abbrev pub attr_fg : ℕ → ℕ
attr_fg a = a % 16

abbrev pub attr_bg : ℕ → ℕ
attr_bg a = a / 16 % 16

abbrev pub default_attr : ℕ
default_attr = 7

abbrev pub blank : ℕ → Cell
blank a = record { ch = b' '; attr = a }

-- `cells[i] = c`
unfoldable pub store : Cells → ℕ → Cell → Cells
store m i c j = if i == j then c else m j

unfoldable pub poke : Geometry → ℕ → Cell → Term → Term
unfolding store
poke g i c t =
    if ltb i (size g)
    then record t { cells = store t.cells i c }
    else record t { out_of_bounds = true }

-- `for (x = i; x < i + n; x++) cells[x] = c`
unfoldable pub fill : Geometry → ℕ → ℕ → Cell → Term → Term
unfolding poke
fill g zero i c t = t
fill g (suc n) i c t = fill g n (i + 1) c (poke g i c t)

-- `memmove(&cells[to], &cells[from], n cells)`
unfoldable pub move : Geometry → ℕ → ℕ → ℕ → Term → Term
move g to from n t =
    if leb (to + n) (size g) && leb (from + n) (size g)
    then record t {
      cells = λ i. if leb to i && ltb i (to + n) then t.cells (from + (i - to)) else t.cells i;
    }
    else record t { out_of_bounds = true }

-- the start of row y
abbrev pub row : Geometry → ℕ → ℕ
row g y = y * g.cols

unfoldable pub scroll : Geometry → Term → Term
scroll g t =
    let moved = move g 0 g.cols ((g.rows - 1) * g.cols) t in
    let cleared = fill g g.cols (row g (g.rows - 1)) (blank default_attr) moved in
    record cleared { cursor_y = g.rows - 1 }

-- `cursor_y++`, and a scroll where that leaves the screen
unfoldable pub line_feed : Geometry → Term → Term
line_feed g t =
    if leb g.rows (t.cursor_y + 1)
    then scroll g (record t { cursor_y = t.cursor_y + 1 })
    else record t { cursor_y = t.cursor_y + 1 }

unfoldable pub new_line : Geometry → Term → Term
new_line g t = line_feed g (record t { cursor_x = 0 })

-- `do { … } while (cursor_x < VTERM_COLS && cursor_x % 8 != 0)`; eight rounds are enough.
unfoldable pub tab_loop : Geometry → ℕ → ℕ → Term → Term
tab_loop g zero i t = t
tab_loop g (suc f) i t =
    let written = poke g i (blank t.current_attr) t in
    let next = record written { cursor_x = t.cursor_x + 1 } in
    let again = tab_loop g f (i + 1) next in
    if ltb (t.cursor_x + 1) g.cols && not ((t.cursor_x + 1) % 8 == 0) then again else next

-- the index that the cursor points to
abbrev pub here : Geometry → Term → ℕ
here g t = row g t.cursor_y + t.cursor_x

unfoldable pub backspace : Geometry → Term → Term
backspace g t =
    if ltb 0 t.cursor_x
    then poke g (here g t - 1) (blank t.current_attr) (record t { cursor_x = t.cursor_x - 1 })
    else t

unfoldable pub wrap : Geometry → Term → Term
wrap g t = if leb g.cols t.cursor_x then new_line g t else t

unfoldable pub print_cell : Geometry → ℕ → Term → Term
print_cell g c t =
    let written = poke g (here g t) (record { ch = c; attr = t.current_attr }) t in
    wrap g (record written { cursor_x = t.cursor_x + 1 })

-- c >= 32 && c < 127
abbrev pub is_printable : ℕ → Bool
is_printable c = leb 32 c && ltb c 127

unfoldable pub putchar_internal : Geometry → ℕ → Term → Term
putchar_internal g c t =
    if c == b'\n'
    then new_line g t
    else if c == b'\r'
    then record t { cursor_x = 0 }
    else if c == 8
    then backspace g t
    else if c == b'\t'
    then wrap g (tab_loop g 8 (here g t) t)
    else if is_printable c
    then print_cell g c t
    else t

-- The 32-bit writes of `vterm_clear_internal`, two cells to a round. The buffers come from the heap
-- allocator, which aligns them to four bytes, so that the loop before these makes no round.
unfoldable pub fill_words : Geometry → ℕ → ℕ → Cell → Term → Term
unfolding poke
fill_words g zero i c t = t
fill_words g (suc n) i c t = fill_words g n (i + 2) c (poke g (i + 1) c (poke g i c t))

-- `while (p32 < end)` makes a round for each pair of cells, the last of which may be half outside.
unfoldable pub clear_internal : Geometry → Term → Term
clear_internal g t =
    let cleared = fill_words g ((size g + 1) / 2) 0 (blank default_attr) t in
    record cleared {
      cursor_x = 0;
      cursor_y = 0;
      cursor_visible = true;
      current_attr = default_attr;
    }
