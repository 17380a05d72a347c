-- ===== src/Vterm/Escape.antt =====
-- src/components/breezy_term/vterm.c: `vterm_handle_escape`, the state machine that collects an
-- escape sequence and the commands that it runs.
mod Motion
mod Edit
unfoldable pub use Motion.*
unfoldable pub use Edit.*
use breezybox.Prelude.{
  ℕ, zero, suc, ◌+◌, ◌-◌, ◌*◌, Bool, true, false, ◌&&◌, ◌||◌, ltb, leb, ◌==◌, if◌then◌else◌, Bytes,
  codes, is_letter, str_eq, peek, c_str, drop_last, ℤ, pos, negsuc, int_max, Scanned, scan_int,
  atoi, decimal, Option, none, some, [], ◌∷◌, ◌++◌, length,
}
use breezybox.Vterm.Screen.{
  Geometry, EscapeState, idle, after_esc, in_csi, Term, row, blank, default_attr, fill, move,
  scroll, clear_internal,
}
use breezybox.Vterm.Sgr.{apply_sgr}

-- back to `escape_state = 0; escape_len = 0`
abbrev pub end_escape : Term → Term
end_escape t = record t { escape_state = idle; escape_buf = [] }

abbrev pub end_sgr : Option Term → Option Term
end_sgr none = none
end_sgr (some t) = some (end_escape t)

-- The final letter `c`, with the parameters read as a C string.
unfoldable pub finish_csi : Geometry → ℕ → Bytes → Term → Option Term
finish_csi g c params t =
    if peek params == b'?'
    then some (end_escape (private_mode c params t))
    else if c == b'm'
    then end_sgr (apply_sgr params t)
    else some (end_escape (run_csi g c params t))

-- A byte is kept while there is room for it and for the NUL behind it.
abbrev pub collect : ℕ → Term → Term
collect c t =
    if ltb (length t.escape_buf) escape_room
    then record t { escape_buf = t.escape_buf ++ c ∷ [] }
    else t

-- The final letter's place, which is the last one stored, is made the end of the text.
unfoldable pub csi_params : Bytes → Bytes
unfolding c_str drop_last
csi_params buf = c_str (drop_last buf)

unfoldable pub csi_byte : Geometry → ℕ → Term → Option Term
unfolding csi_params
csi_byte g c t =
    let t' = collect c t in
    if is_letter c then finish_csi g c (csi_params t'.escape_buf) t' else some t'

-- ESC D: down, with a scroll at the bottom
unfoldable pub index_down : Geometry → Term → Term
unfolding scroll
index_down g t =
    if leb (g.rows - 1) t.cursor_y then scroll g t else record t { cursor_y = t.cursor_y + 1 }

-- ESC M: up, with a scroll down at the top
unfoldable pub reverse_index : Geometry → Term → Term
unfolding move fill
reverse_index g t =
    if leb t.cursor_y 0
    then fill g g.cols 0 (blank default_attr) (move g g.cols 0 ((g.rows - 1) * g.cols) t)
    else record t { cursor_y = t.cursor_y - 1 }

-- The byte after ESC: whether it was taken, and the new state.
unfoldable pub esc_byte : Geometry → ℕ → Term → Bool × Term
esc_byte g c t =
    if c == b'['
    then (true, record t { escape_state = in_csi })
    else if c == b'D'
    then (true, record (index_down g t) { escape_state = idle })
    else if c == b'M'
    then (true, record (reverse_index g t) { escape_state = idle })
    else if c == b'E'
    then (true, record (index_down g (record t { cursor_x = 0 })) { escape_state = idle })
    else (false, record t { escape_state = idle })

abbrev pub taken : Option Term → Option (Bool × Term)
taken none = none
taken (some t) = some (true, t)

unfoldable pub escape_in : EscapeState → Geometry → ℕ → Term → Option (Bool × Term)
escape_in idle g c t =
    if c == esc
    then some (true, record t { escape_state = after_esc; escape_buf = [] })
    else some (false, t)
escape_in after_esc g c t = some (esc_byte g c t)
escape_in in_csi g c t = taken (csi_byte g c t)

unfoldable pub handle_escape : Geometry → ℕ → Term → Option (Bool × Term)
unfolding escape_in
handle_escape g c t = escape_in t.escape_state g c t
