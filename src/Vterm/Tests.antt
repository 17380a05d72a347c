-- ===== src/Vterm/Tests.antt =====
-- Runs of the terminals of src/components/breezy_term/vterm.c on a small screen, and the theorems
-- at inputs that meet their hypotheses.
use breezybox.Prelude.{
  take, ℕ, zero, suc, ◌+◌, ◌-◌, ◌%◌, ◌≤◌, ◌≡◌, refl, true, false, if◌then◌else◌, ltb, ◌==◌, Bytes,
  codes, digits, pos, Option, none, some, [], ◌∷◌, ◌++◌, map, arith,
}
use breezybox.Vterm.Screen.{
  Geometry, size, store, Cell, idle, Term, blank, default_attr, poke, clear_internal,
}
use breezybox.Vterm.Sgr.{apply_sgr, sgr_loop, sgr_round, sgr_start}
use breezybox.Vterm.Escape.{
  insert_lines, delete_lines, device_status, cursor_position, esc, handle_escape, escape_in,
  esc_byte, csi_byte, finish_csi, run_csi,
}
use breezybox.Vterm.Write.{write, write_loop, write_byte, fast_byte, slow_byte}
use breezybox.Vterm.Layout.{IsGeometry, cleared, clear_internal_even_odd}
use breezybox.Vterm.Valid.{IsValid}
use breezybox.Vterm.Fast.{write_slowly, write-write_slowly, write-IsValid}
use breezybox.Vterm.SgrLoop.{is_plain, sgr_loop_ends}
use breezybox.Vterm.Lines.{lines_asked, cell_at, insert_delete_rows}
use breezybox.Vterm.Cursor.{report_round_trip}
use breezybox.Vterm.Manager.{
  Manager, hot, stored, term_of, switch, write_to, enter_graphics_mode, exit_graphics_mode,
}
use breezybox.Vterm.Switching.{
  is_hot, IsManaged, Switched, target, switch-Switched, Replaced, write_to_lem,
}
use breezybox.Vterm.Graphics.{graphics_round_trip, graphics_switch}
use breezybox.Vterm.Hotkey.{match_hotkey, match_ss3, match_ctrl, match_tilde, match_csi_u}

abbrev small : Geometry
small = record { rows = 3; cols = 4 }

small-IsGeometry : IsGeometry small
small-IsGeometry = omega arith

abbrev empty : Term
empty = record {
  cells = λ i. blank default_attr;
  cursor_x = 0;
  cursor_y = 0;
  cursor_visible = true;
  current_attr = default_attr;
  escape_state = idle;
  escape_buf = [];
  replies = [];
  out_of_bounds = false;
  overflow = false;
}

empty-IsValid : IsValid small empty
empty-IsValid = record {
  x_in = omega arith;
  y_in = omega arith;
  attr_in = omega arith;
  buf_in = omega arith;
  in_bounds = refl;
}

-- A colour, two characters and a new line.
abbrev greeting : Bytes
greeting = esc ∷ codes "[31mhi\n"

write-write_slowly_example : write small greeting empty ≡ write_slowly small greeting empty
write-write_slowly_example = write-write_slowly small greeting empty small-IsGeometry empty-IsValid

sgr_loop_ends_example :
    (is_plain (codes ">4;1") ≡ true → (t' : Term) × (apply_sgr (codes ">4;1") empty ≡ some t'))
    × (is_plain (codes ">4;1") ≡ false
        → (apply_sgr (codes ">4;1") empty ≡ none)
          × ((f : ℕ) → sgr_loop f (sgr_start default_attr (codes ">4;1")) ≡ none))
sgr_loop_ends_example = sgr_loop_ends (codes ">4;1") empty

clear_internal_even_odd_example :
    (size small % 2 ≡ 0 → clear_internal small empty ≡ cleared small empty)
    × (size small % 2 ≡ 1 → (clear_internal small empty).out_of_bounds ≡ true)
clear_internal_even_odd_example = clear_internal_even_odd small empty

insert_delete_rows_example :
    let k = lines_asked small (codes "2") empty in
    (1 ≤ k)
    × (0 + k ≤ 3)
    × (cell_at small (insert_lines small (codes "2") empty).cells 1 2 ≡ (
        if ltb 1 0
        then cell_at small empty.cells 1 2
        else if ltb 1 (0 + k)
        then blank default_attr
        else cell_at small empty.cells (1 - k) 2))
    × (cell_at small (delete_lines small (codes "2") empty).cells 1 2 ≡ (
        if ltb 1 0
        then cell_at small empty.cells 1 2
        else if ltb 1 (3 - k)
        then cell_at small empty.cells (1 + k) 2
        else blank default_attr))
insert_delete_rows_example =
    insert_delete_rows small (codes "2") empty 1 2 (omega arith) (omega arith) (omega arith)

report_round_trip_example :
    (text : Bytes) × ((device_status (codes "6") empty).replies
      ≡ [] ++ (esc ∷ b'[' ∷ (text ++ b'R' ∷ [])))
    × (cursor_position small text empty ≡ record empty { cursor_x = 0; cursor_y = 0 })
report_round_trip_example =
    report_round_trip small empty empty empty-IsValid (omega arith) (omega arith)

-- Four terminals, of which the first is active.
abbrev four : Manager
four = record {
  iram = λ i. blank 1;
  slots = λ i. record {
    place = elim i [ zero ↦ hot | suc j ↦ stored ];
    storage = λ k. blank i;
    body = empty;
  };
  active = 0;
  has_callback = true;
  notified = [];
  sent = [];
  room = λ i. 64;
  graphics_active = false;
  saved_active = none;
}

four-IsManaged : IsManaged 4 four
four-IsManaged = record { active_in = omega arith; only_hot = only }
  where
    only : (i : ℕ) → is_hot (four.slots i).place ≡ (0 == i)
    only zero = refl
    only (suc i) = ground arith

switch-Switched_example : Switched 4 (target 4 (pos 2) four) four (switch 4 (pos 2) four)
switch-Switched_example = switch-Switched 4 (pos 2) four four-IsManaged

graphics_round_trip_example :
    Switched 4 0 four
      (exit_graphics_mode 4 (record (enter_graphics_mode 4 four) { iram = λ i. blank 9 }))
graphics_round_trip_example =
    graphics_round_trip 4 four (λ i. blank 9) four-IsManaged (omega arith) refl

abbrev letter : Cell
letter = record { ch = b'a'; attr = default_attr }

-- The second terminal after one letter, written while the first is active.
abbrev lettered : Term
lettered = record empty { cells = store (λ k. blank 1) 0 letter; cursor_x = 1 }

write_letter : write small (codes "a") (record (term_of four 1) { replies = [] }) ≡ some lettered
unfolding write write_loop write_byte fast_byte poke term_of
write_letter = refl

write_to_lem_example :
    (m' : Manager) × (write_to small 4 (pos 1) (codes "a") four ≡ some m')
    × Replaced 4 1 lettered four m'
    × (m'.sent ≡ [] ++ map (λ (c : ℕ). (0, c)) (take 64 []))
write_to_lem_example =
    write_to_lem small 4 1 (codes "a") four four-IsManaged (omega arith) write_letter

graphics_switch_example :
    let m' = exit_graphics_mode 4 (switch 4 (pos 2) (enter_graphics_mode 4 four)) in
    ((m'.slots 0).place ≡ hot) × ((m'.slots 2).place ≡ hot)
graphics_switch_example = graphics_switch 4 2 four four-IsManaged (omega arith) (omega arith) refl

-- The same on a screen that is empty.
abbrev one_letter : Term
one_letter = record lettered { cells = store (λ k. blank default_attr) 0 letter }

write_letter_again : write small (codes "a") empty ≡ some one_letter
unfolding write write_loop write_byte fast_byte poke
write_letter_again = refl

write-IsValid_example : IsValid small one_letter
write-IsValid_example =
    write-IsValid small (codes "a") empty one_letter small-IsGeometry empty-IsValid
      write_letter_again refl

-- F2 as ESC O Q, Ctrl-F3 as ESC [ 1 ; 5 R, F4 as ESC [ 14 ~ and Ctrl-1 as ESC [ 49 ; 5 u
hotkeys :
    (match_hotkey (esc ∷ codes "OQ") ≡ some 1)
    × (match_hotkey (esc ∷ codes "[1;5R") ≡ some 2)
    × (match_hotkey (esc ∷ codes "[14~") ≡ some 3)
    × (match_hotkey (esc ∷ codes "[49;5u") ≡ some 0)
    × (match_hotkey (esc ∷ codes "[A") ≡ none)
unfolding match_hotkey match_ss3 match_ctrl match_tilde match_csi_u digits
hotkeys = (refl, refl, refl, refl, refl)

-- A red character, and the report of the cursor behind it.
abbrev after_red : Option Term → Option (ℕ × ℕ × ℕ × Bytes)
after_red none = none
after_red (some t) = some ((t.cells 0).ch, (t.cells 0).attr, t.cursor_x, t.replies)

red_and_report :
    after_red (write small (esc ∷ codes "[31mh" ++ esc ∷ codes "[6n") empty)
    ≡ some (b'h', 1, 1, esc ∷ codes "[1;2R")
unfolding write write_loop write_byte fast_byte slow_byte handle_escape escape_in esc_byte csi_byte
    finish_csi run_csi apply_sgr sgr_loop sgr_round sgr_start device_status poke
red_and_report = refl
