-- ===== src/Vterm/Cursor.antt =====
-- The cursor's commands of src/components/breezy_term/vterm.c: a position report read back.
use breezybox.Prelude.{
  ℕ, zero, suc, ◌+◌, ◌/◌, ◌%◌, ◌≤◌, ◌<◌, ◌≡◌, refl, ap, sym, ◌∙◌, Bool, true, false, ◌||◌, ◌==◌,
  Bytes, codes, peek, is_digit, str_eq, str_eq_iff, pos, int_max, decimal, scan_int-decimal,
  decimal-digit, Bool-cases, inl, inr, arith, [], ◌∷◌, ◌++◌,
}
use breezybox.Vterm.Screen.{Geometry, Term}
use breezybox.Vterm.Escape.{
  esc, scan_col, scan_row, scan_position, Position, clamp, zero_based, cursor_position,
  position_report, device_status,
}
use breezybox.Vterm.Valid.{IsValid}

abbrev position_at : ℕ → ℕ → Position
position_at y x = record { at_row = pos (y + 1); at_col = pos (x + 1); too_large = false }

-- The text between ESC [ and R of a report.
abbrev pub report_params : ℕ → ℕ → Bytes
report_params y x = decimal 10 (y + 1) (b';' ∷ decimal 10 (x + 1) [])

decimal-append : (f n : ℕ) (a b : Bytes) → decimal f n (a ++ b) ≡ decimal f n a ++ b
unfolding decimal
decimal-append zero n a b = refl
decimal-append (suc f) n a b = ground (arith, decimal-append f (n / 10) ((b'0' + n % 10) ∷ a) b)

position_report_lem :
    (y x : ℕ) → position_report y x ≡ esc ∷ b'[' ∷ (report_params y x ++ b'R' ∷ [])
unfolding position_report
position_report_lem y x =
    ap (λ (s : Bytes). esc ∷ b'[' ∷ s)
      (ap (λ (s : Bytes). decimal 10 (y + 1) (b';' ∷ s)) (decimal-append 10 (x + 1) [] (b'R' ∷ []))
        ∙ decimal-append 10 (y + 1) (b';' ∷ decimal 10 (x + 1) []) (b'R' ∷ []))

scan_position-report :
    (y x : ℕ) → y < int_max → x < int_max → scan_position (report_params y x) ≡ position_at y x
unfolding scan_position
scan_position-report y x h k =
    rw (scan_int-decimal (y + 1) (b';' ∷ decimal 10 (x + 1) []) (omega arith) refl, scan_row)
      (rw (scan_int-decimal (x + 1) [] (omega arith) refl, scan_col) (ground arith))

home_report :
    (y x : ℕ)
    → y < int_max
    → x < int_max
    → str_eq (report_params y x) (codes "1;1") ≡ true
    → (y ≡ 0) × (x ≡ 0)
home_report y x h k e =
    let same : report_params y x ≡ codes "1;1" = (str_eq_iff _ _).0 e in
    let home : scan_position (codes "1;1") ≡ position_at 0 0 = unfold scan_position in refl in
    let read : position_at y x ≡ position_at 0 0 =
      sym (scan_position-report y x h k) ∙ ap scan_position same ∙ home in
    (ground arith, ground arith)

not_nul : (s : Bytes) → is_digit (peek s) ≡ true → (peek s == 0) ≡ false
not_nul s h = ground arith

clamp_inside : (limit v : ℕ) → v < limit → clamp limit (zero_based (pos (v + 1))) ≡ v
clamp_inside limit v h = ground arith

or_false : (b : Bool) → b || false ≡ b
or_false b = ground arith

-- A position on the screen, once it is scanned, is where the cursor goes.
cursor_position-at :
    (g : Geometry) (text : Bytes) (y x : ℕ) (t : Term)
    → y < g.rows
    → x < g.cols
    → scan_position text ≡ position_at y x
    → (peek text == 0) ≡ false
    → (str_eq text (codes "1;1") ≡ true → (y ≡ 0) × (x ≡ 0))
    → cursor_position g text t ≡ record t { cursor_x = x; cursor_y = y }
unfolding cursor_position
cursor_position-at g text y x t h k e n home = elim (Bool-cases (str_eq text (codes "1;1"))) [
  | inl first ↦ rw (n, first) (let (p, q) = home first in ground arith)
  | inr other ↦
      rw (n, other) (rw e (rw (clamp_inside g.rows y h, clamp_inside g.cols x k) (rw or_false)))
]

-- ESC [ 6 n makes the terminal send ESC [ text R, and ESC [ text H brings the cursor of any terminal
-- of that size to where the cursor was.
pub report_round_trip :
    (g : Geometry) (t t' : Term)
    → IsValid g t
    → g.rows ≤ int_max
    → g.cols ≤ int_max
    → (text : Bytes) × ((device_status (codes "6") t).replies
        ≡ t.replies ++ (esc ∷ b'[' ∷ (text ++ b'R' ∷ [])))
      × (cursor_position g text t' ≡ record t' { cursor_x = t.cursor_x; cursor_y = t.cursor_y })
report_round_trip g t t' v h k = (
  report_params t.cursor_y t.cursor_x,
  unfold device_status in
      ap (λ (s : Bytes). t.replies ++ s) (position_report_lem t.cursor_y t.cursor_x),
  restored,
)
  where
    text : Bytes
    text = report_params t.cursor_y t.cursor_x

    y_fits : t.cursor_y < int_max
    y_fits = omega (arith, v.y_in)

    x_fits : t.cursor_x < int_max
    x_fits = omega (arith, v.x_in)

    restored :
        cursor_position g text t' ≡ record t' { cursor_x = t.cursor_x; cursor_y = t.cursor_y }
    restored =
        cursor_position-at g text t.cursor_y t.cursor_x t' v.y_in v.x_in
          (scan_position-report t.cursor_y t.cursor_x y_fits x_fits)
          (not_nul text (decimal-digit 9 (t.cursor_y + 1) (b';' ∷ decimal 10 (t.cursor_x + 1) [])))
          (home_report t.cursor_y t.cursor_x y_fits x_fits)
