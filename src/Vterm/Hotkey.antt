-- ===== src/Vterm/Hotkey.antt =====
-- src/components/breezy_term/vterm.c: the keyboard's side, which holds back the start of an escape
-- sequence until it is known whether that is a hotkey for switching terminals. Time is read from a
-- counter of ticks, which each call is given; `limit` is pdMS_TO_TICKS(20).
use breezybox.Prelude.{
  ℕ, ◌+◌, ◌-◌, ◌%◌, ◌^◌, Bool, true, false, not, ◌&&◌, ◌||◌, ltb, leb, ◌==◌, if◌then◌else◌, within,
  Bytes, digits, pos, Option, none, some, [], ◌∷◌, ◌++◌, length, get_or,
}
use breezybox.Vterm.Manager.{Manager, switch, send_all, send_input}

-- `s_esc_buf`, `s_esc_len` and `s_esc_start`
pub record Pending : Type 0 where
  pub buf : Bytes
  pub start : ℕ

abbrev pub esc_key : ℕ
esc_key = 27

-- `sizeof(s_esc_buf) - 1`
abbrev pub pending_room : ℕ
pending_room = 15

-- P, Q, R and S, for F1 to F4
abbrev pub function_key : ℕ → Option ℕ
function_key c = if within b'P' b'S' c then some (c - b'P') else none

-- ESC O x, and ESC O 5 x
unfoldable pub match_ss3 : Bytes → Option ℕ
match_ss3 b = elim (function_key (get_or b 2 0)) [
  | some k ↦ some k
  | none ↦ if leb 4 (length b) && get_or b 2 0 == b'5' then function_key (get_or b 3 0) else none
]

-- ESC [ 1 ; 5 x
unfoldable pub match_ctrl : Bytes → Option ℕ
match_ctrl b =
    if length b == 6 && (get_or b 2 0 == b'1' && (get_or b 3 0 == b';' && get_or b 4 0 == b'5'))
    then function_key (get_or b 5 0)
    else none

-- The text behind ESC [
abbrev pub after_two : Bytes → Bytes
after_two [] = []
after_two (c ∷ []) = []
after_two (c ∷ d ∷ s) = s

abbrev pub last : Bytes → ℕ
last b = get_or b (length b - 1) 0

-- ESC [ n ~, with or without a modifier, which is not looked at
unfoldable pub match_tilde : Bytes → Option ℕ
match_tilde b =
    let num = (digits 0 (after_two b)).0 in
    if last b == b'~' && within 11 14 num then some (num - 11) else none

-- the number behind a semicolon, or 0
abbrev pub modifier_of : Bytes → ℕ
modifier_of [] = 0
modifier_of (c ∷ s) = if c == b';' then (digits 0 s).0 else 0

-- ESC [ code ; 5 u
unfoldable pub match_csi_u : Bytes → Option ℕ
match_csi_u b =
    let (code, rest) = digits 0 (after_two b) in
    if last b == b'u' && (modifier_of rest == 5 && within 49 52 code)
    then some (code - 49)
    else none

infixr 30 ◌or_else◌
abbrev pub ◌or_else◌ : Option ℕ → Option ℕ → Option ℕ
(some k) or_else o = some k
none or_else o = o

-- `match_vt_hotkey`: the terminal to switch to
unfoldable pub match_hotkey : Bytes → Option ℕ
match_hotkey b =
    if ltb (length b) 3 || not (get_or b 0 0 == esc_key)
    then none
    else if get_or b 1 0 == b'O'
    then match_ss3 b
    else if get_or b 1 0 == b'['
    then match_ctrl b or_else match_tilde b or_else match_csi_u b
    else none

-- the letters and marks that end a sequence
abbrev pub ends_sequence : ℕ → Bool
ends_sequence c = c == b'~' || (c == b'u' || within b'A' b'Z' c)

unfoldable pub could_be_hotkey : Bytes → Bool
could_be_hotkey [] = false
could_be_hotkey (c ∷ []) = c == esc_key
could_be_hotkey (c ∷ c₁ ∷ s) =
    if not (c == esc_key)
    then false
    else if c₁ == b'O' || c₁ == b'['
    then (if ltb 10 (length s + 2)
        then false
        else not (leb 3 (length s + 2) && ends_sequence (last (c ∷ c₁ ∷ s))))
    else false

-- `flush_input_buffer`
unfoldable pub flush_input : ℕ → Pending → Manager → Pending × Manager
flush_input count p m = (record p { buf = [] }, send_all count m.active p.buf m)

-- A byte is kept where there is room.
abbrev pub keep : ℕ → Pending → Pending
keep c p = if ltb (length p.buf) pending_room then record p { buf = p.buf ++ c ∷ [] } else p

-- what follows the look for a hotkey; the result says whether there was one
unfoldable pub after_match : ℕ → Pending → Manager → Option ℕ → Bool × Pending × Manager
unfolding flush_input
after_match count kept m (some vt) = (true, record kept { buf = [] }, switch count (pos vt) m)
after_match count kept m none =
    if could_be_hotkey kept.buf
    then (false, kept, m)
    else (let (p', m') = flush_input count kept m in (false, p', m'))

-- a byte inside an escape sequence
unfoldable pub feed_pending : ℕ → ℕ → Pending → Manager → Bool × Pending × Manager
unfolding after_match
feed_pending count c p m = let kept = keep c p in after_match count kept m (match_hotkey kept.buf)

-- after the time-out
unfoldable pub feed_now : ℕ → ℕ → ℕ → Pending → Manager → Bool × Pending × Manager
feed_now count now c p m =
    if length p.buf == 0
    then (if c == esc_key
        then (false, record { buf = c ∷ []; start = now }, m)
        else (false, p, send_input count m.active c m))
    else feed_pending count c p m

-- `xTaskGetTickCount() - s_esc_start`, on 32-bit ticks
abbrev pub elapsed : ℕ → ℕ → ℕ
elapsed now start = (now + 2 ^ 32 - start) % 2 ^ 32

-- `vterm_input_feed`
unfoldable pub input_feed : ℕ → ℕ → ℕ → ℕ → Pending → Manager → Bool × Pending × Manager
input_feed count limit now c p m =
    if ltb 0 (length p.buf) && ltb limit (elapsed now p.start)
    then (let (p', m') = flush_input count p m in feed_now count now c p' m')
    else feed_now count now c p m
