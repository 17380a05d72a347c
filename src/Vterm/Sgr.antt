-- ===== src/Vterm/Sgr.antt =====
-- src/components/breezy_term/vterm.c: `sgr_parse_num` and `vterm_apply_sgr`, which read the
-- parameters of ESC [ … m. The loop of the C code makes no progress at a byte that is neither a
-- digit nor a semicolon, so it runs here on fuel, and `none` says that the fuel ran out.
use breezybox.Prelude.{
  ℕ, zero, suc, ◌+◌, ◌-◌, ◌%◌, Bool, false, ◌&&◌, ◌||◌, ltb, ◌==◌, if◌then◌else◌, within, Bytes,
  peek, digits, int_max, Option, none, some, [], ◌∷◌, length,
}
use breezybox.Vterm.Screen.{
  Term, color_black, color_white, color_bright, attr_of, attr_fg, attr_bg, default_attr,
}

-- the byte behind the number, if it is a semicolon, is passed over
unfoldable pub skip_semicolon : Bytes → Bytes
skip_semicolon [] = []
skip_semicolon (c ∷ s) = if c == b';' then s else c ∷ s

-- The number in front of the text and the text behind it.
unfoldable pub sgr_parse_num : Bytes → ℕ × Bytes
unfolding digits skip_semicolon
sgr_parse_num s = let (n, r) = digits 0 s in (n, skip_semicolon r)

-- The loop's variables: the attribute, `bright`, the text that `p` points to, and whether a number
-- was too large for an `int`.
pub record Sgr : Type 0 where
  pub attr : ℕ
  pub bright : ℕ
  pub p : Bytes
  pub too_large : Bool

-- `num = sgr_parse_num(&p)`
unfoldable pub read_num : Sgr → ℕ × Sgr
unfolding sgr_parse_num
read_num s =
    let (n, r) = sgr_parse_num s.p in
    (n, record s { p = r; too_large = s.too_large || ltb int_max n })

unfoldable pub skip_num : Sgr → Sgr
unfolding read_num
skip_num s = (read_num s).1

-- 38 and 48: the colour is read and not used.
unfoldable pub skip_extended : Sgr → Sgr
unfolding skip_num
skip_extended s =
    let (mode, s') = read_num s in
    if mode == 5 then skip_num s' else if mode == 2 then skip_num (skip_num (skip_num s')) else s'

abbrev pub set_fg : ℕ → Sgr → Sgr
set_fg fg s = record s { attr = attr_of fg (attr_bg s.attr) }

abbrev pub set_bg : ℕ → Sgr → Sgr
set_bg bg s = record s { attr = attr_of (attr_fg s.attr) bg }

-- The branches of one round. `| VTERM_BRIGHT` on a nibble sets its highest bit.
unfoldable pub apply_code : ℕ → Sgr → Sgr
unfolding skip_extended
apply_code num s =
    if within 90 97 num
    then set_fg (num - 90 + color_bright) s
    else if within 30 37 num
    then set_fg (num - 30 + s.bright) s
    else if num == 0
    then record s { attr = default_attr; bright = 0 }
    else if num == 1
    then record s {
      bright = color_bright;
      attr = attr_of (attr_fg s.attr % 8 + color_bright) (attr_bg s.attr);
    }
    else if num == 22
    then record s { bright = 0; attr = attr_of (attr_fg s.attr % 8) (attr_bg s.attr) }
    else if num == 38
    then skip_extended s
    else if num == 39
    then set_fg color_white s
    else if within 40 47 num
    then set_bg (num - 40) s
    else if num == 48
    then skip_extended s
    else if num == 49
    then set_bg color_black s
    else if within 100 107 num
    then set_bg (num - 100 + color_bright) s
    else s

unfoldable pub sgr_round : Sgr → Sgr
unfolding apply_code
sgr_round s = let (num, s') = read_num s in apply_code num s'

unfoldable pub sgr_loop : ℕ → Sgr → Option Sgr
unfolding sgr_round
sgr_loop zero s = none
sgr_loop (suc f) s = elim s.p [ [] ↦ some s | c ∷ r ↦ sgr_loop f (sgr_round s) ]

abbrev pub second : Bytes → ℕ
second [] = 0
second (c ∷ s) = peek s

-- Parameters that are empty, or that begin with a lone 0, reset the attribute at once.
unfoldable pub sgr_start : ℕ → Bytes → Sgr
sgr_start attr [] = record { attr = default_attr; bright = 0; p = []; too_large = false }
sgr_start attr (c ∷ s) =
    if c == b'0' && (peek s == 0 || peek s == b';')
    then record { attr = default_attr; bright = 0; p = skip_semicolon s; too_large = false }
    else record { attr = attr; bright = 0; p = c ∷ s; too_large = false }

unfoldable pub apply_sgr : Bytes → Term → Option Term
unfolding sgr_loop sgr_start
apply_sgr params t = elim (sgr_loop (length params + 1) (sgr_start t.current_attr params)) [
  | none ↦ none
  | some s ↦ some (record t { current_attr = s.attr; overflow = t.overflow || s.too_large })
]
