-- ===== src/Shell/Arith/Scan.antt =====
-- The tokens of src/components/breezybox/shell/sh_arith.c: blanks, operators, names and constants.
use breezybox.Prelude.{
  ℕ, zero, suc, ◌+◌, ◌-◌, ◌*◌, Bool, ◌||◌, ◌==◌, if◌then◌else◌, Bytes, codes, is_digit, is_letter,
  within, peek, digits, Option, none, some, [], ◌∷◌,
}

abbrev pub is_blank : ℕ → Bool
is_blank c = c == b' ' || (c == b'\t' || c == b'\n')

unfoldable pub skip_ws : Bytes → Bytes
skip_ws [] = []
skip_ws (c ∷ s) = if is_blank c then skip_ws s else c ∷ s

-- The text behind an operator, where `strncmp` finds it.
unfoldable pub behind_op : Bytes → Bytes → Option Bytes
behind_op [] s = some s
behind_op (a ∷ op) [] = none
behind_op (a ∷ op) (c ∷ s) = if a == c then behind_op op s else none

abbrev pub starts_name : ℕ → Bool
starts_name c = is_letter c || c == b'_'

abbrev pub in_name : ℕ → Bool
in_name c = starts_name c || is_digit c

-- A name of at most `room` bytes, and the text behind it.
unfoldable pub read_ident : ℕ → Bytes → Bytes × Bytes
read_ident zero s = ([], s)
read_ident (suc room) [] = ([], [])
read_ident (suc room) (c ∷ s) =
    let (name, rest) = read_ident room s in if in_name c then (c ∷ name, rest) else ([], c ∷ s)

abbrev pub is_hex : ℕ → Bool
is_hex c = is_digit c || (within b'a' b'f' c || within b'A' b'F' c)

abbrev pub hex_value : ℕ → ℕ
hex_value c =
    if is_digit c then c - b'0' else if within b'a' b'f' c then c - b'a' + 10 else c - b'A' + 10

unfoldable pub hex_digits : ℕ → Bytes → ℕ × Bytes
hex_digits n [] = (n, [])
hex_digits n (c ∷ s) = if is_hex c then hex_digits (n * 16 + hex_value c) s else (n, c ∷ s)

unfoldable pub octal_digits : ℕ → Bytes → ℕ × Bytes
octal_digits n [] = (n, [])
octal_digits n (c ∷ s) =
    if within b'0' b'7' c then octal_digits (n * 8 + (c - b'0')) s else (n, c ∷ s)

-- A constant and the text behind it, or the message of a failure, at which the text stays.
pub data Constant : Type 0 where
  constant : ℕ → Bytes → Constant
  bad : Bytes → Constant

-- behind `0x`
abbrev pub hex_constant : Bytes → Constant
hex_constant s =
    if is_hex (peek s)
    then (let (n, rest) = hex_digits 0 s in constant n rest)
    else bad (codes "bad hex constant")

-- behind `0`
abbrev pub octal_constant : Bytes → Constant
octal_constant s =
    let (n, rest) = octal_digits 0 s in
    if peek rest == b'8' || peek rest == b'9'
    then bad (codes "bad octal constant")
    else constant n rest

abbrev pub decimal_constant : Bytes → Constant
decimal_constant s = let (n, rest) = digits 0 s in constant n rest

abbrev pub behind_zero : Bytes → Constant
behind_zero [] = constant 0 []
behind_zero (c ∷ s) =
    if c == b'x' || c == b'X'
    then hex_constant s
    else if is_digit c
    then octal_constant (c ∷ s)
    else decimal_constant (b'0' ∷ c ∷ s)

unfoldable pub parse_number : Bytes → Constant
unfolding digits hex_digits octal_digits
parse_number [] = decimal_constant []
parse_number (c ∷ s) = if c == b'0' then behind_zero s else decimal_constant (c ∷ s)
