-- ===== src/Prelude/Int.antt =====
-- Signed integers, and `atoi` and `%d` of the C library over them.
use Prim.Native.Nat.{ℕ, zero, suc, ◌+◌, ◌-◌, ◌*◌, ◌/◌, ◌%◌}
use mathlib.Core.Bool.{Bool, true, false, ◌||◌}
use mathlib.Core.List.{[], ◌∷◌}
use mathlib.Core.Option.{Option, none, some}
use breezybox.Prelude.Tests.{ltb, ◌==◌, if◌then◌else◌}
use breezybox.Prelude.Text.{Bytes, within, is_digit, peek}

-- `negsuc n` is -(n + 1).
pub data ℤ : Type 0 where
  pos : ℕ → ℤ
  negsuc : ℕ → ℤ

abbrev pub negate : ℕ → ℤ
negate zero = pos 0
negate (suc n) = negsuc n

abbrev pub int_max : ℕ
int_max = 2147483647

-- The C locale's `isspace`.
abbrev pub is_space : ℕ → Bool
is_space c = within 9 13 c || c == b' '

-- The number that the digits in front of a text stand for, added to `n`, and the text after them.
unfoldable pub digits : ℕ → Bytes → ℕ × Bytes
digits n [] = (n, [])
digits n (c ∷ s) = if is_digit c then digits (n * 10 + (c - b'0')) s else (n, c ∷ s)

unfoldable pub skip_space : Bytes → Bytes
skip_space [] = []
skip_space (c ∷ s) = if is_space c then skip_space s else c ∷ s

-- What `%d` reads: the value, whether it is too large for an `int`, and the text that is left.
pub record Scanned : Type 0 where
  pub value : ℤ
  pub too_large : Bool
  pub rest : Bytes

abbrev pub scan_digits : Bool → Bytes → Scanned
scan_digits negative s =
    let (n, r) = digits 0 s in
    if negative
    then record { value = negate n; too_large = ltb (int_max + 1) n; rest = r }
    else record { value = pos n; too_large = ltb int_max n; rest = r }

-- `none` is a matching failure: no digit stands behind the spaces and the sign.
abbrev pub scan_signed : Bytes → Option Scanned
scan_signed [] = none
scan_signed (c ∷ s) =
    if c == b'-'
    then if is_digit (peek s) then some (scan_digits true s) else none
    else if c == b'+'
    then if is_digit (peek s) then some (scan_digits false s) else none
    else if is_digit c
    then some (scan_digits false (c ∷ s))
    else none

unfoldable pub scan_int : Bytes → Option Scanned
unfolding digits skip_space
scan_int s = scan_signed (skip_space s)

-- 0 where there is no number
abbrev pub scanned_or_zero : Option Scanned → ℤ × Bool
scanned_or_zero none = (pos 0, false)
scanned_or_zero (some r) = (r.value, r.too_large)

-- The value, and whether it is too large for an `int`, which the C standard leaves undefined.
unfoldable pub atoi : Bytes → ℤ × Bool
unfolding scan_int
atoi s = scanned_or_zero (scan_int s)

-- The decimal digits of a number below 10 ^ fuel.
unfoldable pub decimal : ℕ → ℕ → Bytes → Bytes
decimal zero n after = after
decimal (suc f) n after =
    let more = decimal f (n / 10) ((b'0' + n % 10) ∷ after) in
    if ltb n 10 then (b'0' + n) ∷ after else more
