-- ===== src/Prelude/Signed.antt =====
-- C's operators on signed integers, before any question of width.
use Prim.Native.Nat.{ℕ, suc, ◌+◌, ◌-◌, ◌*◌, ◌/◌, ◌%◌, ◌^◌}
use mathlib.Core.Bool.{Bool, true, false, not}
use breezybox.Prelude.Tests.{leb, ◌==◌, if◌then◌else◌}
use breezybox.Prelude.Int.{ℤ, pos, negsuc, negate}

abbrev pub magnitude : ℤ → ℕ
magnitude (pos n) = n
magnitude (negsuc n) = suc n

abbrev pub is_negative : ℤ → Bool
is_negative (pos n) = false
is_negative (negsuc n) = true

abbrev pub signed : Bool → ℕ → ℤ
signed b n = if b then negate n else pos n

abbrev pub differ : Bool → Bool → Bool
differ true b = not b
differ false b = b

-- a - b
abbrev pub difference : ℕ → ℕ → ℤ
difference a b = if leb b a then pos (a - b) else negate (b - a)

unfoldable pub add : ℤ → ℤ → ℤ
add (pos a) (pos b) = pos (a + b)
add (pos a) (negsuc b) = difference a (suc b)
add (negsuc a) (pos b) = difference b (suc a)
add (negsuc a) (negsuc b) = negsuc (suc (a + b))

unfoldable pub opposite : ℤ → ℤ
opposite (pos n) = negate n
opposite (negsuc n) = pos (suc n)

unfoldable pub times : ℤ → ℤ → ℤ
times a b = signed (differ (is_negative a) (is_negative b)) (magnitude a * magnitude b)

-- C divides toward zero, and a remainder has the sign of the dividend.
unfoldable pub quotient : ℤ → ℤ → ℤ
quotient a b = signed (differ (is_negative a) (is_negative b)) (magnitude a / magnitude b)

unfoldable pub remainder : ℤ → ℤ → ℤ
remainder a b = signed (is_negative a) (magnitude a % magnitude b)

abbrev pub is_zero : ℤ → Bool
is_zero (pos n) = n == 0
is_zero (negsuc n) = false

unfoldable pub at_most : ℤ → ℤ → Bool
at_most (pos a) (pos b) = leb a b
at_most (pos a) (negsuc b) = false
at_most (negsuc a) (pos b) = true
at_most (negsuc a) (negsuc b) = leb b a

-- `a >> k`, which rounds down
unfoldable pub shift_right : ℤ → ℕ → ℤ
shift_right (pos n) k = pos (n / 2 ^ k)
shift_right (negsuc n) k = negsuc (n / 2 ^ k)
