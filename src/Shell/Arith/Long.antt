-- ===== src/Shell/Arith/Long.antt =====
-- The values of src/components/breezybox/shell/sh_arith.c: a `long`, of 32 bits on the boards, is an
-- integer, and C's operators on it are written out. A result that no `long` holds is kept exact.
use breezybox.Prelude.{
  suc, Bool, true, false, leb, Bytes, ℤ, pos, negsuc, int_max, decimal, [], ◌∷◌,
}
unfoldable pub use breezybox.Prelude.{add, opposite, times, quotient, remainder, at_most}
pub use breezybox.Prelude.{is_zero}

abbrev pub fits : ℤ → Bool
fits (pos n) = leb n int_max
fits (negsuc n) = leb n int_max

-- the value of a C condition
abbrev pub truth : Bool → ℤ
truth true = pos 1
truth false = pos 0

-- `snprintf(buf, sizeof(buf), "%ld", v)`, for a `long`
unfoldable pub print_long : ℤ → Bytes
print_long (pos n) = decimal 10 n []
print_long (negsuc n) = b'-' ∷ decimal 10 (suc n) []
