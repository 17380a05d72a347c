-- ===== src/Prelude/Decimal.antt =====
-- Numbers printed in decimal are read back.
use Prim.Native.Nat.{ℕ, zero, suc, ◌+◌, ◌*◌, ◌/◌, ◌%◌, ◌^◌, ◌<◌}
use mathlib.Core.Path.{◌≡◌, refl, ◌∙◌}
use mathlib.Core.Logic.{inl, inr}
use mathlib.Core.Bool.{true, false}
use mathlib.Core.List.{[], ◌∷◌}
use mathlib.Core.Option.{some}
use native.Mathlib.Omega.{arith}
use native.Mathlib.Nat.{pow-suc}
use breezybox.Prelude.Tests.{ltb, Bool-cases}
use breezybox.Prelude.Text.{Bytes, is_digit, peek}
use breezybox.Prelude.Int.{
  pos, int_max, digits, skip_space, is_space, scan_digits, scan_signed, scan_int, decimal,
}

digits-digit :
    (n d m : ℕ) (s : Bytes) → d < 10 → m ≡ n * 10 + d → digits n ((b'0' + d) ∷ s) ≡ digits m s
unfolding digits
digits-digit n d m s h e = ground arith

pub digits_stop : (n : ℕ) (s : Bytes) → is_digit (peek s) ≡ false → digits n s ≡ (n, s)
unfolding digits
digits_stop n [] h = refl
digits_stop n (c ∷ s) h = ground arith

pub digits-decimal :
    (f n : ℕ) (after : Bytes) → n < 10 ^ f → digits 0 (decimal f n after) ≡ digits n after
unfolding decimal
digits-decimal zero n after h = let e : n ≡ 0 = omega arith in rw e
digits-decimal (suc f) n after h = elim (Bool-cases (ltb n 10)) [
  | inl small ↦ rw small (digits-digit 0 n n after (ground arith) (omega arith))
  | inr large ↦ rw large (
      digits-decimal f (n / 10) ((b'0' + n % 10) ∷ after) (omega (arith, pow-suc 10 f))
      ∙ digits-digit (n / 10) (n % 10) n after (omega arith) (omega arith))
]

starts_digit :
    (f n : ℕ) (after : Bytes)
    → is_digit (peek after) ≡ true
    → is_digit (peek (decimal f n after)) ≡ true
unfolding decimal
starts_digit zero n after h = h
starts_digit (suc f) n after h = ground (arith, starts_digit f (n / 10) ((b'0' + n % 10) ∷ after))

-- The first byte of a printed number is a digit.
pub decimal-digit : (f n : ℕ) (after : Bytes) → is_digit (peek (decimal (suc f) n after)) ≡ true
unfolding decimal
decimal-digit f n after = ground (arith, starts_digit f (n / 10) ((b'0' + n % 10) ∷ after))

not_space : (c : ℕ) → is_digit c ≡ true → is_space c ≡ false
not_space c h = ground arith

scan_int-digit : (s : Bytes) → is_digit (peek s) ≡ true → scan_int s ≡ some (scan_digits false s)
unfolding scan_int skip_space
scan_int-digit [] h = absurd (ground arith)
scan_int-digit (c ∷ s) h = rw (not_space c h, scan_signed) (ground arith)

-- `%d` reads back a printed number, and stops behind it.
pub scan_int-decimal :
    (n : ℕ) (after : Bytes)
    → n < 10 ^ 10
    → is_digit (peek after) ≡ false
    → scan_int (decimal 10 n after)
      ≡ some (record { value = pos n; too_large = ltb int_max n; rest = after })
scan_int-decimal n after h k =
    let e : digits 0 (decimal 10 n after) ≡ (n, after) =
      digits-decimal 10 n after h ∙ digits_stop n after k in
    scan_int-digit (decimal 10 n after) (decimal-digit 9 n after) ∙ rw e
