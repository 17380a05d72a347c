-- ===== src/Sound/Amplitude.antt =====
-- How loud the samples of src/components/breezy_sound/snd_osc.h can be.
use breezybox.Prelude.{
  ℕ, zero, suc, ◌+◌, ◌-◌, ◌*◌, ◌/◌, ◌%◌, ◌^◌, ◌≤◌, ◌<◌, ◌≡◌, refl, Bool, true, false, leb, ltb,
  ◌==◌, if◌then◌else◌, ℤ, pos, negsuc, negate, signed, magnitude, difference, add, times, quotient,
  at_most, shift_right, arith, tests, Bool-cases, inl, inr, if_both, subst,
}
use breezybox.Sound.Osc.{
  Osc, osc_tri15, osc_sin15, clamp, u32, noise, tilted_saw, saw, square_at, organ, phaser, epiano,
  plain_wave, osc_sample,
}

pub magnitude-negate : (n : ℕ) → magnitude (negate n) ≡ n
magnitude-negate zero = refl
magnitude-negate (suc n) = refl

magnitude-signed : (b : Bool) (n : ℕ) → magnitude (signed b n) ≡ n
magnitude-signed true n = magnitude-negate n
magnitude-signed false n = refl

pub magnitude-times : (a b : ℤ) → magnitude (times a b) ≡ magnitude a * magnitude b
unfolding times
magnitude-times a b = magnitude-signed _ (magnitude a * magnitude b)

pub magnitude-quotient : (a b : ℤ) → magnitude (quotient a b) ≡ magnitude a / magnitude b
unfolding quotient
magnitude-quotient a b = magnitude-signed _ (magnitude a / magnitude b)

pub difference-le : (n a b : ℕ) → a ≤ n + b → b ≤ n + a → magnitude (difference a b) ≤ n
difference-le n a b h k = elim (Bool-cases (leb b a)) [
  | inl e ↦ rw e (omega (arith, h))
  | inr e ↦ rw (e, magnitude-negate (b - a)) (omega (arith, k))
]

pub magnitude-add-le : (a b : ℤ) → magnitude (add a b) ≤ magnitude a + magnitude b
unfolding add
magnitude-add-le (pos a) (pos b) = omega arith
magnitude-add-le (pos a) (negsuc b) =
    difference-le (a + suc b) a (suc b) (omega arith) (omega arith)
magnitude-add-le (negsuc a) (pos b) =
    difference-le (suc a + b) b (suc a) (omega arith) (omega arith)
magnitude-add-le (negsuc a) (negsuc b) = omega arith

-- A shift by fourteen rounds down, which for a negative number is away from zero.
magnitude-shift_14 : (n : ℕ) (a : ℤ) → magnitude a ≤ n * 2 ^ 14 → magnitude (shift_right a 14) ≤ n
unfolding shift_right
magnitude-shift_14 n (pos a) h = omega arith
magnitude-shift_14 n (negsuc a) h = omega arith

magnitude-shift_15 : (n : ℕ) (a : ℤ) → magnitude a ≤ n * 2 ^ 15 → magnitude (shift_right a 15) ≤ n
unfolding shift_right
magnitude-shift_15 n (pos a) h = omega arith
magnitude-shift_15 n (negsuc a) h = omega arith

product_le : (a b : ℕ) → a * (a + b + b) ≤ (a + b) * (a + b)
product_le a b = grind arith

square_le : (a : ℕ) → a ≤ 16384 → a * (32768 - a) ≤ 16384 * 16384
square_le a h =
    let e : a + (16384 - a) ≡ 16384 = omega arith in
    let d : a + (16384 - a) + (16384 - a) ≡ 32768 - a = omega arith in
    let p : a * (a + (16384 - a) + (16384 - a)) ≤ (a + (16384 - a)) * (a + (16384 - a)) =
      product_le a (16384 - a) in
    subst (λ x. a * x ≤ 16384 * 16384) d
      (subst (λ x. a * (a + (16384 - a) + (16384 - a)) ≤ x * x) e p)

difference-pos : (a b : ℕ) → b ≤ a → magnitude (difference a b) ≡ a - b
difference-pos a b h = ground arith

-- A clamp keeps to its limit.
pub clamp-le : (limit : ℕ) (y : ℤ) → magnitude (clamp limit y) ≤ limit
unfolding clamp at_most
clamp-le zero (pos n) = ground arith
clamp-le zero (negsuc n) = ground arith
clamp-le (suc limit) (pos n) = ground arith
clamp-le (suc limit) (negsuc n) = ground arith

tri15-le : (p : ℕ) → p < 32768 → magnitude (osc_tri15 p) ≤ 16384
unfolding osc_tri15
tri15-le p h = elim (Bool-cases (ltb p 16384)) [
  | inl e ↦ rw e (difference-le 16384 (p * 2) 16384 (omega (tests, e)) (omega arith))
  | inr e ↦ rw e (
      let k : 16384 ≤ p = ground arith in
      difference-le 16384 49150 (p * 2) (omega arith) (omega arith))
]

sin15-le : (phase : ℕ) → magnitude (osc_sin15 phase) ≤ 16384
unfolding osc_sin15
sin15-le phase =
    magnitude-shift_14 16384 _ (rw (magnitude-times t (difference 32768 (magnitude t))) bounded)
  where
    t : ℤ
    t = osc_tri15 (phase / 2 ^ 17 % 2 ^ 15)

    t-le : magnitude t ≤ 16384
    t-le = tri15-le (phase / 2 ^ 17 % 2 ^ 15) (omega arith)

    rest : magnitude (difference 32768 (magnitude t)) ≡ 32768 - magnitude t
    rest = difference-pos 32768 (magnitude t) (omega (arith, t-le))

    bounded : magnitude t * magnitude (difference 32768 (magnitude t)) ≤ 16384 * 2 ^ 14
    bounded = rw rest (square_le (magnitude t) t-le)

tilted_saw-le : (p : ℕ) → p < 32768 → magnitude (tilted_saw p) ≤ 16384
unfolding tilted_saw
tilted_saw-le p h = elim (Bool-cases (ltb p 28672)) [
  | inl e ↦ rw e (difference-le 16384 (p * 8 / 7) 16384 (omega (tests, e)) (omega arith))
  | inr e ↦ rw e (
      let k : 28672 ≤ p = ground arith in
      difference-le 16384 ((32767 - p) * 8) 16384 (omega arith) (omega arith))
]

saw-le : (p : ℕ) → p < 32768 → magnitude (saw p) ≤ 16384
unfolding saw
saw-le p h = magnitude-shift_15 16384 _ (
    rw (magnitude-times (difference p 16384) (pos 21398))
      (omega (arith, difference-le 16384 p 16384 (omega (arith, h)) (omega arith))))

square_at-le : (duty p : ℕ) → magnitude (square_at duty p) ≤ 16384
square_at-le duty p =
    if_both (λ (z : ℤ). magnitude z ≤ 16384) (ltb p duty) _ _ (omega arith) (omega arith)

ninth-le : (z : ℤ) → magnitude z ≤ 147456 → magnitude (quotient z (pos 9)) ≤ 16384
ninth-le z h = rw (magnitude-quotient z (pos 9)) (omega (arith, h))

-- 98304 and 32768 less the distance to the middle of the half
folded-le :
    (top n : ℕ) (z : ℤ)
    → top ≤ 98304
    → magnitude z ≤ n
    → n ≤ 147456 + top
    → magnitude (difference top (magnitude z)) ≤ 147456
folded-le top n z h k l =
    difference-le 147456 top (magnitude z) (omega (arith, h)) (omega (arith, k, l))

organ-le : (p : ℕ) → p < 32768 → magnitude (organ p) ≤ 16384
unfolding organ
organ-le p h = elim (Bool-cases (ltb p 16384)) [
  | inl e ↦
      let z = difference (24 * p) 196608 in
      rw e (
        ninth-le (difference 98304 (magnitude z)) (
          folded-le 98304 196608 z (omega arith)
            (difference-le 196608 (24 * p) 196608 (omega (tests, e)) (omega arith)) (omega arith)))
  | inr e ↦
      let z = difference (16 * p) 393216 in
      let k : 16384 ≤ p = ground arith in
      rw e (
        ninth-le (difference 32768 (magnitude z)) (
          folded-le 32768 131072 z (omega arith)
            (difference-le 131072 (16 * p) 393216 (omega (arith, h)) (omega (arith, k)))
            (omega arith)))
]

-- Twice or three times one wave and once another.
sum-le : (k : ℕ) (a b : ℤ) → magnitude (add (times (pos k) a) b) ≤ k * magnitude a + magnitude b
sum-le k a b = omega (arith, magnitude-add-le (times (pos k) a) b, magnitude-times (pos k) a)

third-le :
    (a b : ℤ)
    → magnitude a ≤ 16384
    → magnitude b ≤ 16384
    → magnitude (quotient (add (times (pos 2) a) b) (pos 3)) ≤ 16384
third-le a b h k =
    rw (magnitude-quotient (add (times (pos 2) a) b) (pos 3)) (omega (arith, sum-le 2 a b, h, k))

quarter-le :
    (a b : ℤ)
    → magnitude a ≤ 16384
    → magnitude b ≤ 16384
    → magnitude (quotient (add (times (pos 3) a) b) (pos 4)) ≤ 16384
quarter-le a b h k =
    rw (magnitude-quotient (add (times (pos 3) a) b) (pos 4)) (omega (arith, sum-le 3 a b, h, k))

phaser-le : (p p2 : ℕ) → p < 32768 → p2 < 32768 → magnitude (phaser p p2) ≤ 16384
unfolding phaser
phaser-le p p2 h k = third-le (osc_tri15 p) (osc_tri15 p2) (tri15-le p h) (tri15-le p2 k)

epiano-le : (phase : ℕ) → magnitude (epiano phase) ≤ 16384
unfolding epiano
epiano-le phase =
    quarter-le (osc_sin15 phase) (osc_sin15 (u32 (phase * 4))) (sin15-le phase)
      (sin15-le (u32 (phase * 4)))

plain_wave-le :
    (wave : ℕ) (o : Osc)
    → o.phase < 2 ^ 32
    → o.phase2 < 2 ^ 32
    → magnitude (plain_wave wave o) ≤ 16384
unfolding plain_wave
plain_wave-le wave o h k = if_both Small (wave == 0) _ _ (tri15-le p p_in) (
    if_both Small (wave == 1) _ _ (tilted_saw-le p p_in) (
      if_both Small (wave == 2) _ _ (saw-le p p_in) (
        if_both Small (wave == 3) _ _ (square_at-le 16384 p) (
          if_both Small (wave == 4) _ _ (square_at-le 10355 p) (
            if_both Small (wave == 5) _ _ (organ-le p p_in) (
              if_both Small (wave == 7) _ _
                (phaser-le p (o.phase2 / 2 ^ 17) p_in (omega (arith, k)))
                (if_both Small (wave == 8) _ _ (epiano-le o.phase) (omega arith))))))))
  where
    Small : ℤ → Type 0
    Small z = magnitude z ≤ 16384

    p : ℕ
    p = o.phase / 2 ^ 17

    p_in : p < 32768
    p_in = omega (arith, h)

-- A sample of any wave but the noise is within 16384 of zero, and of the noise within 32767.
pub osc_sample-le :
    (wave inc noise_c : ℕ) (o : Osc)
    → o.phase < 2 ^ 32
    → o.phase2 < 2 ^ 32
    → magnitude (osc_sample wave inc noise_c o).0 ≤ (if wave == 6 then 32767 else 16384)
unfolding osc_sample
osc_sample-le wave inc noise_c o h k = go (wave == 6)
  where
    go :
        (b : Bool)
        → magnitude (if b then noise inc noise_c o else (plain_wave wave o, o)).0
          ≤ (if b then 32767 else 16384)
    go true = unfold noise in clamp-le 32767 _
    go false = plain_wave-le wave o h k
