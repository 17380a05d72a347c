-- ===== src/Sound/Osc.antt =====
-- The oscillator of src/components/breezy_sound/snd_osc.h. A sample is an integer, a phase a number
-- below 2 ^ 32.
use Prim.Native.Nat.{bit_xor}
use breezybox.Prelude.{
  ℕ, ◌+◌, ◌-◌, ◌*◌, ◌/◌, ◌%◌, ◌^◌, ltb, ◌==◌, if◌then◌else◌, ℤ, pos, negsuc, negate, magnitude,
  difference, add, times, quotient, at_most, shift_right,
}

-- `osc_t`; the gain of the noise is never negative
pub record Osc : Type 0 where
  pub phase : ℕ
  pub phase2 : ℕ
  pub rng : ℕ
  pub nsmp : ℤ
  pub nmul : ℕ

abbrev pub default_seed : ℕ
default_seed = 0x12345678

abbrev pub seeded : ℕ → ℕ
seeded seed = if seed == 0 then default_seed else seed

unfoldable pub osc_reset : ℕ → Osc → Osc
osc_reset seed o = record o {
  phase = 0;
  phase2 = 0;
  nsmp = pos 0;
  nmul = 12288;
  rng = if o.rng == 0 then seeded seed else o.rng;
}

-- `key` between 0 and 63
abbrev pub bounded_key : ℤ → ℕ
bounded_key (pos n) = if ltb 63 n then 63 else n
bounded_key (negsuc n) = 0

unfoldable pub osc_set_key : ℤ → Osc → Osc
osc_set_key key o =
    let kq = (63 - bounded_key key) * 32768 / 63 in
    record o { nmul = 12288 + (kq * kq / 2 ^ 15) * 12288 / 2 ^ 15 }

unfoldable pub osc_tri15 : ℕ → ℤ
osc_tri15 p = if ltb p 16384 then difference (p * 2) 16384 else difference 49150 (p * 2)

unfoldable pub osc_sin15 : ℕ → ℤ
unfolding osc_tri15 times shift_right
osc_sin15 phase =
    let t = osc_tri15 (phase / 2 ^ 17 % 2 ^ 15) in
    shift_right (times t (difference 32768 (magnitude t))) 14

-- y where it is between -limit and limit
unfoldable pub clamp : ℕ → ℤ → ℤ
clamp limit y =
    if at_most y (pos limit)
    then if at_most (negate limit) y then y else negate limit
    else pos limit

abbrev pub u32 : ℕ → ℕ
u32 n = n % 2 ^ 32

-- three steps of xorshift
unfoldable pub xorshift : ℕ → ℕ
xorshift r =
    let a = bit_xor r (u32 (r * 2 ^ 13)) in
    let b = bit_xor a (a / 2 ^ 17) in bit_xor b (u32 (b * 2 ^ 5))

unfoldable pub noise : ℕ → ℕ → Osc → ℤ × Osc
unfolding xorshift add times quotient shift_right clamp
noise inc noise_c o =
    let scale = inc * noise_c / 2 ^ 32 in
    let rng = xorshift (seeded o.rng) in
    let num =
      add (times o.nsmp (pos 32768)) (times (pos scale) (difference (rng % 2 ^ 15) 16384)) in
    let nsmp = quotient num (pos (32768 + scale)) in
    (clamp 32767 (shift_right (times nsmp (pos o.nmul)) 12), record o { rng = rng; nsmp = nsmp })

unfoldable pub tilted_saw : ℕ → ℤ
tilted_saw p =
    if ltb p 28672 then difference (p * 8 / 7) 16384 else difference ((32767 - p) * 8) 16384

unfoldable pub saw : ℕ → ℤ
unfolding times shift_right
saw p = shift_right (times (difference p 16384) (pos 21398)) 15

abbrev pub square_at : ℕ → ℕ → ℤ
square_at duty p = if ltb p duty then pos 8192 else negate 8192

unfoldable pub organ : ℕ → ℤ
unfolding quotient
organ p =
    if ltb p 16384
    then quotient (difference 98304 (magnitude (difference (24 * p) 196608))) (pos 9)
    else quotient (difference 32768 (magnitude (difference (16 * p) 393216))) (pos 9)

unfoldable pub phaser : ℕ → ℕ → ℤ
unfolding osc_tri15 add times quotient
phaser p p2 = quotient (add (times (pos 2) (osc_tri15 p)) (osc_tri15 p2)) (pos 3)

unfoldable pub epiano : ℕ → ℤ
unfolding osc_sin15 add times quotient
epiano phase =
    quotient (add (times (pos 3) (osc_sin15 phase)) (osc_sin15 (u32 (phase * 4)))) (pos 4)

-- A wave that leaves the oscillator as it is.
unfoldable pub plain_wave : ℕ → Osc → ℤ
unfolding osc_tri15 tilted_saw saw organ phaser epiano
plain_wave wave o =
    let p = o.phase / 2 ^ 17 in
    if wave == 0
    then osc_tri15 p
    else if wave == 1
    then tilted_saw p
    else if wave == 2
    then saw p
    else if wave == 3
    then square_at 16384 p
    else if wave == 4
    then square_at 10355 p
    else if wave == 5
    then organ p
    else if wave == 7
    then phaser p (o.phase2 / 2 ^ 17)
    else if wave == 8
    then epiano o.phase
    else pos 0

unfoldable pub osc_sample : ℕ → ℕ → ℕ → Osc → ℤ × Osc
unfolding plain_wave noise
osc_sample wave inc noise_c o = if wave == 6 then noise inc noise_c o else (plain_wave wave o, o)

unfoldable pub osc_advance : ℕ → Osc → Osc
osc_advance inc o = record o {
  phase = u32 (o.phase + inc);
  phase2 = u32 (o.phase2 + (inc - inc / 110));
}
