-- ===== src/Sound/Voice.antt =====
-- The voices of src/components/breezy_sound/snd_core.c: their envelopes and the notes. The numbers
-- that `snd_note_on` makes of a frequency with floats, a phase increment and a key, are parameters.
use breezybox.Prelude.{
  ℕ, ◌+◌, ◌-◌, ◌*◌, ◌/◌, ◌%◌, ◌^◌, Bool, true, false, not, ◌||◌, leb, ltb, if◌then◌else◌, ℤ, pos,
  negsuc, Option, none, some, List, [], ◌∷◌, get_elem?, set, map,
}
use breezybox.Sound.Osc.{Osc, osc_reset, osc_set_key}

pub data EnvState : Type 0 where
  off attack sustain release : EnvState

-- A `voice_t`; the envelope is never negative.
pub record Voice : Type 0 where
  pub env_state : EnvState
  pub wave : ℕ
  pub vol : ℕ
  pub phase_inc : ℕ
  pub osc : Osc
  pub env : ℕ
  pub seq : ℕ

abbrev pub is_off : EnvState → Bool
is_off off = true
is_off _ = false

abbrev pub attack_step : ℕ
attack_step = 32767 / (44100 * 5 / 1000)

abbrev pub release_step : ℕ
release_step = 32767 / (44100 * 80 / 1000)

-- What the envelope does in front of a sample. A subtraction below zero is set to zero.
abbrev pub env_next : EnvState → Voice → Voice
env_next off v = v
env_next sustain v = v
env_next attack v =
    if leb 32767 (v.env + attack_step)
    then record v { env = 32767; env_state = sustain }
    else record v { env = v.env + attack_step }
env_next release v =
    if leb v.env release_step
    then record v { env = 0; env_state = off }
    else record v { env = v.env - release_step }

unfoldable pub env_step : Voice → Voice
env_step v = env_next v.env_state v

abbrev pub num_voices : ℕ
num_voices = 8

-- The loop that looks for a voice: the first that is off, or else the one with the least `seq`.
unfoldable pub pick_loop : List Voice → ℕ → ℕ → ℕ → ℕ
pick_loop [] i oldest steal = steal
pick_loop (v ∷ voices) i oldest steal =
    let older = pick_loop voices (i + 1) v.seq i in
    let kept = pick_loop voices (i + 1) oldest steal in
    if is_off v.env_state then i else if ltb v.seq oldest then older else kept

unfoldable pub pick : List Voice → ℕ
unfolding pick_loop
pick voices = pick_loop voices 0 (2 ^ 32 - 1) 0

abbrev pub chosen : List Voice → ℤ → Option ℕ
chosen voices (negsuc n) = some (pick voices)
chosen voices (pos n) = if leb num_voices n then none else some n

-- `wave < 0 || wave >= SND_WAVE_COUNT` is the triangle.
abbrev pub known_wave : ℤ → ℕ
known_wave (pos n) = if leb 9 n then 0 else n
known_wave (negsuc n) = 0

abbrev pub bounded_vol : ℤ → ℕ
bounded_vol (pos n) = if ltb 255 n then 255 else n
bounded_vol (negsuc n) = 0

pub record Bank : Type 0 where
  pub voices : List Voice
  pub next_seq : ℕ

abbrev pub next_of : Bank → ℕ
next_of b = (b.next_seq + 1) % 2 ^ 32

abbrev pub started : ℕ → ℤ → ℤ → ℤ → ℕ → ℕ → Voice → Voice
started inc key wave vol seq i v = record v {
  wave = known_wave wave;
  vol = bounded_vol vol;
  phase_inc = inc;
  osc = osc_set_key key (osc_reset ((0x12345678 + i) % 2 ^ 32) v.osc);
  env = 0;
  seq = seq;
  env_state = attack;
}

abbrev pub replace_at : List Voice → ℕ → (Voice → Voice) → Option Voice → List Voice
replace_at voices i f none = voices
replace_at voices i f (some v) = set voices i (f v)

abbrev pub start_at : ℕ → ℤ → ℤ → ℤ → Bank → Option ℕ → Bank × Option ℕ
start_at inc key wave vol b none = (b, none)
start_at inc key wave vol b (some i) = (
  record {
    voices = replace_at b.voices i (started inc key wave vol (next_of b) i) (get_elem? b.voices i);
    next_seq = next_of b;
  },
  some i,
)

-- The voice that plays the note; `none` is -1.
unfoldable pub note_on : Bool → ℤ → ℕ → ℤ → ℤ → ℤ → Bank → Bank × Option ℕ
unfolding pick osc_reset osc_set_key
note_on has_task voice inc key wave vol b =
    if has_task then start_at inc key wave vol b (chosen b.voices voice) else (b, none)

abbrev pub faded : EnvState → Voice → Voice
faded attack v = record v { env_state = release }
faded sustain v = record v { env_state = release }
faded _ v = v

abbrev pub fade : Voice → Voice
fade v = faded v.env_state v

unfoldable pub note_off : Bool → ℤ → Bank → Bank
note_off has_task (negsuc n) b = b
note_off has_task (pos n) b =
    if not has_task || leb num_voices n
    then b
    else record b { voices = replace_at b.voices n fade (get_elem? b.voices n) }

-- The part of `snd_all_off` that is about voices.
unfoldable pub release_all : Bool → Bank → Bank
release_all has_task b = if has_task then record b { voices = map fade b.voices } else b
