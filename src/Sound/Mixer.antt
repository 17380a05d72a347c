-- ===== src/Sound/Mixer.antt =====
-- The mixer of src/components/breezy_sound/snd_core.c: a chunk of samples from the voices, the
-- limiter, and the output stage. The tracker, which adds its samples to the same chunk, is a
-- parameter; a chunk is the list of its samples, 256 in the code.
use breezybox.Prelude.{
  ℕ, zero, suc, ◌+◌, ◌-◌, ◌*◌, ◌/◌, ◌^◌, ltb, if◌then◌else◌, ℤ, pos, negsuc, magnitude, add, times,
  opposite, quotient, at_most, negate, shift_right, List, [], ◌∷◌, replicate,
}
use breezybox.Sound.Osc.{osc_sample, osc_advance, clamp}
use breezybox.Sound.Voice.{Voice, is_off, env_step}
use breezybox.Sound.Stream.{Frame}

abbrev pub chunk_frames : ℕ
chunk_frames = 256

abbrev pub noise_44100 : ℕ
noise_44100 = 580580

-- One sample of a voice, by its envelope and its volume.
unfoldable pub scaled : Voice → ℤ → ℤ
unfolding times shift_right
scaled v s = shift_right (times (shift_right (times s (pos v.env)) 15) (pos v.vol)) 8

-- The loop over the samples of one voice, which ends early where the voice goes off.
unfoldable pub render_voice : List ℤ → Voice → List ℤ × Voice
unfolding env_step osc_sample osc_advance scaled add
render_voice [] v = ([], v)
render_voice (m ∷ mix) v =
    let v₁ = env_step v in
    let (s, o) = osc_sample v₁.wave v₁.phase_inc noise_44100 v₁.osc in
    let (mix', v') = render_voice mix (record v₁ { osc = osc_advance v₁.phase_inc o }) in
    if is_off v₁.env_state then (m ∷ mix, v₁) else (add m (scaled v₁ s) ∷ mix', v')

-- The loop over the voices; the last number counts those that were on.
unfoldable pub render_voices : List ℤ → List Voice → List ℤ × List Voice × ℕ
unfolding render_voice
render_voices mix [] = (mix, [], 0)
render_voices mix (v ∷ voices) =
    let (silent_mix, silent_voices, silent) = render_voices mix voices in
    let (mix', v') = render_voice mix v in
    let (mix'', voices', active) = render_voices mix' voices in
    if is_off v.env_state
    then (silent_mix, v ∷ silent_voices, silent)
    else (mix'', v' ∷ voices', active + 1)

unfoldable pub peak_of : ℕ → List ℤ → ℕ
peak_of peak [] = peak
peak_of peak (s ∷ mix) = peak_of (if ltb peak (magnitude s) then magnitude s else peak) mix

-- `g_env`: a slow fall, and a rise to the peak at once
unfoldable pub envelope : ℕ → ℕ → ℕ
envelope env peak = let fallen = env - env / 2 ^ 8 in if ltb fallen peak then peak else fallen

abbrev pub target_gain : ℕ → ℕ → ℕ
target_gain limit env = if ltb limit env then limit * 2 ^ 16 / env else 65536

-- The gain after one more sample.
unfoldable pub slew : ℕ → ℤ → ℤ
unfolding add opposite shift_right
slew target gain = add gain (slewed (add (pos target) (opposite gain)))
  where
    slewed : ℤ → ℤ
    slewed (pos zero) = pos 0
    slewed (pos (suc d)) = pos (suc d / 2 ^ 13 + 1)
    slewed (negsuc d) = shift_right (negsuc d) 4

-- Above the limit a quarter of the excess is kept.
unfoldable pub soft_knee : ℕ → ℤ → ℤ
unfolding at_most add quotient opposite
soft_knee limit s =
    if at_most s (pos limit)
    then if at_most (negate limit) s
      then s
      else add (negate limit) (quotient (add s (pos limit)) (pos 4))
    else add (pos limit) (quotient (add s (negate limit)) (pos 4))

unfoldable pub to_int16 : ℤ → ℤ
unfolding at_most
to_int16 s =
    if at_most s (pos 32767)
    then if at_most (negsuc 32767) s then s else negsuc 32767
    else pos 32767

-- The loop of the limiter.
unfoldable pub limit_loop : ℕ → ℕ → ℤ → List ℤ → List ℤ × ℤ
unfolding slew soft_knee to_int16 times shift_right
limit_loop limit target gain [] = ([], gain)
limit_loop limit target gain (s ∷ mix) =
    let gain₁ = slew target gain in
    let (mono, gain') = limit_loop limit target gain₁ mix in
    (to_int16 (soft_knee limit (shift_right (times s gain₁) 16)) ∷ mono, gain')

pub record Limiter : Type 0 where
  pub gain : ℤ
  pub env : ℕ

abbrev pub limit_chunk : ℕ → Limiter → List ℤ → List ℤ × Limiter
limit_chunk limit l mix =
    let env = envelope l.env (peak_of 0 mix) in
    let (mono, gain) = limit_loop limit (target_gain limit env) l.gain mix in
    (mono, record { gain = gain; env = env })

-- What the tracker makes of the chunk, and how many channels it played.
abbrev pub Tracker : Type 0
Tracker = List ℤ → List ℤ × ℕ

-- The mono chunk, the voices and the limiter afterwards, and how many sources were active.
unfoldable pub render_chunk : ℕ → Tracker → List Voice → Limiter → List ℤ × List Voice × Limiter × ℕ
unfolding render_voices envelope peak_of limit_loop
render_chunk limit tracker voices l =
    let (mix, voices', active) = render_voices (replicate chunk_frames (pos 0)) voices in
    let (mix', playing) = tracker mix in
    let (mono, l') = limit_chunk limit l mix' in (mono, voices', l', active + playing)

unfoldable pub apply_master : ℕ → ℕ → ℤ → ℤ
unfolding clamp times quotient
apply_master limit volume s = clamp limit (quotient (times s (pos volume)) (pos 100))

-- The frames that the stream has ready, in order; behind the last one it is silent.
abbrev pub stereo_sample : ℕ → ℕ → ℤ → ℤ → ℤ
stereo_sample limit volume m x =
    apply_master limit volume (add m (shift_right (times x (pos limit)) 15))

unfoldable pub stereo_out : ℕ → ℕ → List ℤ → List Frame → List ℤ
unfolding apply_master times shift_right add
stereo_out limit volume [] frames = []
stereo_out limit volume (m ∷ mono) [] =
    apply_master limit volume m ∷ apply_master limit volume m ∷ stereo_out limit volume mono []
stereo_out limit volume (m ∷ mono) ((l, r) ∷ frames) =
    stereo_sample limit volume m l
    ∷ stereo_sample limit volume m r
    ∷ stereo_out limit volume mono frames

unfoldable pub mono_out : ℕ → ℕ → List ℤ → List Frame → List ℤ
unfolding apply_master times shift_right add quotient
mono_out limit volume [] frames = []
mono_out limit volume (m ∷ mono) [] = apply_master limit volume m ∷ mono_out limit volume mono []
mono_out limit volume (m ∷ mono) ((l, r) ∷ frames) =
    stereo_sample limit volume m (quotient (add l r) (pos 2)) ∷ mono_out limit volume mono frames

-- `snd_set_volume`
abbrev pub bounded_volume : ℤ → ℕ
bounded_volume (pos n) = if ltb 100 n then 100 else n
bounded_volume (negsuc n) = 0
