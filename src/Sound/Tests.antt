-- ===== src/Sound/Tests.antt =====
-- Runs of the parts of src/components/breezy_sound, and the theorems at inputs that meet their
-- hypotheses.
use breezybox.Prelude.{
  ℕ, ◌*◌, ◌≡◌, refl, true, false, ℤ, pos, magnitude, some, List, [], ◌∷◌, inl, arith, ◌^◌, ◌≤◌,
}
use breezybox.Sound.Stream.{
  Frame, idle, Stream, Event, write, copy, publish, look, consume, step, run, run_all, frames_of,
  stream_open, stream_space,
}
use breezybox.Sound.Stream.Queue
use breezybox.Sound.Stream.Holds.{opened}
use breezybox.Sound.Stream.Refines.{frames_played, run_refines, reopened_in_chunk}
use breezybox.Sound.Osc.{Osc, osc_tri15, osc_sample, plain_wave}
use breezybox.Sound.Amplitude.{osc_sample-le}
use breezybox.Sound.Voice.{
  EnvState, off, attack, sustain, release, Voice, pick, pick_loop, is_off, fade,
}
use breezybox.Sound.Power.{Power, round, rounds, alternates, rounds_alternate, silence_stops}
use breezybox.Sound.Notes.{Chosen, pick-Chosen, env_steps, fade_ends}

abbrev mono_frame : ℤ → Frame
mono_frame s = (s, s)

abbrev closed : Stream
closed = record {
  buf = λ i. (pos 0, pos 0);
  head = 7;
  tail = 7;
  is_on = false;
  channels = 2;
  writer = idle;
  avail = 0;
}

abbrev fresh : Stream
fresh = record {
  buf = λ i. (pos 0, pos 0);
  head = 0;
  tail = 0;
  is_on = true;
  channels = 1;
  writer = idle;
  avail = 0;
}

-- A frame that is copied but not published is not seen.
abbrev two_writes : List Event
two_writes =
    write (mono_frame (pos 3) ∷ mono_frame (pos 4) ∷ [])
    ∷ copy
    ∷ look
    ∷ copy
    ∷ publish
    ∷ look
    ∷ consume
    ∷ write (mono_frame (pos 5) ∷ [])
    ∷ consume
    ∷ copy
    ∷ publish
    ∷ []

stream_plays :
    frames_played (run two_writes fresh) ≡ some (mono_frame (pos 3) ∷ mono_frame (pos 4) ∷ [])
unfolding run run_all step
stream_plays = refl

interleaved :
    frames_of 2 (pos 1 ∷ pos 2 ∷ pos 3 ∷ pos 4 ∷ []) ≡ (pos 1, pos 2) ∷ (pos 3, pos 4) ∷ []
unfolding frames_of
interleaved = refl

doubled : frames_of 1 (pos 1 ∷ pos 2 ∷ []) ≡ mono_frame (pos 1) ∷ mono_frame (pos 2) ∷ []
unfolding frames_of
doubled = refl

opens :
    stream_open true 44100 1 closed
    ≡ some (record closed { head = 0; tail = 0; channels = 1; is_on = true })
unfolding stream_open
opens = refl

run_refines_example :
    frames_played
      (run two_writes (record closed { head = 0; tail = 0; channels = 1; is_on = true }))
    ≡ frames_played (Queue.run two_writes opened)
run_refines_example = run_refines true 44100 1 closed _ two_writes refl refl opens

abbrev in_chunk : Stream
in_chunk = record closed { avail = 12 }

reopened_in_chunk_example :
    (s₁ : Stream) × (s₂ : Stream) × (played : List Frame) × (stream_open true 44100 1 in_chunk
      ≡ some s₁)
    × (step consume s₁ ≡ some (s₂, played))
    × (stream_space s₂ ≡ pos 4097)
    × (step look s₂ ≡ some (record s₂ { avail = 4294967295 }, []))
reopened_in_chunk_example = reopened_in_chunk 1 11 in_chunk (inl refl) refl refl

abbrev quiet : Osc
quiet = record { phase = 3 * 2 ^ 29; phase2 = 0; rng = 0; nsmp = pos 0; nmul = 12288 }

-- A quarter of the way down the triangle, and noise from the default seed.
triangle_at : (osc_sample 0 0 0 quiet).0 ≡ pos 8192
unfolding osc_sample plain_wave osc_tri15
triangle_at = refl

osc_sample-le_example : magnitude (osc_sample 8 1000 580580 quiet).0 ≤ 16384
osc_sample-le_example = osc_sample-le 8 1000 580580 quiet (omega arith) (omega arith)

abbrev voice : EnvState → ℕ → Voice
voice e seq = record {
  env_state = e;
  wave = 0;
  vol = 255;
  phase_inc = 42852281;
  osc = quiet;
  env = 32767;
  seq = seq;
}

abbrev busy : List Voice
busy = voice attack 5 ∷ voice release 2 ∷ voice sustain 3 ∷ []

steals_oldest : pick busy ≡ 1
unfolding pick pick_loop
steals_oldest = refl

takes_free : pick (voice attack 5 ∷ voice sustain 2 ∷ voice off 9 ∷ []) ≡ 2
unfolding pick pick_loop
takes_free = refl

pick-Chosen_example : Chosen busy (pick busy)
pick-Chosen_example =
    pick-Chosen (voice attack 5) (voice release 2 ∷ voice sustain 3 ∷ []) (omega arith)

abbrev asleep : Power
asleep = record { is_powered = false; silence_chunks = 0 }

wakes_and_sleeps : (rounds (0 ∷ 1 ∷ 0 ∷ 0 ∷ 0 ∷ 0 ∷ 0 ∷ 0 ∷ 0 ∷ 0 ∷ 0 ∷ []) asleep).0 ≡ asleep
unfolding rounds round
wakes_and_sleeps = refl

rounds_alternate_example : alternates false (rounds (0 ∷ 1 ∷ 0 ∷ 2 ∷ 0 ∷ []) asleep).1 ≡ true
rounds_alternate_example = rounds_alternate (0 ∷ 1 ∷ 0 ∷ 2 ∷ 0 ∷ []) asleep

abbrev playing : Power
playing = record { is_powered = true; silence_chunks = 6 }

silence_stops_example : (rounds (0 ∷ 0 ∷ 0 ∷ []) playing).0.is_powered ≡ false
silence_stops_example = silence_stops playing refl (omega arith)

fade_ends_example : is_off (env_steps 3641 (fade (voice sustain 1))).env_state ≡ true
fade_ends_example = fade_ends 3641 (voice sustain 1) (omega arith) (omega arith)
