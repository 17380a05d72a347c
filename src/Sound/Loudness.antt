-- ===== src/Sound/Loudness.antt =====
-- The output of the mixer of src/components/breezy_sound/snd_core.c keeps to the board's limit.
use breezybox.Prelude.{ℕ, ◌*◌, ◌≤◌, ◌≡◌, refl, ℤ, magnitude, List, [], ◌∷◌, length, arith}
use breezybox.Sound.Amplitude.{clamp-le}
use breezybox.Sound.Stream.{Frame}
use breezybox.Sound.Mixer.{apply_master, stereo_out, mono_out}

-- Every sample is within the limit.
unfoldable pub KeepsTo : ℕ → List ℤ → Type 0
KeepsTo limit [] = Unit
KeepsTo limit (s ∷ samples) = (magnitude s ≤ limit) × KeepsTo limit samples

apply_master-le : (limit volume : ℕ) (s : ℤ) → magnitude (apply_master limit volume s) ≤ limit
unfolding apply_master
apply_master-le limit volume s = clamp-le limit _

-- Two samples for each frame of a stereo board, all within the board's limit.
pub stereo_out-KeepsTo :
    (limit volume : ℕ) (mono : List ℤ) (frames : List Frame)
    → KeepsTo limit (stereo_out limit volume mono frames)
      × (length (stereo_out limit volume mono frames) ≡ 2 * length mono)
unfolding KeepsTo stereo_out
stereo_out-KeepsTo limit volume [] frames = (tt, refl)
stereo_out-KeepsTo limit volume (m ∷ mono) [] =
    let (keeps, twice) = stereo_out-KeepsTo limit volume mono [] in
    (
      (apply_master-le limit volume m, (apply_master-le limit volume m, keeps)),
      omega (arith, twice),
    )
stereo_out-KeepsTo limit volume (m ∷ mono) ((l, r) ∷ frames) =
    let (keeps, twice) = stereo_out-KeepsTo limit volume mono frames in
    (
      (apply_master-le limit volume _, (apply_master-le limit volume _, keeps)),
      omega (arith, twice),
    )

-- One sample for each frame of a mono board, all within the board's limit.
pub mono_out-KeepsTo :
    (limit volume : ℕ) (mono : List ℤ) (frames : List Frame)
    → KeepsTo limit (mono_out limit volume mono frames)
      × (length (mono_out limit volume mono frames) ≡ length mono)
unfolding KeepsTo mono_out
mono_out-KeepsTo limit volume [] frames = (tt, refl)
mono_out-KeepsTo limit volume (m ∷ mono) [] =
    let (keeps, same) = mono_out-KeepsTo limit volume mono [] in
    ((apply_master-le limit volume m, keeps), omega (arith, same))
mono_out-KeepsTo limit volume (m ∷ mono) ((l, r) ∷ frames) =
    let (keeps, same) = mono_out-KeepsTo limit volume mono frames in
    ((apply_master-le limit volume _, keeps), omega (arith, same))
