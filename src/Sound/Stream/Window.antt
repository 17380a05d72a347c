-- ===== src/Sound/Stream/Window.antt =====
-- The frames in the buffer of src/components/breezy_sound/snd_core.c, by counters that wrap.
use breezybox.Prelude.{
  ℕ, zero, suc, ◌+◌, ◌%◌, ◌^◌, ◌≤◌, ◌<◌, ◌≡◌, ◌≢◌, refl, List, [], ◌∷◌, ◌++◌, length, arith, ap,
  sym, ◌∙◌,
}
use mathlib.Core.Path.{ap₂}
use breezybox.Sound.Stream.{Frame, stream_frames, add32, put_frame}

-- The `n` frames from counter `i` on.
abbrev pub window : (ℕ → Frame) → ℕ → ℕ → List Frame
window buf i zero = []
window buf i (suc n) = buf (i % stream_frames) ∷ window buf (add32 i 1) n

pub length-window : (buf : ℕ → Frame) (i n : ℕ) → length (window buf i n) ≡ n
length-window buf i zero = refl
length-window buf i (suc n) = ap suc (length-window buf (add32 i 1) n)

pub add32_add : (i a b : ℕ) → add32 (add32 i a) b ≡ add32 i (a + b)
add32_add i a b = omega arith

pub add32_zero : (i : ℕ) → i < 2 ^ 32 → add32 i 0 ≡ i
add32_zero i h = omega arith

pub add32-suc : (i n : ℕ) → add32 (add32 i 1) n ≡ add32 i (suc n)
add32-suc i n = omega arith

pub suc_add : (n m : ℕ) → suc n + m ≡ suc (n + m)
suc_add n m = omega arith

pub apart :
    (i m : ℕ)
    → 0 < m
    → m < stream_frames
    → i < 2 ^ 32
    → add32 i m % stream_frames ≢ i % stream_frames
apart i m h k l = omega arith

pub put_frame-ne : (f : Frame) (buf : ℕ → Frame) {i j : ℕ} → i ≢ j → put_frame i f buf j ≡ buf j
put_frame-ne f buf h = ground (arith, h)

pub put_frame_self : (i : ℕ) (f : Frame) (buf : ℕ → Frame) → put_frame i f buf i ≡ f
put_frame_self i f buf = ground arith

pub window-add :
    (buf : ℕ → Frame) (i n m : ℕ)
    → i < 2 ^ 32
    → window buf i (n + m) ≡ window buf i n ++ window buf (add32 i n) m
window-add buf i zero m h = rw (add32_zero i h) (ap (window buf i) (omega arith))
window-add buf i (suc n) m h =
    ap (window buf i) (suc_add n m)
    ∙ ap (λ w. buf (i % stream_frames) ∷ w)
        (window-add buf (add32 i 1) n m (omega arith)
          ∙ ap (λ k. window buf (add32 i 1) n ++ window buf k m) (add32-suc i n))

-- A frame put behind a window, or anywhere but in it, leaves it.
pub window-put :
    (buf : ℕ → Frame) (f : Frame) (i n m : ℕ)
    → n ≤ m
    → m < stream_frames
    → i < 2 ^ 32
    → window (put_frame (add32 i m % stream_frames) f buf) i n ≡ window buf i n
window-put buf f i zero m h k l = refl
window-put buf f i (suc n) zero h k l = absurd (omega (arith, h))
window-put buf f i (suc n) (suc m) h k l =
    ap₂ ◌∷◌ (put_frame-ne f buf (apart i (suc m) (omega arith) k l)) (
      ap (λ j. window (put_frame (j % stream_frames) f buf) (add32 i 1) n) (sym (add32-suc i m))
      ∙ window-put buf f (add32 i 1) n m (omega (arith, h)) (omega (arith, k)) (omega arith))
