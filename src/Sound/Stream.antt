-- ===== src/Sound/Stream.antt =====
-- src/components/breezy_sound/snd_core.c: the stream of frames that a program writes and the mixer
-- task reads. Both run at once, so a write is cut into the steps that the other side can see between.
use breezybox.Prelude.{
  ℕ, zero, suc, ◌+◌, ◌-◌, ◌%◌, ◌^◌, ◌≤◌, ◌<◌, ◌≡◌, Bool, true, false, not, ◌||◌, leb, ltb, ◌==◌,
  if◌then◌else◌, ℤ, pos, negsuc, Option, none, some, List, [], ◌∷◌, ◌++◌, length, take,
}
pub mod Queue
mod Window
pub mod Holds
pub mod Refines

abbrev pub stream_frames : ℕ
stream_frames = 4096

-- a + b and a - b of uint32_t
abbrev pub add32 : ℕ → ℕ → ℕ
add32 a b = (a + b) % 2 ^ 32

abbrev pub sub32 : ℕ → ℕ → ℕ
sub32 a b = (a + 2 ^ 32 - b) % 2 ^ 32

-- the left and the right sample
abbrev pub Frame : Type 0
Frame = ℤ × ℤ

-- Where the program is in `snd_stream_write`: its `head`, and the frames that it has still to copy.
pub data Writer : Type 0 where
  idle : Writer
  copying : ℕ → List Frame → Writer

-- The variables of the stream, and `avail` of the mixer.
pub record Stream : Type 0 where
  pub buf : ℕ → Frame
  pub head : ℕ
  pub tail : ℕ
  pub is_on : Bool
  pub channels : ℕ
  pub writer : Writer
  pub avail : ℕ

-- `int space = (int)(STREAM_FRAMES - (g_str_head - g_str_tail))`
abbrev pub space32 : Stream → ℕ
space32 s = sub32 stream_frames (sub32 s.head s.tail)

abbrev pub signed32 : ℕ → ℤ
signed32 w = if ltb w (2 ^ 31) then pos w else negsuc (2 ^ 32 - w - 1)

unfoldable pub stream_space : Stream → ℤ
stream_space s = if s.is_on then signed32 (space32 s) else pos 0

-- The frames that fit; a negative space takes none.
abbrev pub fitting : Stream → List Frame → List Frame
fitting s frames = if ltb (space32 s) (2 ^ 31) then take (space32 s) frames else []

abbrev pub put_frame : ℕ → Frame → (ℕ → Frame) → ℕ → Frame
put_frame i f buf j = if i == j then f else buf j

-- What can happen: the program calls snd_stream_write, its loop copies a frame, the copied frames
-- are published, the program closes the stream, the mixer reads how many frames there are at the
-- start of a chunk, and it takes one.
pub data Event : Type 0 where
  write : List Frame → Event
  copy publish close look consume : Event

abbrev pub begin_write : List Frame → Stream → Writer → Option (Stream × List Frame)
begin_write frames s idle =
    if s.is_on then some (record s { writer = copying s.head (fitting s frames) }, []) else none
begin_write frames s (copying head left) = none

abbrev pub copy_frame : Stream → Writer → Option (Stream × List Frame)
copy_frame s idle = none
copy_frame s (copying head []) = none
copy_frame s (copying head (f ∷ left)) = some (
  record s { buf = put_frame (head % stream_frames) f s.buf; writer = copying (add32 head 1) left },
  [],
)

abbrev pub publish_frames : Stream → Writer → Option (Stream × List Frame)
publish_frames s idle = none
publish_frames s (copying head []) = some (record s { head = head; writer = idle }, [])
publish_frames s (copying head (f ∷ left)) = none

abbrev pub consume_frame : Stream → ℕ → Option (Stream × List Frame)
consume_frame s zero = none
consume_frame s (suc avail) =
    some (record s { tail = add32 s.tail 1; avail = avail }, s.buf (s.tail % stream_frames) ∷ [])

-- A step gives the frames that it plays; `none` where the event cannot happen.
unfoldable pub step : Event → Stream → Option (Stream × List Frame)
step (write frames) s = begin_write frames s s.writer
step copy s = copy_frame s s.writer
step publish s = publish_frames s s.writer
step close s = some (record s { is_on = false }, [])
step look s = some (record s { avail = if s.is_on then sub32 s.head s.tail else 0 }, [])
step consume s = consume_frame s s.avail

-- A run of a machine that plays frames at its steps.
module _ {S : Type 0} where
  abbrev pub with_played : List Frame → Option (S × List Frame) → Option (S × List Frame)
  with_played played none = none
  with_played played (some (s, later)) = some (s, played ++ later)

  abbrev pub run_on :
      (S → Option (S × List Frame)) → Option (S × List Frame) → Option (S × List Frame)
  run_on rest none = none
  run_on rest (some (s, played)) = with_played played (rest s)

  unfoldable pub run_all :
      (Event → S → Option (S × List Frame)) → List Event → S → Option (S × List Frame)
  run_all machine [] s = some (s, [])
  run_all machine (e ∷ events) s = run_on (run_all machine events) (machine e s)

unfoldable pub run : List Event → Stream → Option (Stream × List Frame)
unfolding step run_all
run events s = run_all step events s

-- The interleaved samples as frames; one channel goes to both sides.
unfoldable pub frames_of : ℕ → List ℤ → List Frame
frames_of channels [] = []
frames_of channels (l ∷ []) = if channels == 2 then [] else (l, l) ∷ []
frames_of channels (l ∷ r ∷ samples) =
    let stereo = frames_of channels samples in
    let mono = frames_of channels (r ∷ samples) in
    if channels == 2 then (l, r) ∷ stereo else (l, l) ∷ mono

-- Whether it opens; the mixer may be in the middle of a chunk.
unfoldable pub stream_open : Bool → ℕ → ℕ → Stream → Option Stream
stream_open has_task rate channels s =
    if not has_task || (not (rate == 44100) || (not (channels == 1 || channels == 2) || s.is_on))
    then none
    else some (record s { head = 0; tail = 0; channels = channels; is_on = true })
