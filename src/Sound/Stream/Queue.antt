-- ===== src/Sound/Stream/Queue.antt =====
-- What the stream of src/components/breezy_sound/snd_core.c promises: a queue of at most 4096
-- frames, to which a write adds all its frames at once, as many as there was room for when it began.
use breezybox.Prelude.{
  ℕ, suc, ◌-◌, Bool, true, false, if◌then◌else◌, Option, none, some, List, [], ◌∷◌, ◌++◌, length,
  take,
}
use breezybox.Sound.Stream.{
  Frame, stream_frames, Event, write, copy, publish, close, look, consume, run_all,
}

-- `staged` and `left` are the copied and the other frames of the write that is going on, and
-- `known` is how many frames the mixer may still take of those it saw.
pub record Queue : Type 0 where
  pub published : List Frame
  pub staged : List Frame
  pub left : List Frame
  pub is_writing : Bool
  pub is_on : Bool
  pub known : ℕ

abbrev pub copy_next : Queue → List Frame → Option (Queue × List Frame)
copy_next q [] = none
copy_next q (f ∷ left) = some (record q { staged = q.staged ++ f ∷ []; left = left }, [])

abbrev pub publish_all : Queue → List Frame → Option (Queue × List Frame)
publish_all q [] =
    some (record q { published = q.published ++ q.staged; staged = []; is_writing = false }, [])
publish_all q (f ∷ left) = none

abbrev pub take_first : Queue → ℕ → List Frame → Option (Queue × List Frame)
take_first q (suc known) (f ∷ published) =
    some (record q { published = published; known = known }, f ∷ [])
take_first q _ _ = none

unfoldable pub step : Event → Queue → Option (Queue × List Frame)
step (write frames) q =
    if q.is_writing
    then none
    else if q.is_on
    then some (
      record q { left = take (stream_frames - length q.published) frames; is_writing = true },
      [],
    )
    else none
step copy q = if q.is_writing then copy_next q q.left else none
step publish q = if q.is_writing then publish_all q q.left else none
step close q = some (record q { is_on = false }, [])
step look q = some (record q { known = if q.is_on then length q.published else 0 }, [])
step consume q = take_first q q.known q.published

unfoldable pub run : List Event → Queue → Option (Queue × List Frame)
unfolding step run_all
run events q = run_all step events q
