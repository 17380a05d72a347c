-- ===== src/Sound/Stream/Holds.antt =====
-- When the variables of the stream in src/components/breezy_sound/snd_core.c hold a queue, and that
-- they still do after each change of both.
use breezybox.Prelude.{
  ℕ, suc, ◌+◌, ◌-◌, ◌%◌, ◌^◌, ◌≤◌, ◌<◌, ◌≡◌, refl, Bool, true, false, if◌then◌else◌, List, [], ◌∷◌,
  ◌++◌, length, take, length-append, length-take, arith, ap, sym, if_true, if_both, ◌∙◌,
}
use mathlib.Core.Path.{ap₂}
use breezybox.Sound.Stream.{
  Frame, stream_frames, add32, sub32, idle, copying, Stream, space32, fitting, put_frame,
}
use breezybox.Sound.Stream.Queue.{Queue}
use breezybox.Sound.Stream.Window.{window, add32_add, put_frame_self, window-add, window-put}

-- The stream holds the queue: the published frames lie between the counters, and the frames that
-- are copied behind them.
pub record Holds (s : Stream) (q : Queue) : Type 0 where
  pub head_in : s.head < 2 ^ 32
  pub tail_in : s.tail < 2 ^ 32
  pub head_is : s.head ≡ add32 s.tail (length q.published)
  pub room : length q.published + length q.staged + length q.left ≤ stream_frames
  pub published_are : q.published ≡ window s.buf s.tail (length q.published)
  pub staged_are : q.staged ≡ window s.buf s.head (length q.staged)
  pub writer_is :
      s.writer ≡ (if q.is_writing then copying (add32 s.head (length q.staged)) q.left else idle)
  pub rests : q.is_writing ≡ false → (q.staged ≡ []) × (q.left ≡ [])
  pub on_is : s.is_on ≡ q.is_on
  pub avail_is : s.avail ≡ q.known
  pub known_in : q.known ≤ length q.published

pub used_is : (s : Stream) (q : Queue) → Holds s q → sub32 s.head s.tail ≡ length q.published
used_is s q h = omega (arith, h.head_is, h.tail_in, h.room)

pub space_is : (s : Stream) (q : Queue) → Holds s q → space32 s ≡ stream_frames - length q.published
space_is s q h = omega (arith, used_is s q h, h.room)

pub fitting_is :
    (s : Stream) (q : Queue) (frames : List Frame)
    → Holds s q
    → fitting s frames ≡ take (stream_frames - length q.published) frames
fitting_is s q frames h = rw (space_is s q h) (ground arith)

pub writes :
    (s : Stream) (q : Queue)
    → Holds s q
    → q.is_writing ≡ true
    → s.writer ≡ copying (add32 s.head (length q.staged)) q.left
writes s q h e = h.writer_is ∙ rw e refl

pub rests_at : (s : Stream) (q : Queue) → Holds s q → q.is_writing ≡ false → s.writer ≡ idle
rests_at s q h e = h.writer_is ∙ rw e refl

pub write-Holds :
    (frames : List Frame) (s : Stream) (q : Queue)
    → Holds s q
    → q.is_writing ≡ false
    → Holds
        (record s { writer = copying s.head (fitting s frames) })
        (record q { left = take (stream_frames - length q.published) frames; is_writing = true })
write-Holds frames s q h e = record {
  head_in = h.head_in;
  tail_in = h.tail_in;
  head_is = h.head_is;
  room =
      omega (arith, h.room, none_staged, length-take (stream_frames - length q.published) frames);
  published_are = h.published_are;
  staged_are = h.staged_are;
  writer_is = ap₂ copying (omega (arith, h.head_in, none_staged)) (fitting_is s q frames h);
  rests = λ d. cc d;
  on_is = h.on_is;
  avail_is = h.avail_is;
  known_in = h.known_in;
}
  where
    none_staged : length q.staged ≡ 0
    none_staged = ap length (h.rests e).0

pub copy-Holds :
    (f : Frame) (left : List Frame) (s : Stream) (q : Queue)
    → Holds s q
    → q.is_writing ≡ true
    → q.left ≡ f ∷ left
    → let head = add32 s.head (length q.staged) in
      Holds
        (record s {
          buf = put_frame (head % stream_frames) f s.buf;
          writer = copying (add32 head 1) left;
        })
        (record q { staged = q.staged ++ f ∷ []; left = left })
copy-Holds f left s q h w e = record {
  head_in = h.head_in;
  tail_in = h.tail_in;
  head_is = h.head_is;
  room = omega (arith, room, staged_length);
  published_are =
      h.published_are
      ∙ sym (
          ap (λ j. window (put_frame (j % stream_frames) f s.buf) s.tail (length q.published)) index
          ∙ window-put s.buf f s.tail (length q.published) (length q.published + length q.staged)
              (omega arith) (omega (arith, room)) h.tail_in);
  staged_are = sym (
      ap (window after s.head) staged_length
      ∙ window-add after s.head (length q.staged) 1 h.head_in
      ∙ ap₂ ◌++◌
          (window-put s.buf f s.head (length q.staged) (length q.staged) (omega arith)
              (omega (arith, room)) h.head_in
            ∙ sym h.staged_are)
          (ap (λ x. x ∷ [])
            (put_frame_self (add32 s.head (length q.staged) % stream_frames) f s.buf)));
  writer_is =
      ap (λ x. copying x left)
        (add32_add s.head (length q.staged) 1 ∙ ap (add32 s.head) (sym staged_length))
      ∙ sym (if_true q.is_writing _ _ w);
  rests = λ d. cc (d, w);
  on_is = h.on_is;
  avail_is = h.avail_is;
  known_in = h.known_in;
}
  where
    after : ℕ → Frame
    after = put_frame (add32 s.head (length q.staged) % stream_frames) f s.buf

    index : add32 s.head (length q.staged) ≡ add32 s.tail (length q.published + length q.staged)
    index =
        ap (λ x. add32 x (length q.staged)) h.head_is
        ∙ add32_add s.tail (length q.published) (length q.staged)

    room : length q.published + length q.staged + suc (length left) ≤ stream_frames
    room = rw (ap length e) at h.room

    staged_length : length (q.staged ++ f ∷ []) ≡ length q.staged + 1
    staged_length = length-append q.staged (f ∷ [])

pub publish-Holds :
    (s : Stream) (q : Queue)
    → Holds s q
    → q.left ≡ []
    → Holds
        (record s { head = add32 s.head (length q.staged); writer = idle })
        (record q { published = q.published ++ q.staged; staged = []; is_writing = false })
publish-Holds s q h e = record {
  head_in = omega arith;
  tail_in = h.tail_in;
  head_is = omega (arith, h.head_is, length-append q.published q.staged);
  room = omega (arith, h.room, length-append q.published q.staged);
  published_are = sym (
      ap (window s.buf s.tail) (length-append q.published q.staged)
      ∙ window-add s.buf s.tail (length q.published) (length q.staged) h.tail_in
      ∙ ap₂ ◌++◌ (sym h.published_are)
          (ap (λ x. window s.buf x (length q.staged)) (sym h.head_is) ∙ sym h.staged_are));
  staged_are = refl;
  writer_is = refl;
  rests = λ d. (refl, e);
  on_is = h.on_is;
  avail_is = h.avail_is;
  known_in = omega (arith, h.known_in, length-append q.published q.staged);
}

abbrev pub first_or : Frame → List Frame → Frame
first_or d [] = d
first_or d (f ∷ frames) = f

abbrev pub behind_first : List Frame → List Frame
behind_first [] = []
behind_first (f ∷ frames) = frames

pub consume-Holds :
    (known : ℕ) (f : Frame) (published : List Frame) (s : Stream) (q : Queue)
    → Holds s q
    → q.known ≡ suc known
    → q.published ≡ f ∷ published
    → (s.buf (s.tail % stream_frames) ≡ f)
      × Holds
          (record s { tail = add32 s.tail 1; avail = known })
          (record q { published = published; known = known })
consume-Holds known f published s q h e d = (
  sym (ap (first_or f) split),
  record {
    head_in = h.head_in;
    tail_in = omega arith;
    head_is = omega (arith, h.head_is, ap length d);
    room = omega (arith, h.room, ap length d);
    published_are = ap behind_first split;
    staged_are = h.staged_are;
    writer_is = h.writer_is;
    rests = h.rests;
    on_is = h.on_is;
    avail_is = refl;
    known_in = omega (arith, h.known_in, e, ap length d);
  },
)
  where
    split :
        f ∷ published
        ≡ s.buf (s.tail % stream_frames) ∷ window s.buf (add32 s.tail 1) (length published)
    split = sym d ∙ h.published_are ∙ ap (λ l. window s.buf s.tail (length l)) d

pub look-Holds :
    (s : Stream) (q : Queue) (on : Bool)
    → Holds s q
    → Holds
        (record s { avail = if on then sub32 s.head s.tail else 0 })
        (record q { known = if on then length q.published else 0 })
look-Holds s q on h = record {
  head_in = h.head_in;
  tail_in = h.tail_in;
  head_is = h.head_is;
  room = h.room;
  published_are = h.published_are;
  staged_are = h.staged_are;
  writer_is = h.writer_is;
  rests = h.rests;
  on_is = h.on_is;
  avail_is = ap (λ n. if on then n else 0) (used_is s q h);
  known_in = if_both (λ (n : ℕ). n ≤ length q.published) on _ _ (omega arith) (omega arith);
}

pub close-Holds :
    (s : Stream) (q : Queue)
    → Holds s q
    → Holds (record s { is_on = false }) (record q { is_on = false })
close-Holds s q h = record {
  head_in = h.head_in;
  tail_in = h.tail_in;
  head_is = h.head_is;
  room = h.room;
  published_are = h.published_are;
  staged_are = h.staged_are;
  writer_is = h.writer_is;
  rests = h.rests;
  on_is = refl;
  avail_is = h.avail_is;
  known_in = h.known_in;
}

-- the queue of a stream that was just opened
abbrev pub opened : Queue
opened = record {
  published = [];
  staged = [];
  left = [];
  is_writing = false;
  is_on = true;
  known = 0;
}

pub opened-Holds :
    (s : Stream)
    → s.writer ≡ idle
    → s.avail ≡ 0
    → s.head ≡ 0
    → s.tail ≡ 0
    → s.is_on ≡ true
    → Holds s opened
opened-Holds s w a h t on = record {
  head_in = omega arith;
  tail_in = omega arith;
  head_is = omega arith;
  room = omega arith;
  published_are = refl;
  staged_are = refl;
  writer_is = w;
  rests = λ d. (refl, refl);
  on_is = on;
  avail_is = a;
  known_in = omega arith;
}
