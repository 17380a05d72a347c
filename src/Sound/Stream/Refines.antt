-- ===== src/Sound/Stream/Refines.antt =====
-- The stream of src/components/breezy_sound/snd_core.c is such a queue, whatever the order in which
-- the program and the mixer take their steps.
use breezybox.Prelude.{
  ℕ, zero, suc, ◌≡◌, refl, Bool, true, false, ◌==◌, if◌then◌else◌, Option, none, some, List, [],
  ◌∷◌, length, arith, ap, subst, not, ◌||◌, ◌⊎◌, pos, if_true, if_false, ◌∙◌, Bool-cases, inl, inr,
}
use breezybox.Sound.Stream.{
  Frame, add32, sub32, idle, copying, Stream, Event, write, copy, publish, close, look, consume,
  begin_write, copy_frame, publish_frames, consume_frame, step, run, stream_open, stream_space,
  run_on, run_all, with_played,
}
use breezybox.Sound.Stream.Queue
use breezybox.Sound.Stream.Queue.{Queue, copy_next, publish_all, take_first}
use breezybox.Sound.Stream.Holds.{
  Holds, writes, rests_at, write-Holds, copy-Holds, publish-Holds, consume-Holds, look-Holds,
  close-Holds, opened, opened-Holds,
}

-- Both can take the step and play the same, or neither can.
data Agree : Option (Stream × List Frame) → Option (Queue × List Frame) → Type 0 where
  neither : Agree none none
  both :
      {s : Stream} {q : Queue} {played : List Frame}
      → Holds s q
      → Agree (some (s, played)) (some (q, played))

-- Both sides, computed.
Agree-of :
    {x x' : Option (Stream × List Frame)} {y y' : Option (Queue × List Frame)}
    → x ≡ x'
    → y ≡ y'
    → Agree x' y'
    → Agree x y
Agree-of e d a = rw (e, d) a

write-Agree :
    (frames : List Frame) (s : Stream) (q : Queue)
    → Holds s q
    → Agree (step (write frames) s) (Queue.step (write frames) q)
unfolding step Queue.step
write-Agree frames s q h = elim (Bool-cases q.is_writing) [
  | inl w ↦
      Agree-of (ap (begin_write frames s) (writes s q h w)) (if_true q.is_writing _ _ w) neither
  | inr w ↦ elim (Bool-cases q.is_on) [
    | inl on ↦
        Agree-of (ap (begin_write frames s) (rests_at s q h w) ∙ if_true s.is_on _ _ (h.on_is ∙ on))
          (if_false q.is_writing _ _ w ∙ if_true q.is_on _ _ on) (both (write-Holds frames s q h w))
    | inr off ↦
        Agree-of
          (ap (begin_write frames s) (rests_at s q h w) ∙ if_false s.is_on _ _ (h.on_is ∙ off))
          (if_false q.is_writing _ _ w ∙ if_false q.is_on _ _ off) neither
  ]
]

copy-Agree : (s : Stream) (q : Queue) → Holds s q → Agree (step copy s) (Queue.step copy q)
unfolding step Queue.step
copy-Agree s q h = elim (Bool-cases q.is_writing) [
  | inl w ↦
      Agree-of (ap (copy_frame s) (writes s q h w)) (if_true q.is_writing _ _ w) (go w q.left refl)
  | inr w ↦ Agree-of (ap (copy_frame s) (rests_at s q h w)) (if_false q.is_writing _ _ w) neither
]
  where
    go :
        (w : q.is_writing ≡ true) (left : List Frame)
        → q.left ≡ left
        → Agree (copy_frame s (copying (add32 s.head (length q.staged)) left)) (copy_next q left)
    go w [] e = neither
    go w (f ∷ left) e = both (copy-Holds f left s q h w e)

publish-Agree : (s : Stream) (q : Queue) → Holds s q → Agree (step publish s) (Queue.step publish q)
unfolding step Queue.step
publish-Agree s q h = elim (Bool-cases q.is_writing) [
  | inl w ↦
      Agree-of (ap (publish_frames s) (writes s q h w)) (if_true q.is_writing _ _ w)
        (go q.left refl)
  | inr w ↦
      Agree-of (ap (publish_frames s) (rests_at s q h w)) (if_false q.is_writing _ _ w) neither
]
  where
    go :
        (left : List Frame)
        → q.left ≡ left
        → Agree
            (publish_frames s (copying (add32 s.head (length q.staged)) left))
            (publish_all q left)
    go [] e = both (publish-Holds s q h e)
    go (f ∷ left) e = neither

consume-Agree : (s : Stream) (q : Queue) → Holds s q → Agree (step consume s) (Queue.step consume q)
unfolding step Queue.step
consume-Agree s q h =
    Agree-of (ap (consume_frame s) h.avail_is) refl (go q.known q.published refl refl)
  where
    go :
        (known : ℕ) (published : List Frame)
        → q.known ≡ known
        → q.published ≡ published
        → Agree (consume_frame s known) (take_first q known published)
    go zero published e d = neither
    go (suc known) [] e d = absurd (omega (arith, h.known_in, e, ap length d))
    go (suc known) (f ∷ published) e d =
        let (played, holds) = consume-Holds known f published s q h e d in
        Agree-of (ap (λ x. some (record s { tail = add32 s.tail 1; avail = known }, x ∷ [])) played)
          refl (both holds)

step-Agree : (e : Event) (s : Stream) (q : Queue) → Holds s q → Agree (step e s) (Queue.step e q)
step-Agree (write frames) s q h = write-Agree frames s q h
step-Agree copy s q h = copy-Agree s q h
step-Agree publish s q h = publish-Agree s q h
step-Agree close s q h = unfold step Queue.step in both (close-Holds s q h)
step-Agree look s q h =
    unfold step Queue.step in
    Agree-of
      (ap (λ on. some (record s { avail = if on then sub32 s.head s.tail else 0 }, [])) h.on_is)
      refl (both (look-Holds s q q.is_on h))
step-Agree consume s q h = consume-Agree s q h

with_played-Agree :
    (played : List Frame) {x : Option (Stream × List Frame)} {y : Option (Queue × List Frame)}
    → Agree x y
    → Agree (with_played played x) (with_played played y)
with_played-Agree played neither = neither
with_played-Agree played (both h) = both h

run-Agree :
    (events : List Event) (s : Stream) (q : Queue)
    → Holds s q
    → Agree (run events s) (Queue.run events q)
unfolding run Queue.run run_all
run-Agree [] s q h = both h
run-Agree (e ∷ events) s q h = go (step-Agree e s q h) (run-Agree events)
  where
    go :
        {x : Option (Stream × List Frame)} {y : Option (Queue × List Frame)}
        → Agree x y
        → ((s : Stream) (q : Queue) → Holds s q → Agree (run events s) (Queue.run events q))
        → Agree (run_on (run events) x) (run_on (Queue.run events) y)
    go neither later = neither
    go (both {s = s} {q = q} {played = played} h) later = with_played-Agree played (later s q h)

abbrev pub frames_played {ℓ} : {S : Type ℓ} → Option (S × List Frame) → Option (List Frame)
frames_played none = none
frames_played (some (s, played)) = some played

Agree-played :
    {x : Option (Stream × List Frame)} {y : Option (Queue × List Frame)}
    → Agree x y
    → frames_played x ≡ frames_played y
Agree-played neither = refl
Agree-played (both h) = refl

abbrev stream_or : Stream → Option Stream → Stream
stream_or s none = s
stream_or s (some s') = s'

-- A stream that is opened while nothing is written and the mixer is between two chunks plays, under
-- every order of the program's and the mixer's steps, exactly what a queue of at most 4096 frames
-- plays, and can take exactly the steps that it can.
pub run_refines :
    (has_task : Bool) (rate channels : ℕ) (s s' : Stream) (events : List Event)
    → s.writer ≡ idle
    → s.avail ≡ 0
    → stream_open has_task rate channels s ≡ some s'
    → frames_played (run events s') ≡ frames_played (Queue.run events opened)
unfolding stream_open
run_refines has_task rate channels s s' events w a e = Agree-played (
    run-Agree events s' opened (
      fresh
        (not has_task || (not (rate == 44100) || (not (channels == 1 || channels == 2) || s.is_on)))
        e))
  where
    start : Stream
    start = record s { head = 0; tail = 0; channels = channels; is_on = true }

    fresh : (refused : Bool) → (if refused then none else some start) ≡ some s' → Holds s' opened
    fresh true d = cc d
    fresh false d = subst (λ x. Holds x opened) (the_same d) (opened-Holds start w a refl refl refl)
      where
        the_same : some start ≡ some s' → start ≡ s'
        the_same d = ap (stream_or start) d

-- When the program closes the stream and opens it again while the mixer is in the middle of a chunk,
-- with frames left that it saw before, its next frame moves the tail past the head: there is then
-- room for 4097 frames, one more than the buffer has, and the mixer sees 4294967295 frames to play.
pub reopened_in_chunk :
    (channels k : ℕ) (s : Stream)
    → channels ≡ 1 ⊎ channels ≡ 2
    → s.is_on ≡ false
    → s.avail ≡ suc k
    → (s₁ : Stream) × (s₂ : Stream) × (played : List Frame) × (stream_open true 44100 channels s
        ≡ some s₁)
      × (step consume s₁ ≡ some (s₂, played))
      × (stream_space s₂ ≡ pos 4097)
      × (step look s₂ ≡ some (record s₂ { avail = 4294967295 }, []))
unfolding stream_open step stream_space
reopened_in_chunk channels k s c off a =
    (start, after, _, open_is c, ap (consume_frame start) a, refl, refl)
  where
    start : Stream
    start = record s { head = 0; tail = 0; channels = channels; is_on = true }

    after : Stream
    after = record start { tail = 1; avail = k }

    open_is :
        channels ≡ 1 ⊎ channels ≡ 2
        → (if not (channels == 1 || channels == 2) || s.is_on then none else some start)
          ≡ some start
    open_is (inl e) = rw (e, off) refl
    open_is (inr e) = rw (e, off) refl
