-- ===== src/Sound/Power.antt =====
-- The loop of `snd_task` in src/components/breezy_sound/snd_core.c as it turns the output on and off.
use breezybox.Prelude.{
  ℕ, zero, suc, ◌+◌, ◌-◌, ◌≤◌, ◌≡◌, refl, Bool, true, false, not, ◌&&◌, leb, if◌then◌else◌, List,
  [], ◌∷◌, ◌++◌, arith, replicate, subst, sym, ap, ◌∙◌,
}

abbrev pub drain_chunks : ℕ
drain_chunks = 8

-- The calls of the board's port, and the wait for a notification.
pub data Action : Type 0 where
  start stop write wait : Action

pub record Power : Type 0 where
  pub is_powered : Bool
  pub silence_chunks : ℕ

abbrev pub silent_round : Power → Power × List Action
silent_round p =
    if p.is_powered
    then if leb drain_chunks p.silence_chunks
      then (record { is_powered = false; silence_chunks = 0 }, stop ∷ wait ∷ [])
      else (record p { silence_chunks = p.silence_chunks + 1 }, write ∷ [])
    else (p, wait ∷ [])

-- A round in which `active` sources play.
unfoldable pub round : ℕ → Power → Power × List Action
round zero p = silent_round p
round (suc active) p = (
  record { is_powered = true; silence_chunks = 0 },
  if p.is_powered then write ∷ [] else start ∷ write ∷ [],
)

unfoldable pub rounds : List ℕ → Power → Power × List Action
unfolding round
rounds [] p = (p, [])
rounds (active ∷ later) p =
    let (p₁, actions) = round active p in let (p', more) = rounds later p₁ in (p', actions ++ more)

-- Whether starts and stops alternate, from an output that is on or off, with writes while it is on
-- and waits while it is off.
unfoldable pub alternates : Bool → List Action → Bool
alternates on [] = true
alternates on (start ∷ actions) = not on && alternates true actions
alternates on (stop ∷ actions) = on && alternates false actions
alternates on (write ∷ actions) = on && alternates on actions
alternates on (wait ∷ actions) = not on && alternates on actions

abbrev at : Bool → ℕ → Power
at on s = record { is_powered = on; silence_chunks = s }

alternates_from :
    (active : List ℕ) (on : Bool) (s : ℕ) → alternates on (rounds active (at on s)).1 ≡ true
unfolding alternates rounds round
alternates_from [] on s = refl
alternates_from (zero ∷ later) false s = alternates_from later false s
alternates_from (zero ∷ later) true s =
    go (leb drain_chunks s) (alternates_from later false 0) (alternates_from later true (s + 1))
  where
    next : Bool → Power × List Action
    next full = if full then (at false 0, stop ∷ wait ∷ []) else (at true (s + 1), write ∷ [])

    go :
        (full : Bool)
        → alternates false (rounds later (at false 0)).1 ≡ true
        → alternates true (rounds later (at true (s + 1))).1 ≡ true
        → alternates true ((next full).1 ++ (rounds later (next full).0).1) ≡ true
    go true h k = h
    go false h k = k
alternates_from (suc active ∷ later) false s = alternates_from later true 0
alternates_from (suc active ∷ later) true s = alternates_from later true 0

-- Whatever plays in which rounds, the mixer starts and stops the port strictly in turn, writes to it
-- only while it is started, and waits for a note only while it is stopped.
pub rounds_alternate :
    (active : List ℕ) (p : Power) → alternates p.is_powered (rounds active p).1 ≡ true
rounds_alternate active p = alternates_from active p.is_powered p.silence_chunks

one_round :
    (s : ℕ) (b : Bool)
    → leb drain_chunks s ≡ b
    → (round 0 (at true s)).0 ≡ (if b then at false 0 else at true (s + 1))
unfolding round
one_round s true h = rw h
one_round s false h = rw h

stops_after :
    (n s : ℕ)
    → n + s ≡ drain_chunks
    → (rounds (replicate (suc n) 0) (at true s)).0.is_powered ≡ false
unfolding rounds
stops_after zero s h = ap (λ (p : Power). p.is_powered) (one_round s true (ground arith))
stops_after (suc n) s h =
    ap (λ (p : Power). (rounds (replicate (suc n) 0) p).0.is_powered)
      (one_round s false (ground arith))
    ∙ stops_after n (s + 1) (omega (arith, h))

-- Once nothing plays, an output that is on is stopped by the ninth round at the latest, one round
-- for each silent chunk that is still to be written and one more.
pub silence_stops :
    (p : Power)
    → p.is_powered ≡ true
    → p.silence_chunks ≤ drain_chunks
    → (rounds (replicate (suc (drain_chunks - p.silence_chunks)) 0) p).0.is_powered ≡ false
silence_stops p h k =
    subst
      (λ on.
        (rounds (replicate (suc (drain_chunks - p.silence_chunks)) 0)
          (at on p.silence_chunks)).0.is_powered
        ≡ false)
      (sym h) (stops_after (drain_chunks - p.silence_chunks) p.silence_chunks (omega (arith, k)))
