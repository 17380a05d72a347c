-- ===== src/Sound/Notes.antt =====
-- The envelope and the choice of a voice in src/components/breezy_sound/snd_core.c.
use breezybox.Prelude.{
  ℕ, zero, suc, ◌+◌, ◌-◌, ◌*◌, ◌^◌, ◌≤◌, ◌<◌, ◌≡◌, refl, Bool, true, false, ltb, leb, if◌then◌else◌,
  List, [], ◌∷◌, arith, tests, Bool-cases, inl, inr, ap, ◌∙◌, subst,
}
use breezybox.Sound.Voice.{
  EnvState, off, attack, sustain, release, Voice, is_off, release_step, env_next, env_step,
  pick_loop, pick, fade, faded,
}

-- `n` samples of a voice's envelope.
unfoldable pub env_steps : ℕ → Voice → Voice
unfolding env_step
env_steps zero v = v
env_steps (suc n) v = env_steps n (env_step v)

unfoldable pub Busy : List Voice → Type 0
Busy [] = Unit
Busy (v ∷ voices) = (is_off v.env_state ≡ false) × Busy voices

-- No voice was started before the one with number `seq`.
unfoldable pub NoneOlder : ℕ → List Voice → Type 0
NoneOlder seq [] = Unit
NoneOlder seq (v ∷ voices) = (seq ≤ v.seq) × NoneOlder seq voices

unfoldable pub OffAt : ℕ → List Voice → Type 0
OffAt i [] = false ≡ true
OffAt zero (v ∷ voices) = is_off v.env_state ≡ true
OffAt (suc i) (v ∷ voices) = (is_off v.env_state ≡ false) × OffAt i voices

unfoldable pub SeqAt : ℕ → ℕ → List Voice → Type 0
SeqAt i seq [] = false ≡ true
SeqAt zero seq (v ∷ voices) = v.seq ≡ seq
SeqAt (suc i) seq (v ∷ voices) = SeqAt i seq voices

-- What the loop picks when it stands at index `i`: the first voice that is off; or, if none is, the
-- one it had, if none is older, or the oldest.
data Picks (voices : List Voice) (i oldest steal : ℕ) : ℕ → Type 0 where
  free : (k : ℕ) → OffAt k voices → Picks voices i oldest steal (i + k)
  kept : Busy voices → NoneOlder oldest voices → Picks voices i oldest steal steal
  older :
      (k seq : ℕ)
      → Busy voices
      → SeqAt k seq voices
      → seq < oldest
      → NoneOlder seq voices
      → Picks voices i oldest steal (i + k)

NoneOlder-le : (voices : List Voice) {a b : ℕ} → a ≤ b → NoneOlder b voices → NoneOlder a voices
unfolding NoneOlder
NoneOlder-le [] h k = tt
NoneOlder-le (v ∷ voices) h k = (omega (arith, h, k.0), NoneOlder-le voices h k.1)

pick_loop-Picks :
    (voices : List Voice) (i oldest steal : ℕ)
    → Picks voices i oldest steal (pick_loop voices i oldest steal)
unfolding pick_loop Busy NoneOlder OffAt SeqAt
pick_loop-Picks [] i oldest steal = kept tt tt
pick_loop-Picks (v ∷ voices) i oldest steal = elim (Bool-cases (is_off v.env_state)) [
  | inl e ↦ rw e (at_index (i + 0) i (omega arith) (free 0 e))
  | inr e ↦ elim (Bool-cases (ltb v.seq oldest)) [
    | inl d ↦ rw (e, d) (from_older e (omega (tests, d)) (pick_loop-Picks voices (i + 1) v.seq i))
    | inr d ↦
        rw (e, d) (from_kept e (ground (arith, d)) (pick_loop-Picks voices (i + 1) oldest steal))
  ]
]
  where
    at_index :
        (j k : ℕ)
        → j ≡ k
        → Picks (v ∷ voices) i oldest steal j
        → Picks (v ∷ voices) i oldest steal k
    at_index j k h p = subst (Picks (v ∷ voices) i oldest steal) h p

    from_older :
        {r : ℕ}
        → is_off v.env_state ≡ false
        → v.seq < oldest
        → Picks voices (i + 1) v.seq i r
        → Picks (v ∷ voices) i oldest steal r
    from_older e h (free k o) = at_index (i + suc k) (i + 1 + k) (omega arith) (free (suc k) (e, o))
    from_older e h (kept b n) =
        at_index (i + 0) i (omega arith) (older 0 v.seq (e, b) refl h (omega arith, n))
    from_older e h (older k seq b a l n) =
        at_index (i + suc k) (i + 1 + k) (omega arith)
          (older (suc k) seq (e, b) a (omega (arith, h, l)) (omega (arith, l), n))

    from_kept :
        {r : ℕ}
        → is_off v.env_state ≡ false
        → oldest ≤ v.seq
        → Picks voices (i + 1) oldest steal r
        → Picks (v ∷ voices) i oldest steal r
    from_kept e h (free k o) = at_index (i + suc k) (i + 1 + k) (omega arith) (free (suc k) (e, o))
    from_kept e h (kept b n) = kept (e, b) (h, n)
    from_kept e h (older k seq b a l n) =
        at_index (i + suc k) (i + 1 + k) (omega arith)
          (older (suc k) seq (e, b) a l (omega (arith, h, l), n))

-- The first voice that is off, or, where none is, one that no other is older than.
pub data Chosen (voices : List Voice) : ℕ → Type 0 where
  first_off : {k : ℕ} → OffAt k voices → Chosen voices k
  oldest_of :
      {k : ℕ} (seq : ℕ) → Busy voices → SeqAt k seq voices → NoneOlder seq voices → Chosen voices k

-- The voice that snd_note_on allocates is the first that is off or else, where all are in use, the
-- one that was started first.
pub pick-Chosen :
    (v : Voice) (voices : List Voice) → v.seq < 2 ^ 32 → Chosen (v ∷ voices) (pick (v ∷ voices))
unfolding pick SeqAt
pick-Chosen v voices h = go (pick_loop-Picks (v ∷ voices) 0 (2 ^ 32 - 1) 0)
  where
    go : {r : ℕ} → Picks (v ∷ voices) 0 (2 ^ 32 - 1) 0 r → Chosen (v ∷ voices) r
    go (free k o) = subst (Chosen (v ∷ voices)) (omega arith) (first_off o)
    go (kept b n) = oldest_of v.seq b refl (NoneOlder-le (v ∷ voices) (omega (arith, h)) n)
    go (older k seq b a l n) = subst (Chosen (v ∷ voices)) (omega arith) (oldest_of seq b a n)

env_steps-off : (n : ℕ) (v : Voice) → v.env_state ≡ off → (env_steps n v).env_state ≡ off
unfolding env_steps env_step
env_steps-off zero v h = h
env_steps-off (suc n) v h = ap (λ e. (env_steps n (env_next e v)).env_state) h ∙ env_steps-off n v h

-- A step of a release, by whether it is the last.
abbrev released : Bool → Voice → Voice
released last v =
    if last then record v { env = 0; env_state = off } else record v { env = v.env - release_step }

release_step-eq :
    (n : ℕ) (v : Voice) (last : Bool)
    → v.env_state ≡ release
    → leb v.env release_step ≡ last
    → (env_steps (suc n) v).env_state ≡ (env_steps n (released last v)).env_state
unfolding env_steps env_step
release_step-eq n v last h e =
    ap (λ s. (env_steps n (env_next s v)).env_state) h
    ∙ ap (λ b. (env_steps n (released b v)).env_state) e

release_ends :
    (n : ℕ) (v : Voice)
    → v.env_state ≡ release
    → v.env ≤ suc n * release_step
    → (env_steps (suc n) v).env_state ≡ off
release_ends zero v h k =
    release_step-eq 0 v true h (ground (arith, k)) ∙ env_steps-off 0 (released true v) refl
release_ends (suc n) v h k = elim (Bool-cases (leb v.env release_step)) [
  | inl e ↦ release_step-eq (suc n) v true h e ∙ env_steps-off (suc n) (released true v) refl
  | inr e ↦
      release_step-eq (suc n) v false h e ∙ release_ends n (released false v) h (omega (arith, k))
]

-- A voice whose envelope is at most 32767, released by snd_note_off or by snd_all_off, is off after
-- any number of samples whose steps of a release add up to 32767, such as 3641.
pub fade_ends :
    (n : ℕ) (v : Voice)
    → v.env ≤ 32767
    → 32767 ≤ n * release_step
    → is_off (env_steps n (fade v)).env_state ≡ true
fade_ends zero v h k = absurd (omega (arith, k))
fade_ends (suc n) v h k = ap is_off (go v.env_state refl)
  where
    go : (e : EnvState) → v.env_state ≡ e → (env_steps (suc n) (faded e v)).env_state ≡ off
    go off e = env_steps-off (suc n) v e
    go attack e = release_ends n (record v { env_state = release }) refl (omega (arith, h, k))
    go sustain e = release_ends n (record v { env_state = release }) refl (omega (arith, h, k))
    go release e = release_ends n v e (omega (arith, h, k))
