-- ===== src/Shell/Glob/Match/Decides.antt =====
-- The matcher of src/components/breezybox/shell/sh_glob.c decides the relation.
use breezybox.Prelude.{
  ℕ, zero, suc, ◌+◌, ◌≤◌, ◌<◌, ◌≡◌, refl, Bool, true, false, not, ◌&&◌, ◌==◌, if◌then◌else◌, Bytes,
  peek, Option, none, some, [], ◌∷◌, length, arith, ap, ◌∙◌, ==_iff, if_both, Bool-cases, inl, inr,
  ◌↔◌,
}
use breezybox.Shell.Glob.Bracket.{Taken, LeavesAtMost, bracket_match-LeavesAtMost}
use breezybox.Shell.Glob.Match.{
  behind, is_empty, one_byte, star_loop, match_plain, bracket_at, match_item, match_fuel,
  pattern_match, accept_plain, accept_item, accept, Matches, done, leave, take, byte,
}

-- Soundness, by the fuel.
star-Matches :
    (a : ℕ) (p : Bytes) (k : Bytes → Bool) (s : Bytes)
    → a ≡ b'*'
    → ((t : Bytes) → k t ≡ true → Matches p t)
    → star_loop k s ≡ true
    → Matches (a ∷ p) s
unfolding star_loop
star-Matches a p k [] e sound h = leave e (sound [] h)
star-Matches a p k (c ∷ s) e sound h = elim (Bool-cases (k (c ∷ s))) [
  | inl now ↦ leave e (sound (c ∷ s) now)
  | inr later ↦ take e (star-Matches a p k s e sound (rw later at h))
]

all-Matches : (a : ℕ) (s : Bytes) → a ≡ b'*' → Matches (a ∷ []) s
all-Matches a [] e = leave e done
all-Matches a (c ∷ s) e = take e (all-Matches a s e)

accept-some :
    (a : ℕ) (p : Bytes) (c : ℕ) {hit : Bool} {rest : Bytes}
    → bracket_at a p c ≡ some (hit, rest)
    → hit ≡ true
    → accept a p c ≡ some rest
unfolding accept
accept-some a p c e h = ap (accept_item a p c) e ∙ rw h

behind-le : (s : Bytes) → length (behind s) ≤ length s
behind-le [] = omega arith
behind-le (c ∷ s) = omega arith

bracket-le : (a : ℕ) (p : Bytes) (c : ℕ) → LeavesAtMost (length p) (bracket_at a p c)
bracket-le a p c =
    if_both (LeavesAtMost (length p)) (a == b'[') _ _ (bracket_match-LeavesAtMost p c) tt

-- At a star the loop tries every rest of the text.
star_loop-here : (k : Bytes → Bool) (s : Bytes) → k s ≡ true → star_loop k s ≡ true
unfolding star_loop
star_loop-here k [] h = h
star_loop-here k (c ∷ s) h = rw h

star_loop-later :
    (k : Bytes → Bool) (c : ℕ) (s : Bytes) → star_loop k s ≡ true → star_loop k (c ∷ s) ≡ true
unfolding star_loop
star_loop-later k c s h = elim (Bool-cases (k (c ∷ s))) [
  | inl now ↦ rw now
  | inr later ↦ rw later h
]

if_same : (b : Bool) → (if b then true else true) ≡ true
if_same b = ground arith

star_loop_if :
    (b : Bool) (k : Bytes → Bool) (c : ℕ) (s : Bytes)
    → (if b then true else star_loop k s) ≡ true
    → (if b then true else star_loop k (c ∷ s)) ≡ true
star_loop_if true k c s h = refl
star_loop_if false k c s h = star_loop-later k c s h

-- A test of one byte that the pattern's first item makes, when its bracket is none.
one_byte-Matches :
    (k : Bytes → Bytes → Bool) (a : ℕ) (p rest s : Bytes) (test : ℕ → Bool)
    → ((q t : Bytes) → k q t ≡ true → Matches q t)
    → ((c : ℕ) (t : Bytes) → s ≡ c ∷ t → test c ≡ true → accept a p c ≡ some rest)
    → one_byte test (k rest) s ≡ true
    → Matches (a ∷ p) s
unfolding one_byte
one_byte-Matches k a p rest [] test sound accepts h = cc
one_byte-Matches k a p rest (c ∷ s) test sound accepts h = elim (Bool-cases (test c)) [
  | inl passes ↦ byte (accepts c s refl passes) (sound rest s (rw passes at h))
  | inr fails ↦ cc (rw fails at h)
]

accept-none :
    (a : ℕ) (p : Bytes) (c : ℕ) → bracket_at a p c ≡ none → accept a p c ≡ accept_plain a p c
unfolding accept
accept-none a p c e = ap (accept_item a p c) e

star_or_all :
    (k : Bytes → Bytes → Bool) (a : ℕ) (p s : Bytes)
    → ((q t : Bytes) → k q t ≡ true → Matches q t)
    → a ≡ b'*'
    → (if is_empty p then true else star_loop (k p) s) ≡ true
    → Matches (a ∷ p) s
star_or_all k a [] s sound e h = all-Matches a s e
star_or_all k a (b ∷ p) s sound e h = star-Matches a (b ∷ p) (k (b ∷ p)) s e (sound (b ∷ p)) h

head_is : (s : Bytes) (c : ℕ) (t : Bytes) → s ≡ c ∷ t → peek s ≡ c
head_is s c t e = ap peek e

match_plain-Matches :
    (k : Bytes → Bytes → Bool) (a : ℕ) (p s : Bytes)
    → ((q t : Bytes) → k q t ≡ true → Matches q t)
    → bracket_at a p (peek s) ≡ none
    → match_plain k a p s ≡ true
    → Matches (a ∷ p) s
unfolding match_plain
match_plain-Matches k a p s sound closed h = elim (Bool-cases (a == b'*')) [
  | inl star ↦ star_or_all k a p s sound ((==_iff a b'*').0 star) (rw star at h)
  | inr no_star ↦ elim (Bool-cases (a == b'?')) [
    | inl any ↦
        one_byte-Matches k a p p s (λ c. true) sound
          (λ c t e _. accept-none a p c (rw (head_is s c t e) at closed) ∙ rw (no_star, any))
          (rw (no_star, any) at h)
    | inr no_any ↦ elim (Bool-cases (a == b'\\' && not (is_empty p))) [
      | inl escape ↦
          one_byte-Matches k a p (behind p) s (λ c. c == peek p) sound
            (λ c t e same.
              accept-none a p c (rw (head_is s c t e) at closed)
              ∙ rw (no_star, no_any, escape, same))
            (rw (no_star, no_any, escape) at h)
      | inr literal ↦
          one_byte-Matches k a p p s (λ c. c == a) sound
            (λ c t e same.
              accept-none a p c (rw (head_is s c t e) at closed)
              ∙ rw (no_star, no_any, literal, same))
            (rw (no_star, no_any, literal) at h)
    ]
  ]
]

match_item-Matches :
    (k : Bytes → Bytes → Bool) (a : ℕ) (p s : Bytes) (o : Option Taken)
    → ((q t : Bytes) → k q t ≡ true → Matches q t)
    → bracket_at a p (peek s) ≡ o
    → match_item k a p s o ≡ true
    → Matches (a ∷ p) s
match_item-Matches k a p s none sound e h = match_plain-Matches k a p s sound e h
match_item-Matches k a p s (some (hit, rest)) sound e h =
    one_byte-Matches k a p rest s (λ c. hit) sound
      (λ c t d same. accept-some a p c (rw (head_is s c t d) at e) same) h

match_fuel-Matches : (f : ℕ) (p s : Bytes) → match_fuel f p s ≡ true → Matches p s
unfolding match_fuel
match_fuel-Matches zero p s h = cc
match_fuel-Matches (suc f) [] [] h = done
match_fuel-Matches (suc f) [] (c ∷ s) h = cc
match_fuel-Matches (suc f) (a ∷ p) s h =
    match_item-Matches (match_fuel f) a p s (bracket_at a p (peek s)) (match_fuel-Matches f) refl h

-- What the fuelled loop does at a star.
match_fuel-star :
    (f a : ℕ) (p s : Bytes)
    → a ≡ b'*'
    → match_fuel (suc f) (a ∷ p) s ≡ (if is_empty p then true else star_loop (match_fuel f p) s)
unfolding match_fuel match_plain
match_fuel-star f a p s e = rw e

accept-le :
    (a : ℕ) (p : Bytes) (c : ℕ) {rest : Bytes} → accept a p c ≡ some rest → length rest ≤ length p
unfolding accept
accept-le a p c h = go (bracket_at a p c) (bracket-le a p c) h
  where
    go :
        (o : Option Taken)
        → LeavesAtMost (length p) o
        → {rest : Bytes} → accept_item a p c o ≡ some rest
        → length rest ≤ length p
    go none l h = ground (arith, behind-le p)
    go (some (hit, rest)) l h = ground arith

match_fuel-byte :
    (f a c : ℕ) (p rest s : Bytes)
    → accept a p c ≡ some rest
    → match_fuel f rest s ≡ true
    → match_fuel (suc f) (a ∷ p) (c ∷ s) ≡ true
unfolding accept match_fuel
match_fuel-byte f a c p rest s h k = go (bracket_at a p c) h
  where
    go :
        (o : Option Taken)
        → accept_item a p c o ≡ some rest
        → match_item (match_fuel f) a p (c ∷ s) o ≡ true
    go none h = unfold match_plain in ground arith
    go (some (hit, r)) h = unfold one_byte in ground arith

Matches-match_fuel : (f : ℕ) {p s : Bytes} → Matches p s → length p < f → match_fuel f p s ≡ true
Matches-match_fuel zero m h = absurd (omega arith)
Matches-match_fuel (suc f) done h = unfold match_fuel in refl
Matches-match_fuel (suc f) (leave {a} {p} {s} e m) h = rw (match_fuel-star f a p s e) (
    rw (star_loop-here (match_fuel f p) s (Matches-match_fuel f m (omega arith)))
      (if_same (is_empty p)))
Matches-match_fuel (suc f) (take {a} {c} {p} {s} e m) h = rw (match_fuel-star f a p (c ∷ s) e) (
    star_loop_if (is_empty p) (match_fuel f p) c s
      (rw (match_fuel-star f a p s e) at (Matches-match_fuel (suc f) m h)))
Matches-match_fuel (suc f) (byte {a} {c} {p} {rest} {s} e m) h =
    match_fuel-byte f a c p rest s e (Matches-match_fuel f m (omega (arith, accept-le a p c e)))

-- The matcher answers true exactly on the texts that match.
pub pattern_match_iff : (p s : Bytes) → (pattern_match p s ≡ true) ↔ Matches p s
unfolding pattern_match
pattern_match_iff p s =
    (match_fuel-Matches (length p + 1) p s, λ m. Matches-match_fuel (length p + 1) m (omega arith))
