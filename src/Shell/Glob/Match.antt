-- ===== src/Shell/Glob/Match.antt =====
-- `sh_pattern_match` of src/components/breezybox/shell/sh_glob.c, and what it means for a text to
-- match a pattern, which is a relation with no search in it.
pub mod Decides
use breezybox.Prelude.{
  ℕ, zero, suc, ◌+◌, ◌≤◌, ◌<◌, ◌≡◌, refl, Bool, true, false, not, ◌&&◌, ◌==◌, if◌then◌else◌, Bytes,
  peek, Option, none, some, [], ◌∷◌, length, arith, ap, ◌∙◌, ==_iff, if_both, Bool-cases, inl, inr,
  ◌↔◌,
}
use breezybox.Shell.Glob.Bracket.{Taken, bracket_match, LeavesAtMost, bracket_match-LeavesAtMost}

abbrev pub behind : Bytes → Bytes
behind [] = []
behind (c ∷ s) = s

abbrev pub is_empty : Bytes → Bool
is_empty [] = true
is_empty (c ∷ s) = false

-- A byte of the text that passes the test, and the rest of the text matched by `k`.
unfoldable pub one_byte : (ℕ → Bool) → (Bytes → Bool) → Bytes → Bool
one_byte test k [] = false
one_byte test k (c ∷ s) = if test c then k s else false

-- `for (t = s; ; t++)`
unfoldable pub star_loop : (Bytes → Bool) → Bytes → Bool
star_loop k [] = k []
star_loop k (c ∷ s) = if k (c ∷ s) then true else star_loop k s

-- The tests behind that for a bracket; `k` matches a rest of the pattern.
unfoldable pub match_plain : (Bytes → Bytes → Bool) → ℕ → Bytes → Bytes → Bool
unfolding one_byte star_loop
match_plain k a p s =
    if a == b'*'
    then if is_empty p then true else star_loop (k p) s
    else if a == b'?'
    then one_byte (λ c. true) (k p) s
    else if a == b'\\' && not (is_empty p)
    then one_byte (λ c. c == peek p) (k (behind p)) s
    else one_byte (λ c. c == a) (k p) s

-- `bracket_match` at the pattern's first byte, if that opens a bracket.
abbrev pub bracket_at : ℕ → Bytes → ℕ → Option Taken
bracket_at a p c = if a == b'[' then bracket_match p c else none

-- A round of the loop, which goes on by `k`.
abbrev pub match_item : (Bytes → Bytes → Bool) → ℕ → Bytes → Bytes → Option Taken → Bool
match_item k a p s none = match_plain k a p s
match_item k a p s (some (hit, rest)) = one_byte (λ c. hit) (k rest) s

-- Fuel counts the rounds and the calls within, each of which takes a byte of the pattern.
unfoldable pub match_fuel : ℕ → Bytes → Bytes → Bool
match_fuel zero p s = false
match_fuel (suc f) [] s = is_empty s
match_fuel (suc f) (a ∷ p) s = match_item (match_fuel f) a p s (bracket_at a p (peek s))

unfoldable pub pattern_match : Bytes → Bytes → Bool
unfolding match_fuel
pattern_match p s = match_fuel (length p + 1) p s

-- The rest of the pattern once its first item, which is no star, has accepted the byte `c`.
abbrev pub accept_plain : ℕ → Bytes → ℕ → Option Bytes
accept_plain a p c =
    if a == b'*'
    then none
    else if a == b'?'
    then some p
    else if a == b'\\' && not (is_empty p)
    then if c == peek p then some (behind p) else none
    else if c == a
    then some p
    else none

abbrev pub accept_item : ℕ → Bytes → ℕ → Option Taken → Option Bytes
accept_item a p c none = accept_plain a p c
accept_item a p c (some (hit, rest)) = if hit then some rest else none

unfoldable pub accept : ℕ → Bytes → ℕ → Option Bytes
accept a p c = accept_item a p c (bracket_at a p c)

-- A star stands for any run of bytes; every other item for one byte that it accepts.
pub data Matches : Bytes → Bytes → Type 0 where
  done : Matches [] []
  leave : {a : ℕ} {p s : Bytes} → a ≡ b'*' → Matches p s → Matches (a ∷ p) s
  take : {a c : ℕ} {p s : Bytes} → a ≡ b'*' → Matches (a ∷ p) s → Matches (a ∷ p) (c ∷ s)
  byte :
      {a c : ℕ} {p rest s : Bytes}
      → accept a p c ≡ some rest
      → Matches rest s
      → Matches (a ∷ p) (c ∷ s)
