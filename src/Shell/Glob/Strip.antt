-- ===== src/Shell/Glob/Strip.antt =====
-- `sh_strip_prefix` and `sh_strip_suffix` of src/components/breezybox/shell/sh_glob.c, which serve
-- ${v#p}, ${v##p}, ${v%p} and ${v%%p}.
use breezybox.Prelude.{
  ℕ, zero, suc, ◌+◌, ◌-◌, ◌≤◌, ◌<◌, ◌≡◌, refl, Bool, true, false, if◌then◌else◌, Bytes, Option,
  none, some, length, take, drop, arith, Bool-cases, inl, inr,
}
use native.Mathlib.Decide.{ℕ_discrete}
use breezybox.Shell.Glob.Match.{pattern_match}

-- The loops over the places of the text, `n` of them from `i` on, which stop at the first that
-- passes unless the longest match is asked for, and remember the last that passed.
unfoldable pub scan : Bool → (ℕ → Bool) → ℕ → ℕ → Option ℕ → Option ℕ
scan longest test zero i best = best
scan longest test (suc n) i best =
    let further = scan longest test n (i + 1) (some i) in
    let same = scan longest test n (i + 1) best in
    if test i then if longest then further else some i else same

abbrev pub or_all : Bytes → Option ℕ → (ℕ → Bytes) → Bytes
or_all s none cut = s
or_all s (some i) cut = cut i

-- the length of the prefix that is cut off
unfoldable pub best_prefix : Bytes → Bytes → Bool → Option ℕ
unfolding scan pattern_match
best_prefix s p longest = scan longest (λ i. pattern_match p (take i s)) (length s + 1) 0 none

unfoldable pub strip_prefix : Bytes → Bytes → Bool → Bytes
unfolding best_prefix
strip_prefix s p longest = or_all s (best_prefix s p longest) (λ i. drop i s)

-- The length of the suffix that is cut off: the C loop counts the place down from the end.
unfoldable pub best_suffix : Bytes → Bytes → Bool → Option ℕ
unfolding scan pattern_match
best_suffix s p longest =
    scan longest (λ j. pattern_match p (drop (length s - j) s)) (length s + 1) 0 none

unfoldable pub strip_suffix : Bytes → Bytes → Bool → Bytes
unfolding best_suffix
strip_suffix s p longest = or_all s (best_suffix s p longest) (λ j. take (length s - j) s)

-- What a search over the places below `end` comes to: no place passes, or the place found passes
-- and none beyond it, or before it, does, as the longest or the shortest was asked for.
pub data Found (longest : Bool) (test : ℕ → Bool) (start end : ℕ) : Option ℕ → Type 0 where
  nowhere : ((j : ℕ) → start ≤ j → j < end → test j ≡ false) → Found longest test start end none
  last :
      {i : ℕ}
      → longest ≡ true
      → test i ≡ true
      → i < end
      → ((j : ℕ) → i < j → j < end → test j ≡ false)
      → Found longest test start end (some i)
  first :
      {i : ℕ}
      → longest ≡ false
      → test i ≡ true
      → i < end
      → ((j : ℕ) → start ≤ j → j < i → test j ≡ false)
      → Found longest test start end (some i)

-- the last place, behind what is known of those in front
up_to :
    (test : ℕ → Bool) (b i j : ℕ)
    → ((k : ℕ) → b ≤ k → k < i → test k ≡ false)
    → test i ≡ false
    → b ≤ j
    → j < i + 1
    → test j ≡ false
up_to test b i j before h k l = elim (ℕ_discrete i j) [
  | yes e ↦ rw (← e) h
  | no ne ↦ before j k (omega arith)
]

scan_longest :
    (test : ℕ → Bool) (n i b end : ℕ)
    → i + n ≡ end
    → test b ≡ true
    → b < i
    → ((j : ℕ) → b + 1 ≤ j → j < i → test j ≡ false)
    → Found true test 0 end (scan true test n i (some b))
unfolding scan
scan_longest test zero i b end e h k none_since =
    last refl h (omega arith) (λ j p q. none_since j (omega arith) (omega arith))
scan_longest test (suc n) i b end e h k none_since = elim (Bool-cases (test i)) [
  | inl here ↦ rw here (
      scan_longest test n (i + 1) i end (omega arith) here (omega arith)
        (λ j p q. absurd (omega arith)))
  | inr not_here ↦ rw not_here (
      scan_longest test n (i + 1) b end (omega arith) h (omega arith)
        (λ j p q. up_to test (b + 1) i j none_since not_here p q))
]

-- the first place that passes, with the loop behind it
found_here :
    (longest : Bool) (test : ℕ → Bool) (n i end : ℕ)
    → i + suc n ≡ end
    → test i ≡ true
    → ((j : ℕ) → 0 ≤ j → j < i → test j ≡ false)
    → Found longest test 0 end (if longest then scan longest test n (i + 1) (some i) else some i)
found_here true test n i end e here before =
    scan_longest test n (i + 1) i end (omega arith) here (omega arith)
      (λ j p q. absurd (omega arith))
found_here false test n i end e here before = first refl here (omega arith) before

scan_from :
    (longest : Bool) (test : ℕ → Bool) (n i end : ℕ)
    → i + n ≡ end
    → ((j : ℕ) → 0 ≤ j → j < i → test j ≡ false)
    → Found longest test 0 end (scan longest test n i none)
unfolding scan
scan_from longest test zero i end e before = nowhere (λ j p q. before j p (omega arith))
scan_from longest test (suc n) i end e before = elim (Bool-cases (test i)) [
  | inl here ↦ rw here (found_here longest test n i end e here before)
  | inr not_here ↦ rw not_here (
      scan_from longest test n (i + 1) end (omega arith)
        (λ j p q. up_to test 0 i j before not_here p q))
]

-- The prefix that is cut off matches the pattern, and it is the longest or the shortest prefix of
-- the text to match, as was asked for; where none is cut off, no prefix matches.
pub best_prefix-Found :
    (s p : Bytes) (longest : Bool)
    → Found longest (λ i. pattern_match p (take i s)) 0 (length s + 1) (best_prefix s p longest)
unfolding best_prefix
best_prefix-Found s p longest =
    scan_from longest (λ i. pattern_match p (take i s)) (length s + 1) 0 (length s + 1)
      (omega arith) (λ j p q. absurd (omega arith))

-- The suffix that is cut off matches the pattern, and it is the longest or the shortest suffix of
-- the text to match, as was asked for; where none is cut off, no suffix matches.
pub best_suffix-Found :
    (s p : Bytes) (longest : Bool)
    → Found longest
        (λ j. pattern_match p (drop (length s - j) s))
        0
        (length s + 1)
        (best_suffix s p longest)
unfolding best_suffix
best_suffix-Found s p longest =
    scan_from longest (λ j. pattern_match p (drop (length s - j) s)) (length s + 1) 0 (length s + 1)
      (omega arith) (λ j p q. absurd (omega arith))
