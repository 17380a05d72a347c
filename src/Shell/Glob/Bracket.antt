-- ===== src/Shell/Glob/Bracket.antt =====
-- `class_match` and `bracket_match` of src/components/breezybox/shell/sh_glob.c.
use breezybox.Prelude.{
  ℕ, zero, suc, ◌+◌, ◌≤◌, Bool, true, false, not, ◌&&◌, ◌||◌, leb, ltb, ◌==◌, if◌then◌else◌, Bytes,
  codes, within, is_digit, is_letter, is_space, str_eq, peek, Option, none, some, [], ◌∷◌, ◌++◌,
  length, arith, if_both,
}

abbrev pub is_alnum : ℕ → Bool
is_alnum c = is_letter c || is_digit c

abbrev pub is_graph : ℕ → Bool
is_graph c = within 33 126 c

-- A name of another length than the class's is no such class; other names match nothing.
unfoldable pub class_match : Bytes → ℕ → Bool
unfolding str_eq
class_match name c =
    if str_eq name (codes "alpha")
    then is_letter c
    else if str_eq name (codes "digit")
    then is_digit c
    else if str_eq name (codes "alnum")
    then is_alnum c
    else if str_eq name (codes "space")
    then is_space c
    else if str_eq name (codes "upper")
    then within b'A' b'Z' c
    else if str_eq name (codes "lower")
    then within b'a' b'z' c
    else if str_eq name (codes "print")
    then within 32 126 c
    else if str_eq name (codes "graph")
    then is_graph c
    else if str_eq name (codes "punct")
    then is_graph c && not (is_alnum c)
    else if str_eq name (codes "cntrl")
    then ltb c 32 || c == 127
    else if str_eq name (codes "blank")
    then c == b' ' || c == b'\t'
    else if str_eq name (codes "xdigit")
    then is_digit c || (within b'a' b'f' c || within b'A' b'F' c)
    else false

-- The name in front of `:]`, and the text behind that; `none` if there is no `:]`.
unfoldable pub class_name : Bytes → Bytes → Option (Bytes × Bytes)
class_name name [] = none
class_name name (c ∷ []) = none
class_name name (c ∷ d ∷ s) =
    let later = class_name (name ++ c ∷ []) (d ∷ s) in
    if c == b':' && d == b']' then some (name, s) else later

abbrev pub second : Bytes → ℕ
second [] = 0
second (c ∷ s) = peek s

abbrev pub drop_two : Bytes → Bytes
drop_two [] = []
drop_two (c ∷ []) = []
drop_two (c ∷ d ∷ s) = s

-- What one round of the loop takes: what it adds to `matched`, and the text behind it.
abbrev pub Taken : Type 0
Taken = Bool × Bytes

-- `p[1] == '-' && p[2] && p[2] != ']'`
abbrev pub is_range : Bytes → Bool
is_range p = peek p == b'-' && (not (second p == 0) && not (second p == b']'))

unfoldable pub take_plain : ℕ → Bytes → ℕ → Taken
take_plain lo p c = if is_range p then (leb lo c && leb c (second p), drop_two p) else (c == lo, p)

abbrev pub class_or : Taken → ℕ → Option (Bytes × Bytes) → Taken
class_or other c none = other
class_or other c (some (name, rest)) = (class_match name c, rest)

-- the text behind `[:`
abbrev pub after_colon : Bytes → Bytes
after_colon [] = []
after_colon (c ∷ s) = s

unfoldable pub take_member : ℕ → Bytes → ℕ → Taken
unfolding take_plain class_name
take_member a p c =
    if a == b'[' && peek p == b':'
    then class_or (take_plain a p c) c (class_name [] (after_colon p))
    else take_plain a p c

-- The loop: `first` holds at the byte behind the bracket and its negation, where `]` is a member.
-- `none` is an unterminated bracket. Each round takes a byte at least, and the fuel counts rounds.
unfoldable pub members : ℕ → Bool → Bool → ℕ → Bytes → Option Taken
unfolding take_member
members zero first matched c p = none
members (suc f) first matched c [] = none
members (suc f) first matched c (a ∷ p) =
    let (hit, rest) = take_member a p c in
    let more = members f false (matched || hit) c rest in
    if a == b']' && not first then some (matched, p) else more

-- `*p == '!' || *p == '^'`
abbrev pub is_negation : ℕ → Bool
is_negation c = c == b'!' || c == b'^'

abbrev pub negated : Bool → Option Taken → Option Taken
negated n none = none
negated n (some (matched, rest)) = some (if n then not matched else matched, rest)

-- Whether the byte matches, and the text behind the bracket; `none` where the bracket is open.
unfoldable pub bracket_match : Bytes → ℕ → Option Taken
unfolding members
bracket_match [] c = none
bracket_match (a ∷ p) c =
    let inside = if is_negation a then p else a ∷ p in
    negated (is_negation a) (members (length inside + 1) true false c inside)

-- The text behind is no longer than `n`.
abbrev pub LeavesAtMost {ℓ} : {A : Type ℓ} → ℕ → Option (A × Bytes) → Type 0
LeavesAtMost n none = Unit
LeavesAtMost n (some (_, rest)) = length rest ≤ n

class_name-LeavesAtMost :
    (n : ℕ) (s name : Bytes) → length s ≤ n → LeavesAtMost n (class_name name s)
unfolding class_name
class_name-LeavesAtMost n [] name h = tt
class_name-LeavesAtMost n (c ∷ []) name h = tt
class_name-LeavesAtMost n (c ∷ d ∷ s) name h =
    if_both (LeavesAtMost n) (c == b':' && d == b']') _ _ (omega arith)
      (class_name-LeavesAtMost n (d ∷ s) (name ++ c ∷ []) (omega arith))

drop_two-le : (s : Bytes) → length (drop_two s) ≤ length s
drop_two-le [] = omega arith
drop_two-le (c ∷ []) = omega arith
drop_two-le (c ∷ d ∷ s) = omega arith

after_colon-le : (s : Bytes) → length (after_colon s) ≤ length s
after_colon-le [] = omega arith
after_colon-le (c ∷ s) = omega arith

take_plain-le : (a : ℕ) (p : Bytes) (c : ℕ) → length (take_plain a p c).1 ≤ length p
unfolding take_plain
take_plain-le a p c = ground (arith, drop_two-le p)

class_or-le :
    (n : ℕ) (t : Taken) (c : ℕ) (o : Option (Bytes × Bytes))
    → length t.1 ≤ n
    → LeavesAtMost n o
    → length (class_or t c o).1 ≤ n
class_or-le n t c none h k = h
class_or-le n t c (some (name, rest)) h k = k

take_member-le : (a : ℕ) (p : Bytes) (c : ℕ) → length (take_member a p c).1 ≤ length p
unfolding take_member
take_member-le a p c =
    if_both (λ (t : Taken). length t.1 ≤ length p) (a == b'[' && peek p == b':') _ _
      (class_or-le (length p) (take_plain a p c) c (class_name [] (after_colon p))
        (take_plain-le a p c)
        (class_name-LeavesAtMost (length p) (after_colon p) [] (after_colon-le p)))
      (take_plain-le a p c)

members-LeavesAtMost :
    (n f : ℕ) (first matched : Bool) (c : ℕ) (p : Bytes)
    → length p ≤ n
    → LeavesAtMost n (members f first matched c p)
unfolding members
members-LeavesAtMost n zero first matched c p h = tt
members-LeavesAtMost n (suc f) first matched c [] h = tt
members-LeavesAtMost n (suc f) first matched c (a ∷ p) h =
    if_both (LeavesAtMost n) (a == b']' && not first) _ _ (omega arith) (
      members-LeavesAtMost n f false (matched || (take_member a p c).0) c (take_member a p c).1
        (omega (arith, take_member-le a p c)))

negated-LeavesAtMost :
    (n : ℕ) (b : Bool) (o : Option Taken) → LeavesAtMost n o → LeavesAtMost n (negated b o)
negated-LeavesAtMost n b none h = tt
negated-LeavesAtMost n b (some (m, rest)) h = h

-- A bracket's rest is no longer than the text behind `[`.
pub bracket_match-LeavesAtMost : (p : Bytes) (c : ℕ) → LeavesAtMost (length p) (bracket_match p c)
unfolding bracket_match
bracket_match-LeavesAtMost [] c = tt
bracket_match-LeavesAtMost (a ∷ p) c =
    let inside = if is_negation a then p else a ∷ p in
    negated-LeavesAtMost (suc (length p)) (is_negation a) _
      (members-LeavesAtMost (suc (length p)) (length inside + 1) true false c inside (ground arith))
