-- ===== src/Vterm/SgrLoop.antt =====
-- `vterm_apply_sgr` of src/components/breezy_term/vterm.c: where its loop ends and where it does not.
use breezybox.Prelude.{
  ℕ, zero, suc, ◌+◌, ◌-◌, ◌*◌, ◌≤◌, ◌<◌, ◌≡◌, refl, ◌∙◌, Bool, true, false, ◌||◌, ◌==◌,
  if◌then◌else◌, Bytes, is_digit, digits, length, arith, none, some, [], ◌∷◌, if_both,
}
use breezybox.Vterm.Screen.{Term}
use breezybox.Vterm.Sgr.{
  skip_semicolon, sgr_parse_num, Sgr, read_num, skip_num, skip_extended, apply_code, sgr_round,
  sgr_loop, sgr_start, apply_sgr,
}

-- Digits and semicolons only.
abbrev pub is_plain : Bytes → Bool
is_plain [] = true
is_plain (c ∷ s) = if is_digit c then is_plain s else if c == b';' then is_plain s else false

digits-plain : (n : ℕ) (s : Bytes) → is_plain (digits n s).1 ≡ is_plain s
unfolding digits
digits-plain n [] = refl
digits-plain n (c ∷ s) = ground (arith, digits-plain (n * 10 + (c - b'0')) s)

digits-le : (n : ℕ) (s : Bytes) → length (digits n s).1 ≤ length s
unfolding digits
digits-le n [] = omega arith
digits-le n (c ∷ s) = ground (arith, digits-le (n * 10 + (c - b'0')) s)

skip_semicolon-plain : (s : Bytes) → is_plain (skip_semicolon s) ≡ is_plain s
unfolding skip_semicolon
skip_semicolon-plain [] = refl
skip_semicolon-plain (c ∷ s) = ground arith

skip_semicolon-le : (s : Bytes) → length (skip_semicolon s) ≤ length s
unfolding skip_semicolon
skip_semicolon-le [] = omega arith
skip_semicolon-le (c ∷ s) = ground arith

-- Reading a number takes nothing but digits and a semicolon.
read_num-plain : (s : Sgr) → is_plain (read_num s).1.p ≡ is_plain s.p
unfolding read_num sgr_parse_num
read_num-plain s = skip_semicolon-plain (digits 0 s.p).1 ∙ digits-plain 0 s.p

read_num-le : (s : Sgr) → length (read_num s).1.p ≤ length s.p
unfolding read_num sgr_parse_num
read_num-le s = omega (arith, skip_semicolon-le (digits 0 s.p).1, digits-le 0 s.p)

parse-lt :
    (c : ℕ) (s : Bytes)
    → is_plain (c ∷ s) ≡ true
    → length (sgr_parse_num (c ∷ s)).1 < length (c ∷ s)
unfolding sgr_parse_num digits skip_semicolon
parse-lt c s h =
    ground (
      arith,
      digits-le (0 * 10 + (c - b'0')) s,
      skip_semicolon-le (digits (0 * 10 + (c - b'0')) s).1,
    )

-- The text that is left after a value's branch, as far as the loop is concerned.
record IsLater (s r : Sgr) : Type 0 where
  plain : is_plain r.p ≡ is_plain s.p
  shorter : length r.p ≤ length s.p

IsLater-refl : (s : Sgr) → IsLater s s
IsLater-refl s = record { plain = refl; shorter = omega arith }

IsLater-trans : {s r q : Sgr} → IsLater s r → IsLater r q → IsLater s q
IsLater-trans h k = record { plain = k.plain ∙ h.plain; shorter = omega arith }

skip_num-IsLater : (s : Sgr) → IsLater s (skip_num s)
unfolding skip_num
skip_num-IsLater s = record { plain = read_num-plain s; shorter = read_num-le s }

skip_extended-IsLater : (s : Sgr) → IsLater s (skip_extended s)
unfolding skip_extended
skip_extended-IsLater s =
    let r = (read_num s).1 in
    let one : IsLater s r = record { plain = read_num-plain s; shorter = read_num-le s } in
    let two = skip_num-IsLater r in
    let three = IsLater-trans two (skip_num-IsLater (skip_num r)) in
    let four = IsLater-trans three (skip_num-IsLater (skip_num (skip_num r))) in
    IsLater-trans one (
      if_both (IsLater r) ((read_num s).0 == 5) _ _ two
        (if_both (IsLater r) ((read_num s).0 == 2) _ _ four (IsLater-refl r)))

apply_code-IsLater : (n : ℕ) (s : Sgr) → IsLater s (apply_code n s)
unfolding apply_code
apply_code-IsLater n s = ground (arith, skip_extended-IsLater s)

sgr_round-IsLater : (s : Sgr) → IsLater s (sgr_round s)
unfolding sgr_round
sgr_round-IsLater s =
    let r = (read_num s).1 in
    IsLater-trans (record { plain = read_num-plain s; shorter = read_num-le s })
      (apply_code-IsLater (read_num s).0 r)

sgr_round-lt :
    (s : Sgr) (c : ℕ) (r : Bytes)
    → s.p ≡ c ∷ r
    → is_plain s.p ≡ true
    → length (sgr_round s).p < length s.p
unfolding sgr_round
sgr_round-lt s c r e h =
    let first : length (read_num s).1.p < length s.p =
      unfold read_num in rw e (parse-lt c r (rw e at h)) in
    omega (arith, (apply_code-IsLater (read_num s).0 (read_num s).1).shorter)

sgr_loop-returns :
    (f : ℕ) (s : Sgr) → length s.p < f → is_plain s.p ≡ true → (r : Sgr) × (sgr_loop f s ≡ some r)
unfolding sgr_loop
sgr_loop-returns zero s h p = absurd (omega arith)
sgr_loop-returns (suc f) s h p = go s.p refl (sgr_loop-returns f (sgr_round s))
  where
    go :
        (text : Bytes)
        → s.p ≡ text
        → (length (sgr_round s).p < f
            → is_plain (sgr_round s).p ≡ true
            → (r : Sgr) × (sgr_loop f (sgr_round s) ≡ some r))
        → (r : Sgr) × ((elim text [ [] ↦ some s | c ∷ t ↦ sgr_loop f (sgr_round s) ]) ≡ some r)
    go [] e ih = (s, refl)
    go (c ∷ t) e ih = ih (omega (arith, sgr_round-lt s c t e p)) ((sgr_round-IsLater s).plain ∙ p)

sgr_loop-hangs : (f : ℕ) (s : Sgr) → is_plain s.p ≡ false → sgr_loop f s ≡ none
unfolding sgr_loop
sgr_loop-hangs zero s p = refl
sgr_loop-hangs (suc f) s p =
    go s.p p (sgr_loop-hangs f (sgr_round s) ((sgr_round-IsLater s).plain ∙ p))
  where
    go :
        (text : Bytes)
        → is_plain text ≡ false
        → sgr_loop f (sgr_round s) ≡ none
        → (elim text [ [] ↦ some s | c ∷ t ↦ sgr_loop f (sgr_round s) ]) ≡ none
    go [] q ih = cc
    go (c ∷ t) q ih = ih

sgr_start-plain : (a : ℕ) (params : Bytes) → is_plain (sgr_start a params).p ≡ is_plain params
unfolding sgr_start
sgr_start-plain a [] = refl
sgr_start-plain a (c ∷ s) = ground (arith, skip_semicolon-plain s)

sgr_start-le : (a : ℕ) (params : Bytes) → length (sgr_start a params).p ≤ length params
unfolding sgr_start
sgr_start-le a [] = omega arith
sgr_start-le a (c ∷ s) = ground (arith, skip_semicolon-le s)

-- Parameters of digits and semicolons are read to their end within the rounds that `apply_sgr`
-- allows. With any other byte among them the loop of the C code never ends, however many rounds
-- it is given.
pub sgr_loop_ends :
    (params : Bytes) (t : Term)
    → (is_plain params ≡ true → (t' : Term) × (apply_sgr params t ≡ some t'))
      × (is_plain params ≡ false
          → (apply_sgr params t ≡ none)
            × ((f : ℕ) → sgr_loop f (sgr_start t.current_attr params) ≡ none))
unfolding apply_sgr
sgr_loop_ends params t = (returns, hangs)
  where
    start : Sgr
    start = sgr_start t.current_attr params

    returns : is_plain params ≡ true → (t' : Term) × (apply_sgr params t ≡ some t')
    returns h =
        let (r, e) =
          sgr_loop-returns (length params + 1) start
            (omega (arith, sgr_start-le t.current_attr params))
            (sgr_start-plain t.current_attr params ∙ h) in
        (
          record t { current_attr = r.attr; overflow = t.overflow || r.too_large },
          rw (e, apply_sgr),
        )

    hangs :
        is_plain params ≡ false → (apply_sgr params t ≡ none) × ((f : ℕ) → sgr_loop f start ≡ none)
    hangs h =
        let all = λ (f : ℕ). sgr_loop-hangs f start (sgr_start-plain t.current_attr params ∙ h) in
        (rw (all (length params + 1), apply_sgr), all)
