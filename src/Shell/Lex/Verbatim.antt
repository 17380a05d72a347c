-- ===== src/Shell/Lex/Verbatim.antt =====
-- The scanners of src/components/breezybox/shell/sh_lex.c copy the text that they pass over.
use breezybox.Prelude.{
  ℕ, zero, suc, ◌≤◌, ◌<◌, ◌≡◌, refl, sym, ap, ◌∙◌, subst, Bool, true, false, not, ◌&&◌, ◌==◌,
  if◌then◌else◌, if_both, Bytes, codes, peek, length, length-append, append_assoc, Option, none,
  some, [], ◌∷◌, ◌++◌, arith,
}
use breezybox.Shell.Lex.Quote.{
  Scan, behind, is_empty, copy, copy_some, up_to, with_quote, single, double, Mode, parens, quoted,
  depth_after, substituted, cmdsub_loop, scan_cmdsub, brace_depth, brace_loop, scan_braceparam,
}

-- What is put and what is left make up the text.
abbrev pub Splits : Bytes → Scan → Type 0
Splits s (out, rest) = out ++ rest ≡ s

abbrev pub Verbatim : Bytes → Option Scan → Type 0
Verbatim s none = false ≡ true
Verbatim s (some scan) = Splits s scan

copy-Splits :
    (front s : Bytes) (scan : Scan) → Splits s scan → Splits (front ++ s) (copy front scan)
copy-Splits front s (out, rest) h = append_assoc front out rest ∙ ap (λ x. front ++ x) h

copy_some-Verbatim :
    (front s : Bytes) (o : Option Scan) → Verbatim s o → Verbatim (front ++ s) (copy_some front o)
copy_some-Verbatim front s none h = cc h
copy_some-Verbatim front s (some scan) h = copy-Splits front s scan h

-- A branch that is taken only if its test holds.
if-Verbatim :
    (b : Bool) (s : Bytes) (x y : Option Scan)
    → (b ≡ true → Verbatim s x)
    → Verbatim s y
    → Verbatim s (if b then x else y)
if-Verbatim true s x y h k = h refl
if-Verbatim false s x y h k = k

pub up_to-Splits : (q : ℕ) (s : Bytes) → Splits s (up_to q s)
unfolding up_to
up_to-Splits q [] = refl
up_to-Splits q (c ∷ s) =
    if_both (Splits (c ∷ s)) (c == q) _ _ refl
      (copy-Splits (c ∷ []) s (up_to q s) (up_to-Splits q s))

with_quote-Splits : (s : Bytes) (scan : Scan) → Splits s scan → Splits s (with_quote scan)
with_quote-Splits s (out, []) h = h
with_quote-Splits s (out, c ∷ rest) h = append_assoc out (c ∷ []) rest ∙ h

pub single-Splits : (s : Bytes) → Splits s (single s)
unfolding single
single-Splits s = with_quote-Splits s (up_to b'\'' s) (up_to-Splits b'\'' s)

double-Splits : (s : Bytes) → Splits s (double s)
unfolding double
double-Splits [] = refl
double-Splits (c ∷ []) = refl
double-Splits (c ∷ d ∷ s) = if_both (Splits (c ∷ d ∷ s)) (c == b'"') _ _ refl (
    if_both (Splits (c ∷ d ∷ s)) (c == b'\\') _ _
      (copy-Splits (c ∷ d ∷ []) s (double s) (double-Splits s))
      (copy-Splits (c ∷ []) (d ∷ s) (double (d ∷ s)) (double-Splits (d ∷ s))))

pub Splits-le : (s : Bytes) (scan : Scan) → Splits s scan → length scan.1 ≤ length s
Splits-le s (out, rest) h = omega (arith, ap length h, length-append out rest)

-- What is behind a scanned piece is copied too.
piece-Verbatim :
    (c : ℕ) (s : Bytes) (scan : Scan) (later : Bytes → Option Scan)
    → Splits s scan
    → ((r : Bytes) → length r ≤ length s → Verbatim r (later r))
    → Verbatim (c ∷ s) (copy_some (c ∷ scan.0) (later scan.1))
piece-Verbatim c s (out, rest) later h k =
    subst (λ x. Verbatim (c ∷ x) (copy_some (c ∷ out) (later rest))) h
      (copy_some-Verbatim (c ∷ out) rest (later rest) (k rest (Splits-le s (out, rest) h)))

substituted-Verbatim :
    (front s : Bytes) (o : Option Scan) (later : Bytes → Option Scan)
    → Verbatim s o
    → ((r : Bytes) → length r ≤ length s → Verbatim r (later r))
    → Verbatim (front ++ s) (substituted front o later)
substituted-Verbatim front s none later h k = cc h
substituted-Verbatim front s (some (out, rest)) later h k =
    subst (λ x. Verbatim x (copy_some (front ++ out) (later rest)))
      (append_assoc front out rest ∙ ap (λ x. front ++ x) h)
      (copy_some-Verbatim (front ++ out) rest (later rest) (k rest (Splits-le s (out, rest) h)))

and_false : (b : Bool) → (b && false) ≡ true → ⊥
and_false true h = cc h
and_false false h = cc h

escaped-Verbatim :
    (c : ℕ) (s : Bytes) (o : Option Scan)
    → (c == b'\\' && not (is_empty s)) ≡ true
    → Verbatim (behind s) o
    → Verbatim (c ∷ s) (copy_some (c ∷ peek s ∷ []) o)
escaped-Verbatim c [] o h k = absurd (and_false (c == b'\\') h)
escaped-Verbatim c (d ∷ s) o h k = copy_some-Verbatim (c ∷ d ∷ []) s o k

-- Two bytes that are looked for in front of a text.
looked_for :
    (a b c : ℕ) (s : Bytes)
    → (0 == b) ≡ false
    → (c == a && (peek s == b)) ≡ true
    → (a ∷ b ∷ behind s ≡ c ∷ s) × (c ∷ peek s ∷ behind s ≡ c ∷ s)
looked_for a b c [] z h = absurd (and_false (c == a) (subst (λ t. (c == a && t) ≡ true) z h))
looked_for a b c (d ∷ s) z h = (ground (arith, h), refl)

substituted-copy :
    (front : Bytes) (o : Option Scan) (later : Bytes → Option Scan)
    → substituted [] (copy_some front o) later ≡ substituted front o later
substituted-copy front none later = refl
substituted-copy front (some (out, rest)) later = refl

pub behind-le : (s : Bytes) → length (behind s) ≤ length s
behind-le [] = omega arith
behind-le (c ∷ s) = omega arith

pub cmdsub_loop-Verbatim :
    (f : ℕ) (mode : Mode) (s : Bytes) → length s < f → Verbatim s (cmdsub_loop f mode s)
unfolding cmdsub_loop
cmdsub_loop-Verbatim zero mode s h = absurd (omega (arith, h))
cmdsub_loop-Verbatim (suc f) (parens zero) s h = refl
cmdsub_loop-Verbatim (suc f) (parens (suc d)) [] h = refl
cmdsub_loop-Verbatim (suc f) (parens (suc d)) (c ∷ s) h =
    let within : (m : Mode) (r : Bytes) → length r ≤ length s → Verbatim r (cmdsub_loop f m r) =
      λ m r k. cmdsub_loop-Verbatim f m r (omega (arith, h, k)) in
    if-Verbatim (c == b'\'') (c ∷ s) _ _
      (λ _.
        piece-Verbatim c s (single s) (cmdsub_loop f (parens (suc d))) (single-Splits s)
          (within (parens (suc d))))
      (if-Verbatim (c == b'"') (c ∷ s) _ _
        (λ _. copy_some-Verbatim (c ∷ []) s _ (within (quoted (suc d)) s (omega arith)))
        (if-Verbatim (c == b'\\' && not (is_empty s)) (c ∷ s) _ _
          (λ e. escaped-Verbatim c s _ e (within (parens (suc d)) (behind s) (behind-le s)))
          (copy_some-Verbatim (c ∷ []) s _ (within (parens (depth_after c d)) s (omega arith)))))
cmdsub_loop-Verbatim (suc f) (quoted d) [] h = refl
cmdsub_loop-Verbatim (suc f) (quoted d) (c ∷ s) h =
    let within : (m : Mode) (r : Bytes) → length r ≤ length s → Verbatim r (cmdsub_loop f m r) =
      λ m r k. cmdsub_loop-Verbatim f m r (omega (arith, h, k)) in
    if-Verbatim (c == b'"') (c ∷ s) _ _
      (λ _. copy_some-Verbatim (c ∷ []) s _ (within (parens d) s (omega arith)))
      (if-Verbatim (c == b'$' && (peek s == b'(')) (c ∷ s) _ _
        (λ e.
          subst
            (λ x. Verbatim x (
              substituted (codes "$(") (cmdsub_loop f (parens 1) (behind s))
                (cmdsub_loop f (quoted d))))
            (looked_for b'$' b'(' c s refl e).0
            (substituted-Verbatim (codes "$(") (behind s) (cmdsub_loop f (parens 1) (behind s))
              (cmdsub_loop f (quoted d)) (within (parens 1) (behind s) (behind-le s))
              (λ r k. within (quoted d) r (omega (arith, k, behind-le s)))))
        (if-Verbatim (c == b'\\' && not (is_empty s)) (c ∷ s) _ _
          (λ e. escaped-Verbatim c s _ e (within (quoted d) (behind s) (behind-le s)))
          (copy_some-Verbatim (c ∷ []) s _ (within (quoted d) s (omega arith)))))

pub scan_cmdsub-Verbatim : (s : Bytes) → Verbatim (codes "$(" ++ s) (scan_cmdsub s)
unfolding scan_cmdsub
scan_cmdsub-Verbatim s =
    copy_some-Verbatim (codes "$(") s _
      (cmdsub_loop-Verbatim (suc (length s)) (parens 1) s (omega arith))

pub brace_loop-Verbatim : (f d : ℕ) (s : Bytes) → length s < f → Verbatim s (brace_loop f d s)
unfolding brace_loop
brace_loop-Verbatim zero d s h = absurd (omega (arith, h))
brace_loop-Verbatim (suc f) zero s h = refl
brace_loop-Verbatim (suc f) (suc d) [] h = refl
brace_loop-Verbatim (suc f) (suc d) (c ∷ s) h =
    let within : (e : ℕ) (r : Bytes) → length r ≤ length s → Verbatim r (brace_loop f e r) =
      λ e r k. brace_loop-Verbatim f e r (omega (arith, h, k)) in
    if-Verbatim (c == b'\\' && not (is_empty s)) (c ∷ s) _ _
      (λ e. escaped-Verbatim c s _ e (within (suc d) (behind s) (behind-le s)))
      (if-Verbatim (c == b'\'') (c ∷ s) _ _
        (λ _.
          piece-Verbatim c s (single s) (brace_loop f (suc d)) (single-Splits s) (within (suc d)))
        (if-Verbatim (c == b'"') (c ∷ s) _ _
          (λ _.
            piece-Verbatim c s (double s) (brace_loop f (suc d)) (double-Splits s) (within (suc d)))
          (if-Verbatim (c == b'$' && (peek s == b'(')) (c ∷ s) _ _
            (λ e.
              subst
                (λ x. Verbatim x (substituted [] (scan_cmdsub (behind s)) (brace_loop f (suc d))))
                (looked_for b'$' b'(' c s refl e).0
                (unfold scan_cmdsub in
                  subst (Verbatim (codes "$(" ++ behind s))
                    (sym (substituted-copy (codes "$(") _ (brace_loop f (suc d))))
                    (substituted-Verbatim (codes "$(") (behind s) _ (brace_loop f (suc d))
                      (cmdsub_loop-Verbatim (suc (length (behind s))) (parens 1) (behind s)
                        (omega arith))
                      (λ r k. within (suc d) r (omega (arith, k, behind-le s))))))
            (if-Verbatim (c == b'$' && (peek s == b'{')) (c ∷ s) _ _
              (λ e.
                subst
                  (λ x.
                    Verbatim x
                      (copy_some (c ∷ peek s ∷ []) (brace_loop f (suc (suc d)) (behind s))))
                  (looked_for b'$' b'{' c s refl e).1
                  (copy_some-Verbatim (c ∷ peek s ∷ []) (behind s) _
                    (within (suc (suc d)) (behind s) (behind-le s))))
              (copy_some-Verbatim (c ∷ []) s _ (within (brace_depth c d) s (omega arith)))))))

pub scan_braceparam-Verbatim : (s : Bytes) → Verbatim (codes "${" ++ s) (scan_braceparam s)
unfolding scan_braceparam
scan_braceparam-Verbatim s =
    copy_some-Verbatim (codes "${") s _ (brace_loop-Verbatim (suc (length s)) 1 s (omega arith))

-- `$(...)` and `${...}`, closed or not, are put into the word byte by byte: what is put and the text
-- that is left make up the text.
pub substitutions_are_copied :
    (s : Bytes)
    → Verbatim (codes "$(" ++ s) (scan_cmdsub s) × Verbatim (codes "${" ++ s) (scan_braceparam s)
substitutions_are_copied s = (scan_cmdsub-Verbatim s, scan_braceparam-Verbatim s)
