-- ===== src/Shell/Lex/Shorter.antt =====
-- The scanners of src/components/breezybox/shell/sh_lex.c come to an end and leave no more text than
-- they are given.
use breezybox.Prelude.{
  ℕ, zero, suc, ◌≤◌, ◌<◌, ◌≡◌, sym, subst, true, false, not, ◌&&◌, ◌==◌, if_both, if_false, Bytes,
  codes, peek, length, Option, none, some, [], ◌∷◌, ◌++◌, arith,
}
use native.Mathlib.Nat.{le_trans}
use breezybox.Shell.Lex.Quote.{
  Scan, behind, is_empty, copy_some, parens, up_to, backtick_loop, drops, scan_backtick,
  scan_cmdsub, scan_braceparam,
}
use breezybox.Shell.Lex.Word.{
  ends_word, Word, word, unterminated, put, put_scan, put_single, first, Place, plain, in_double,
  plain_byte, double_byte, word_loop, scan_word,
}
use breezybox.Shell.Lex.Verbatim.{
  Splits-le, Verbatim, up_to-Splits, behind-le, cmdsub_loop-Verbatim, brace_loop-Verbatim,
}

pub up_to-le : (q : ℕ) (s : Bytes) → length (up_to q s).1 ≤ length s
up_to-le q s = Splits-le s (up_to q s) (up_to-Splits q s)

backtick_loop-le : (s : Bytes) → length (backtick_loop s).1 ≤ length s
unfolding backtick_loop
backtick_loop-le [] = omega arith
backtick_loop-le (c ∷ []) =
    if_both (λ (r : Scan). length r.1 ≤ 1) (c == b'`') _ _ (omega arith) (omega arith)
backtick_loop-le (c ∷ d ∷ s) =
    if_both (λ (r : Scan). length r.1 ≤ length (c ∷ d ∷ s)) (c == b'`') _ _ (omega arith)
      (if_both (λ (r : Scan). length r.1 ≤ length (c ∷ d ∷ s)) (c == b'\\' && drops d) _ _
        (omega (arith, backtick_loop-le s)) (omega (arith, backtick_loop-le (d ∷ s))))

scan_backtick-le : (s : Bytes) → length (scan_backtick s).1 ≤ length s
unfolding scan_backtick
scan_backtick-le s = backtick_loop-le s

-- A piece was scanned, and at most `n` bytes are left.
ScanLeaves : ℕ → Option Scan → Type 0
ScanLeaves n none = false ≡ true
ScanLeaves n (some (out, rest)) = length rest ≤ n

copied-ScanLeaves :
    (front s : Bytes) (o : Option Scan) → Verbatim s o → ScanLeaves (length s) (copy_some front o)
unfolding ScanLeaves
copied-ScanLeaves front s none h = h
copied-ScanLeaves front s (some (out, rest)) h = Splits-le s (out, rest) h

scan_cmdsub-ScanLeaves : (s : Bytes) → ScanLeaves (length s) (scan_cmdsub s)
unfolding scan_cmdsub
scan_cmdsub-ScanLeaves s =
    copied-ScanLeaves (codes "$(") s _
      (cmdsub_loop-Verbatim (suc (length s)) (parens 1) s (omega arith))

scan_braceparam-ScanLeaves : (s : Bytes) → ScanLeaves (length s) (scan_braceparam s)
unfolding scan_braceparam
scan_braceparam-ScanLeaves s =
    copied-ScanLeaves (codes "${") s _ (brace_loop-Verbatim (suc (length s)) 1 s (omega arith))

-- A word was scanned, or is not closed, and at most `n` bytes are left.
unfoldable pub Leaves : ℕ → Option Word → Type 0
Leaves n none = false ≡ true
Leaves n (some (word out rest)) = length rest ≤ n
Leaves n (some unterminated) = Unit

put-Leaves : (n : ℕ) (front : Bytes) (o : Option Word) → Leaves n o → Leaves n (put front o)
unfolding Leaves
put-Leaves n front none h = h
put-Leaves n front (some (word out rest)) h = h
put-Leaves n front (some unterminated) h = h

module _ (n : ℕ) (later : Place → Bytes → Option Word)
    (within : (place : Place) (r : Bytes) → length r ≤ n → Leaves n (later place r)) where
  put_single-Leaves : (scan : Scan) → length scan.1 ≤ n → Leaves n (put_single scan (later plain))
  put_single-Leaves (out, []) h = unfold Leaves in tt
  put_single-Leaves (out, q ∷ rest) h =
      put-Leaves n (b'\'' ∷ out ++ q ∷ []) _ (within plain rest (omega (arith, h)))

  put_scan-Leaves :
      (place : Place) (scan : Scan)
      → length scan.1 ≤ n
      → Leaves n (put_scan (some scan) (later place))
  put_scan-Leaves place (out, rest) h = put-Leaves n out _ (within place rest h)

  -- a substitution
  scanned-Leaves :
      (place : Place) (s : Bytes) (o : Option Scan)
      → length s ≤ n
      → ScanLeaves (length (behind s)) o
      → Leaves n (put_scan o (later place))
  unfolding ScanLeaves
  scanned-Leaves place s none h k = absurd (cc k)
  scanned-Leaves place s (some scan) h k =
      put_scan-Leaves place scan (omega (arith, h, k, behind-le s))

  behind-Leaves :
      (front : Bytes) (place : Place) (s : Bytes)
      → length s ≤ n
      → Leaves n (put front (later place (behind s)))
  behind-Leaves front place s h =
      put-Leaves n front _ (within place (behind s) (le_trans (behind-le s) h))

  plain_byte-Leaves : (c : ℕ) (s : Bytes) → length s ≤ n → Leaves n (plain_byte later c s)
  unfolding plain_byte
  plain_byte-Leaves c s h =
      if_both (Leaves n) (c == b'\'') _ _
        (put_single-Leaves (up_to b'\'' s) (le_trans (up_to-le b'\'' s) h))
        (if_both (Leaves n) (c == b'"') _ _ (put-Leaves n (c ∷ []) _ (within in_double s h)) (
          if_both (Leaves n) (c == b'`') _ _
            (put_scan-Leaves plain (scan_backtick s) (le_trans (scan_backtick-le s) h))
            (if_both (Leaves n) (c == b'$' && (peek s == b'(')) _ _
              (scanned-Leaves plain s _ h (scan_cmdsub-ScanLeaves (behind s)))
              (if_both (Leaves n) (c == b'$' && (peek s == b'{')) _ _
                (scanned-Leaves plain s _ h (scan_braceparam-ScanLeaves (behind s)))
                (if_both (Leaves n) (c == b'\\') _ _
                  (if_both (Leaves n) (peek s == b'\n') _ _
                    (within plain (behind s) (le_trans (behind-le s) h))
                    (behind-Leaves (c ∷ first s) plain s h))
                  (put-Leaves n (c ∷ []) _ (within plain s h)))))))

  double_byte-Leaves : (c : ℕ) (s : Bytes) → length s ≤ n → Leaves n (double_byte later c s)
  unfolding double_byte
  double_byte-Leaves c s h =
      if_both (Leaves n) (c == b'"') _ _ (put-Leaves n (c ∷ []) _ (within plain s h)) (
        if_both (Leaves n) (c == b'$' && (peek s == b'(')) _ _
          (scanned-Leaves in_double s _ h (scan_cmdsub-ScanLeaves (behind s)))
          (if_both (Leaves n) (c == b'`') _ _
            (put_scan-Leaves in_double (scan_backtick s) (le_trans (scan_backtick-le s) h))
            (if_both (Leaves n) (c == b'\\' && (peek s == b'\n')) _ _
              (within in_double (behind s) (le_trans (behind-le s) h))
              (if_both (Leaves n) (c == b'\\' && not (is_empty s)) _ _
                (behind-Leaves (c ∷ peek s ∷ []) in_double s h)
                (put-Leaves n (c ∷ []) _ (within in_double s h))))))

Leaves-le : (m n : ℕ) (o : Option Word) → m ≤ n → Leaves m o → Leaves n o
unfolding Leaves
Leaves-le m n none h k = k
Leaves-le m n (some (word out rest)) h k = le_trans k h
Leaves-le m n (some unterminated) h k = tt

word_loop-Leaves :
    (f : ℕ) (place : Place) (s : Bytes) → length s < f → Leaves (length s) (word_loop f place s)
unfolding word_loop Leaves
word_loop-Leaves zero place s h = absurd (omega (arith, h))
word_loop-Leaves (suc f) plain [] h = omega arith
word_loop-Leaves (suc f) in_double [] h = tt
word_loop-Leaves (suc f) plain (c ∷ s) h =
    if_both (Leaves (length (c ∷ s))) (ends_word c) _ _ (omega arith) (
      Leaves-le (length s) (length (c ∷ s)) _ (omega arith) (
        plain_byte-Leaves (length s) (word_loop f)
          (λ place r k.
            Leaves-le (length r) (length s) _ k (word_loop-Leaves f place r (omega (arith, h, k))))
          c s (omega arith)))
word_loop-Leaves (suc f) in_double (c ∷ s) h =
    Leaves-le (length s) (length (c ∷ s)) _ (omega arith) (
      double_byte-Leaves (length s) (word_loop f)
        (λ place r k.
          Leaves-le (length r) (length s) _ k (word_loop-Leaves f place r (omega (arith, h, k))))
        c s (omega arith))

-- A word that its first byte does not end has that byte.
pub scan_word-Leaves :
    (c : ℕ) (s : Bytes) → ends_word c ≡ false → Leaves (length s) (scan_word (c ∷ s))
unfolding scan_word word_loop
scan_word-Leaves c s h = subst (Leaves (length s)) (sym (if_false (ends_word c) _ _ h)) (
    plain_byte-Leaves (length s) (word_loop (suc (length s)))
      (λ place r k.
        Leaves-le (length r) (length s) _ k
          (word_loop-Leaves (suc (length s)) place r (omega (arith, k))))
      c s (omega arith))
