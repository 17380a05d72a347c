-- ===== src/Shell/Lex/Bodies.antt =====
-- The loops of a here-document in src/components/breezybox/shell/sh_lex.c come to an end.
use breezybox.Prelude.{
  ℕ, zero, suc, ◌≤◌, ◌<◌, ◌≡◌, Bool, true, false, ◌&&◌, ◌||◌, ◌==◌, if_both, Bytes, peek, length,
  Option, none, some, [], ◌∷◌, arith, str_eq, not,
}
use native.Mathlib.Nat.{le_trans}
use breezybox.Shell.Lex.Quote.{behind, is_empty, up_to}
use breezybox.Shell.Lex.Token.{
  with_byte, with_quoted, delim_loop, with_line, skip_tabs, line_of, more_lines, heredoc_loop,
}
use breezybox.Shell.Lex.Verbatim.{behind-le}
use breezybox.Shell.Lex.Shorter.{up_to-le}

skip_tabs-le : (s : Bytes) → length (skip_tabs s) ≤ length s
unfolding skip_tabs
skip_tabs-le [] = omega arith
skip_tabs-le (c ∷ s) =
    if_both (λ (r : Bytes). length r ≤ length (c ∷ s)) (c == b'\t') _ _
      (omega (arith, skip_tabs-le s)) (omega arith)

line_of-le : (dash : Bool) (s : Bytes) → length (line_of dash s).1 ≤ length s
unfolding line_of
line_of-le true s = le_trans (up_to-le b'\n' (skip_tabs s)) (skip_tabs-le s)
line_of-le false s = up_to-le b'\n' s

-- A loop comes to an end, and leaves at most `n` bytes.
unfoldable pub LeavesText : ℕ → Option (Bytes × Bytes) → Type 0
LeavesText n none = false ≡ true
LeavesText n (some (text, rest)) = length rest ≤ n

with_line-LeavesText :
    (n : ℕ) (line : Bytes) (o : Option (Bytes × Bytes))
    → LeavesText n o
    → LeavesText n (with_line line o)
unfolding LeavesText
with_line-LeavesText n line none h = h
with_line-LeavesText n line (some (text, rest)) h = h

more_lines-LeavesText :
    (n : ℕ) (later : Bytes → Option (Bytes × Bytes)) (line s : Bytes)
    → ((r : Bytes) → length r < length s → LeavesText n (later r))
    → LeavesText n (more_lines later line s)
unfolding LeavesText
more_lines-LeavesText n later line [] h = omega arith
more_lines-LeavesText n later line (c ∷ s) h =
    with_line-LeavesText n line (later s) (h s (omega arith))

pub heredoc_loop-LeavesText :
    (f n : ℕ) (delim : Bytes) (dash : Bool) (s : Bytes)
    → length s < f
    → length s ≤ n
    → LeavesText n (heredoc_loop f delim dash s)
unfolding heredoc_loop LeavesText
heredoc_loop-LeavesText zero n delim dash s h k = absurd (omega (arith, h))
heredoc_loop-LeavesText (suc f) n delim dash [] h k = omega arith
heredoc_loop-LeavesText (suc f) n delim dash (c ∷ s) h k =
    let line = line_of dash (c ∷ s) in
    let e = line_of-le dash (c ∷ s) in
    if_both (LeavesText n) (str_eq line.0 delim) _ _ (le_trans (behind-le line.1) (le_trans e k)) (
      more_lines-LeavesText n (heredoc_loop f delim dash) line.0 line.1 (λ r m.
        heredoc_loop-LeavesText f n delim dash r (omega (arith, m, e, h)) (omega (arith, m, e, k))))

-- The loop over a delimiter comes to an end.
unfoldable pub EndsDelim : Option (Bytes × Bool) → Type 0
EndsDelim none = false ≡ true
EndsDelim (some r) = Unit

with_byte-EndsDelim : (c : ℕ) (o : Option (Bytes × Bool)) → EndsDelim o → EndsDelim (with_byte c o)
unfolding EndsDelim
with_byte-EndsDelim c none h = h
with_byte-EndsDelim c (some (delim, quoted)) h = tt

with_quoted-EndsDelim :
    (out : Bytes) (o : Option (Bytes × Bool)) → EndsDelim o → EndsDelim (with_quoted out o)
unfolding EndsDelim
with_quoted-EndsDelim out none h = h
with_quoted-EndsDelim out (some (delim, quoted)) h = tt

pub delim_loop-EndsDelim : (f : ℕ) (s : Bytes) → length s < f → EndsDelim (delim_loop f s)
unfolding delim_loop
delim_loop-EndsDelim zero s h = absurd (omega (arith, h))
delim_loop-EndsDelim (suc f) [] h = unfold EndsDelim in tt
delim_loop-EndsDelim (suc f) (c ∷ s) h =
    let quote = up_to c s in
    if_both EndsDelim (c == b'\'' || c == b'"') _ _
      (with_quoted-EndsDelim quote.0 _ (
        delim_loop-EndsDelim f (behind quote.1)
          (omega (arith, h, behind-le quote.1, up_to-le c s))))
      (if_both EndsDelim (c == b'\\' && not (is_empty s)) _ _
        (with_quoted-EndsDelim (peek s ∷ []) _
          (delim_loop-EndsDelim f (behind s) (omega (arith, h, behind-le s))))
        (with_byte-EndsDelim c _ (delim_loop-EndsDelim f s (omega (arith, h)))))
