-- ===== src/Shell/Lex/Ends.antt =====
-- sh_lex of src/components/breezybox/shell/sh_lex.c comes to an end on every text.
use breezybox.Prelude.{
  ℕ, zero, suc, ◌+◌, ◌*◌, ◌-◌, ◌≤◌, ◌<◌, ◌≡◌, refl, ap, Bool, true, false, ◌&&◌, ◌||◌, ◌==◌,
  if◌then◌else◌, if_both, Bytes, peek, length, Option, none, some, List, [], ◌∷◌, arith, is_digit,
  digits,
}
use native.Mathlib.Nat.{le_trans}
use breezybox.Shell.Lex.Quote.{behind}
use breezybox.Shell.Lex.Word.{ends_word, Word, word, unterminated, scan_word}
use breezybox.Shell.Lex.Token.{
  Lexer, with_text, then_bodies, heredoc_delim, collect_heredoc, Round, go_on, lex_error, null_text,
  text_at, with_body, heredocs, lex_redir, push_word, is_redirect, descriptor, digits_or_word,
  lex_byte, Lexed, then_on, lex_at, lex_loop, begin, sh_lex,
}
use breezybox.Shell.Lex.Verbatim.{behind-le}
use breezybox.Shell.Lex.Shorter.{up_to-le, Leaves, scan_word-Leaves}
use breezybox.Shell.Lex.Bodies.{
  LeavesText, EndsDelim, heredoc_loop-LeavesText, delim_loop-EndsDelim,
}

-- A round ends, and where it goes on there are at most `n` bytes left.
unfoldable pub Ends : ℕ → Option Round → Type 0
Ends n none = false ≡ true
Ends n (some (go_on l)) = length l.rest ≤ n
Ends n (some lex_error) = Unit
Ends n (some null_text) = Unit

then_bodies-Ends :
    (n dt : ℕ) (quoted : Bool) (o : Option (Bytes × Bytes)) (l : Lexer)
    (later : Lexer → Option Round)
    → LeavesText n o
    → ((l' : Lexer) → length l'.rest ≤ n → Ends n (later l'))
    → Ends n (then_bodies later (with_text dt quoted o l))
unfolding LeavesText
then_bodies-Ends n dt quoted none l later h k = absurd (cc h)
then_bodies-Ends n dt quoted (some (text, rest)) l later h k = k _ h

with_body-Ends :
    (n dt : ℕ) (dash : Bool) (o : Option (Bytes × Bool)) (l : Lexer) (later : Lexer → Option Round)
    → EndsDelim o
    → length l.rest ≤ n
    → ((l' : Lexer) → length l'.rest ≤ n → Ends n (later l'))
    → Ends n (then_bodies later (with_body dt dash o l))
unfolding EndsDelim
with_body-Ends n dt dash none l later e h k = absurd (cc e)
with_body-Ends n dt dash (some (delim, quoted)) l later e h k =
    then_bodies-Ends n dt quoted (collect_heredoc delim dash l.rest) l later
      (unfold collect_heredoc in
        heredoc_loop-LeavesText (suc (length l.rest)) n delim dash l.rest (omega arith) h)
      k

heredocs-Ends :
    (pend : List (ℕ × Bool)) (n : ℕ) (l : Lexer) → length l.rest ≤ n → Ends n (heredocs pend l)
unfolding heredocs
heredocs-Ends [] n l h = unfold Ends in h
heredocs-Ends ((dt, dash) ∷ pend) n l h =
    go (text_at l.toks (suc dt)) (λ l' k. heredocs-Ends pend n l' k)
  where
    go :
        (o : Option Bytes)
        → ((l' : Lexer) → length l'.rest ≤ n → Ends n (heredocs pend l'))
        → Ends n (elim o [
          | none ↦ some null_text
          | some text ↦ then_bodies (heredocs pend) (with_body dt dash (heredoc_delim text) l)
        ])
    go none k = unfold Ends in tt
    go (some text) k =
        with_body-Ends n dt dash (heredoc_delim text) l (heredocs pend)
          (unfold heredoc_delim in delim_loop-EndsDelim (suc (length text)) text (omega arith)) h k

-- One byte, or two.
twice-Ends :
    (n : ℕ) (b : Bool) (l l' : Lexer)
    → length l.rest ≤ n
    → length l'.rest ≤ n
    → Ends n (some (go_on (if b then l else l')))
unfolding Ends
twice-Ends n b l l' h k = if_both (λ (x : Lexer). length x.rest ≤ n) b _ _ h k

lex_redir-Ends :
    (fd : Option ℕ) (c : ℕ) (s : Bytes) (l : Lexer)
    → Ends (length s) (some (go_on (lex_redir fd c s l)))
unfolding Ends
lex_redir-Ends fd c s l =
    if_both P (c == b'<') _ _
      (if_both P (peek s == b'<') _ _
        (if_both P (peek (behind s) == b'-') _ _ (le_trans (behind-le (behind s)) (behind-le s))
          (behind-le s))
        (if_both P (peek s == b'&') _ _ (behind-le s) (omega arith)))
      (if_both P (peek s == b'>') _ _ (behind-le s) (
        if_both P (peek s == b'&') _ _ (behind-le s)
          (if_both P (peek s == b'|') _ _ (behind-le s) (omega arith))))
  where
    P : Lexer → Type 0
    P x = length x.rest ≤ length s

push_word-Ends : (n : ℕ) (o : Option Word) (l : Lexer) → Leaves n o → Ends n (push_word o l)
unfolding Leaves Ends
push_word-Ends n none l h = h
push_word-Ends n (some (word text rest)) l h = h
push_word-Ends n (some unterminated) l h = tt

digits-le : (n : ℕ) (s : Bytes) → length (digits n s).1 ≤ length s
unfolding digits
digits-le n [] = omega arith
digits-le n (c ∷ s) =
    if_both (λ (r : ℕ × Bytes). length r.1 ≤ length (c ∷ s)) (is_digit c) _ _
      (omega (arith, digits-le (n * 10 + (c - b'0')) s)) (omega arith)

Ends-le : (m n : ℕ) (o : Option Round) → m ≤ n → Ends m o → Ends n o
unfolding Ends
Ends-le m n none h k = k
Ends-le m n (some (go_on l)) h k = le_trans k h
Ends-le m n (some lex_error) h k = tt
Ends-le m n (some null_text) h k = tt

if-Ends :
    (n : ℕ) (b : Bool) (x y : Option Round)
    → Ends n x
    → (b ≡ false → Ends n y)
    → Ends n (if b then x else y)
if-Ends n true x y h k = h
if-Ends n false x y h k = k refl

behind-pred : (s : Bytes) → length (behind s) ≤ length s - 1
behind-pred [] = omega arith
behind-pred (c ∷ s) = omega arith

digits_or_word-Ends :
    (c : ℕ) (s : Bytes) (l : Lexer)
    → ends_word c ≡ false
    → Ends (length s) (digits_or_word (c ∷ s) l)
digits_or_word-Ends c s l h =
    let run = digits 0 (c ∷ s) in
    if_both (Ends (length s)) (is_digit c && is_redirect (peek run.1)) _ _
      (Ends-le (length (behind run.1)) (length s) _
        (omega (arith, behind-pred run.1, digits-le 0 (c ∷ s)))
        (lex_redir-Ends (descriptor run.0) (peek run.1) (behind run.1) l))
      (push_word-Ends (length s) (scan_word (c ∷ s)) l (scan_word-Leaves c s h))

same-Ends : (n : ℕ) (l : Lexer) → length l.rest ≤ n → Ends n (some (go_on l))
unfolding Ends
same-Ends n l h = h

pub lex_byte-Ends : (c : ℕ) (s : Bytes) (l : Lexer) → Ends (length s) (lex_byte c s l)
unfolding lex_byte
lex_byte-Ends c s l =
    let n = length s in
    if-Ends n (c == b' ' || (c == b'\t' || c == b'\r')) _ _ (same-Ends n _ (omega arith)) (λ blank.
      if-Ends n (c == b'\\' && (peek s == b'\n')) _ _ (same-Ends n _ (behind-le s)) (λ _.
        if-Ends n (c == b'#') _ _ (same-Ends n _ (up_to-le b'\n' s)) (λ _.
          if-Ends n (c == b'\n') _ _ (heredocs-Ends l.pend n _ (omega arith)) (λ line.
            if-Ends n (c == b';') _ _
              (twice-Ends n (peek s == b';') _ _ (behind-le s) (omega arith))
              (λ semi. if-Ends n (c == b'(') _ _ (same-Ends n _ (omega arith)) (λ opened.
                if-Ends n (c == b')') _ _ (same-Ends n _ (omega arith)) (λ closed.
                  if-Ends n (c == b'&') _ _
                    (twice-Ends n (peek s == b'&') _ _ (behind-le s) (omega arith))
                    (λ amp.
                      if-Ends n (c == b'|') _ _
                        (twice-Ends n (peek s == b'|') _ _ (behind-le s) (omega arith))
                        (λ bar.
                          if-Ends n (c == b'<' || c == b'>') _ _ (lex_redir-Ends none c s l)
                            (λ redirect. digits_or_word-Ends c s l (
                              ground (
                                arith, blank, line, semi, opened, closed, amp, bar, redirect,
                              ))))))))))))

then_on-Ends :
    (n : ℕ) (later : Lexer → Option Lexed) (o : Option Round)
    → Ends n o
    → ((l : Lexer) → length l.rest ≤ n → (r : Lexed) × (later l ≡ some r))
    → (r : Lexed) × (then_on later o ≡ some r)
unfolding Ends
then_on-Ends n later none h k = absurd (cc h)
then_on-Ends n later (some (go_on l)) h k = k l h
then_on-Ends n later (some lex_error) h k = (_, refl)
then_on-Ends n later (some null_text) h k = (_, refl)

lex_loop-ends : (f : ℕ) (l : Lexer) → length l.rest < f → (r : Lexed) × (lex_loop f l ≡ some r)
unfolding lex_loop
lex_loop-ends zero l h = absurd (omega (arith, h))
lex_loop-ends (suc f) l h = go l.rest refl (λ l' k. lex_loop-ends f l' k)
  where
    go :
        (s : Bytes)
        → l.rest ≡ s
        → ((l' : Lexer) → length l'.rest < f → (r : Lexed) × (lex_loop f l' ≡ some r))
        → (r : Lexed) × (lex_at (lex_loop f) l s ≡ some r)
    go [] e k = (_, refl)
    go (c ∷ s) e k =
        then_on-Ends (length s) (lex_loop f) (lex_byte c s l) (lex_byte-Ends c s l)
          (λ l' m. k l' (omega (arith, h, ap length e, m)))

-- The lexer ends on every text, with tokens, with an error or at a pointer that is NULL: as many
-- rounds as the text has bytes and one more are enough, and so are those of every scanner that it
-- calls, of the delimiter of a here-document and of the loop over its lines.
pub sh_lex_ends : (src : Bytes) → (r : Lexed) × (sh_lex src ≡ some r)
unfolding sh_lex
sh_lex_ends src = lex_loop-ends (suc (length src)) (begin src) (omega arith)
