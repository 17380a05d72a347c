-- ===== src/Shell/Lex/HereDoc.antt =====
-- The here-documents of src/components/breezybox/shell/sh_lex.c.
use breezybox.Prelude.{
  ℕ, zero, suc, ◌<◌, ◌≡◌, refl, sym, ap, ◌∙◌, Bool, true, false, ◌==◌, if◌then◌else◌, if_false,
  if_true, str_eq, str_eq_iff, is_letter, Bytes, codes, length, length-append, append_assoc,
  append-nil, get_elem?, set, map, Option, none, some, List, [], ◌∷◌, ◌++◌, arith,
}
use breezybox.Shell.Lex.Quote.{behind}
use breezybox.Shell.Lex.Token.{
  Tok, tok, t_dless, t_newline, t_eof, lex_byte, tokens, sh_lex, heredoc_delim, line_of, more_lines,
  with_line, with_text, with_body, then_bodies, set_body, Round, go_on, null_text, heredoc_loop,
  collect_heredoc, heredocs,
}
use breezybox.Shell.Lex.Letters.{Letters, Letters-lack, delim_loop-Letters}
use breezybox.Shell.Lex.Quoted.{Lacks, up_to-append}
use breezybox.Shell.Lex.Steps.{
  state, lexed, lexed_end, lexed_step, IsWord, AreWords, word_tok, spaced, lexed-spaced, led,
  lexed_in_front, lexed-led,
}

-- Lines of a here-document, none of them the delimiter.
unfoldable pub lines : List Bytes → Bytes
lines [] = []
lines (line ∷ more) = line ++ b'\n' ∷ lines more

unfoldable pub AreLines : Bytes → List Bytes → Type 0
AreLines delim [] = Unit
AreLines delim (line ∷ more) = Lacks b'\n' line × (str_eq line delim ≡ false) × AreLines delim more

str_eq_refl : (s : Bytes) → str_eq s s ≡ true
str_eq_refl s = (str_eq_iff s s).1 refl

line_of-append :
    (line s : Bytes) → Lacks b'\n' line → line_of false (line ++ b'\n' ∷ s) ≡ (line, b'\n' ∷ s)
unfolding line_of
line_of-append line s h = up_to-append b'\n' line s refl h

-- What the loop does with a line of the text.
abbrev by_line : ℕ → Bytes → Bytes × Bytes → Option (Bytes × Bytes)
by_line f delim (line, rest) =
    if str_eq line delim
    then some ([], behind rest)
    else more_lines (heredoc_loop f delim false) line rest

heredoc_line :
    (f : ℕ) (delim line s : Bytes)
    → Lacks b'\n' line
    → heredoc_loop (suc f) delim false (line ++ b'\n' ∷ s) ≡ by_line f delim (line, b'\n' ∷ s)
unfolding heredoc_loop
heredoc_line f delim [] s h = ap (by_line f delim) (line_of-append [] s h)
heredoc_line f delim (c ∷ line) s h = ap (by_line f delim) (line_of-append (c ∷ line) s h)

heredoc_loop-lines :
    (more : List Bytes) (f : ℕ) (delim s : Bytes)
    → length (lines more ++ (delim ++ b'\n' ∷ s)) < f
    → Lacks b'\n' delim
    → AreLines delim more
    → heredoc_loop f delim false (lines more ++ (delim ++ b'\n' ∷ s)) ≡ some (lines more, s)
unfolding lines AreLines
heredoc_loop-lines more zero delim s h d k = absurd (omega (arith, h))
heredoc_loop-lines [] (suc f) delim s h d k =
    heredoc_line f delim delim s d ∙ if_true (str_eq delim delim) _ _ (str_eq_refl delim)
heredoc_loop-lines (line ∷ more) (suc f) delim s h d k =
    let rest = lines more ++ (delim ++ b'\n' ∷ s) in
    let e : (line ++ b'\n' ∷ lines more) ++ (delim ++ b'\n' ∷ s) ≡ line ++ b'\n' ∷ rest =
      append_assoc line (b'\n' ∷ lines more) (delim ++ b'\n' ∷ s) in
    ap (heredoc_loop (suc f) delim false) e
    ∙ heredoc_line f delim line rest k.0
    ∙ if_false (str_eq line delim) _ _ k.1
    ∙ ap (with_line line) (
        heredoc_loop-lines more f delim s
          (omega (arith, h, ap length e, length-append line (b'\n' ∷ rest))) d k.2)

-- The token of a here-document whose text is to be expanded.
abbrev pub here_tok : Bytes → Tok
here_tok text = record { type = t_dless; text = some text; hd_quoted = false; rfd = none }

-- The tokens at an index behind others.
pub get_elem?-behind :
    (ts : List Tok) (a b : Tok) (us : List Tok)
    → get_elem? (ts ++ a ∷ b ∷ us) (suc (length ts)) ≡ some b
get_elem?-behind [] a b us = refl
get_elem?-behind (t ∷ ts) a b us = get_elem?-behind ts a b us

get_elem?-append :
    (ts : List Tok) (a : Tok) (us : List Tok) → get_elem? (ts ++ a ∷ us) (length ts) ≡ some a
get_elem?-append [] a us = refl
get_elem?-append (t ∷ ts) a us = get_elem?-append ts a us

set-append :
    (ts : List Tok) (a b : Tok) (us : List Tok) → set (ts ++ a ∷ us) (length ts) b ≡ ts ++ b ∷ us
set-append [] a b us = refl
set-append (t ∷ ts) a b us = ap (λ x. t ∷ x) (set-append ts a b us)

abbrev pub text_in : Option Tok → Option Bytes
text_in o = elim o [ none ↦ none | some t ↦ t.text ]

abbrev tok_in : Option Tok → Tok
tok_in o = elim o [ none ↦ tok t_eof none | some t ↦ t ]

-- The loop over the here-documents with one of them, whose delimiter is of letters.
heredocs-lines :
    (ts us : List Tok) (delim : Bytes) (more : List Bytes) (s : Bytes) (pend : List (ℕ × Bool))
    → Letters delim
    → AreLines delim more
    → heredocs ((length ts, false) ∷ []) (
        state
          (lines more ++ (delim ++ b'\n' ∷ s))
          (ts ++ tok t_dless none ∷ word_tok delim ∷ us)
          pend)
      ≡ some (go_on (state s (ts ++ here_tok (lines more) ∷ word_tok delim ∷ us) []))
unfolding heredocs heredoc_delim collect_heredoc
heredocs-lines ts us delim more s pend h k =
    let n = length ts in
    let toks = ts ++ tok t_dless none ∷ word_tok delim ∷ us in
    let body = lines more ++ (delim ++ b'\n' ∷ s) in
    let l = state body toks pend in
    let round : Option Bytes → Option Round = λ o. elim o [
      | none ↦ some null_text
      | some text ↦ then_bodies (heredocs []) (with_body n false (heredoc_delim text) l)
    ] in
    let done : Tok → Option Round =
      λ t. some (go_on (state s (set_body n t (lines more) false toks) [])) in
    ap (λ o. round (text_in o)) (get_elem?-behind ts (tok t_dless none) (word_tok delim) us)
    ∙ ap (λ x. then_bodies (heredocs []) (with_body n false x l))
        (delim_loop-Letters delim (suc (length delim)) (omega arith) h)
    ∙ ap (λ x. then_bodies (heredocs []) (with_text n false x l))
        (heredoc_loop-lines more (suc (length body)) delim s (omega arith) (Letters-lack delim h) k)
    ∙ ap (λ o. done (tok_in o)) (get_elem?-append ts (tok t_dless none) (word_tok delim ∷ us))
    ∙ ap (λ x. some (go_on (state s x [])))
        (set-append ts (tok t_dless none) (here_tok (lines more)) (word_tok delim ∷ us))

-- `<<` in front of a delimiter.
pub lexed_less_less :
    (c : ℕ) (s : Bytes) (ts : List Tok)
    → (c == b'-') ≡ false
    → lexed (state (codes "<<" ++ c ∷ s) ts [])
      ≡ lexed (state (c ∷ s) (ts ++ tok t_dless none ∷ []) ((length ts, false) ∷ []))
lexed_less_less c s ts h =
    lexed_step b'<' (b'<' ∷ c ∷ s) ts [] _ (omega arith)
      (unfold lex_byte in ap (λ x. some (go_on x)) (if_false (c == b'-') _ _ h))

-- The end of the line.
lexed_line_end :
    (ts us : List Tok) (delim : Bytes) (more : List Bytes) (s : Bytes)
    → Letters delim
    → AreLines delim more
    → lexed (
        state
          (b'\n' ∷ lines more ++ (delim ++ b'\n' ∷ s))
          (ts ++ tok t_dless none ∷ word_tok delim ∷ us)
          ((length ts, false) ∷ []))
      ≡ lexed (
          state s
            (ts ++ here_tok (lines more) ∷ word_tok delim ∷ (us ++ tok t_newline none ∷ []))
            [])
unfolding lex_byte
lexed_line_end ts us delim more s h k =
    let body = lines more ++ (delim ++ b'\n' ∷ s) in
    let pend : List (ℕ × Bool) = (length ts, false) ∷ [] in
    lexed_step b'\n' body _ pend
      (state s (ts ++ here_tok (lines more) ∷ word_tok delim ∷ (us ++ tok t_newline none ∷ [])) [])
      (omega
        (arith, length-append (lines more) (delim ++ b'\n' ∷ s), length-append delim (b'\n' ∷ s)))
      (ap (λ x. heredocs pend (state body x pend))
          (append_assoc ts (tok t_dless none ∷ word_tok delim ∷ us) (tok t_newline none ∷ []))
        ∙ heredocs-lines ts (us ++ tok t_newline none ∷ []) delim more s pend h k)

-- A line with words, `<<` and a delimiter, and words; the lines of the text, the delimiter, and a
-- line with words.
abbrev pub here_script : List Bytes → Bytes → List Bytes → List Bytes → List Bytes → Bytes
here_script ws delim vs more us =
    spaced ws
    ++ (codes "<<" ++ (delim ++ (led vs ++ b'\n' ∷ (lines more ++ (delim ++ b'\n' ∷ spaced us)))))

-- A here-document whose delimiter is a word of letters becomes, among the tokens of its line, a
-- token with its lines as they are, which are to be expanded, where no line is the delimiter. Any
-- words of letters in front of it on the line, each with a blank behind it, behind its delimiter, each
-- with a blank in front of it, and behind its text, each with a blank behind it, become words.
pub sh_lex-here_script :
    (ws vs us : List Bytes) (d : ℕ) (delim : Bytes) (more : List Bytes)
    → AreWords ws
    → AreWords vs
    → AreWords us
    → Letters (d ∷ delim)
    → AreLines (d ∷ delim) more
    → sh_lex (here_script ws (d ∷ delim) vs more us)
      ≡ some (
          tokens (
            map word_tok ws
            ++ here_tok (lines more)
              ∷ word_tok (d ∷ delim)
              ∷ (map word_tok vs ++ tok t_newline none ∷ (map word_tok us ++ tok t_eof none ∷ []))))
sh_lex-here_script ws vs us d delim more hw hv hu h k =
    let ts = map word_tok ws in
    let pend : List (ℕ × Bool) = (length ts, false) ∷ [] in
    let text = lines more ++ (d ∷ delim ++ b'\n' ∷ spaced us) in
    let line = led vs ++ b'\n' ∷ text in
    let letter : is_letter d ≡ true = unfold Letters in h.0 in
    let less = tok t_dless none ∷ [] in
    let delim_tok = word_tok (d ∷ delim) ∷ [] in
    let front =
      here_tok (lines more) ∷ word_tok (d ∷ delim) ∷ (map word_tok vs ++ tok t_newline none ∷ []) in
    let first_line = ts ++ front in
    let last = map word_tok us ++ tok t_eof none ∷ [] in
    let start : sh_lex (here_script ws (d ∷ delim) vs more us)
        ≡ lexed (state (here_script ws (d ∷ delim) vs more us) [] []) =
      unfold sh_lex lexed in refl in
    start
    ∙ lexed-spaced ws (codes "<<" ++ d ∷ delim ++ line) [] [] hw
    ∙ lexed_less_less d (delim ++ line) ts (ground (arith, letter))
    ∙ lexed_in_front (d ∷ delim) vs text (ts ++ less) pend (unfold IsWord in h)
    ∙ lexed-led vs text ((ts ++ less) ++ delim_tok) pend hv
    ∙ ap (λ x. lexed (state (b'\n' ∷ text) (x ++ map word_tok vs) pend))
        (append_assoc ts less delim_tok)
    ∙ ap (λ x. lexed (state (b'\n' ∷ text) x pend))
        (append_assoc ts (tok t_dless none ∷ delim_tok) (map word_tok vs))
    ∙ lexed_line_end ts (map word_tok vs) (d ∷ delim) more (spaced us) h k
    ∙ ap (λ x. lexed (state x first_line [])) (sym (append-nil (spaced us)))
    ∙ lexed-spaced us [] first_line [] hu
    ∙ lexed_end (first_line ++ map word_tok us) []
    ∙ ap (λ x. some (tokens x))
        (append_assoc first_line (map word_tok us) (tok t_eof none ∷ [])
          ∙ append_assoc ts front last
          ∙ ap (λ x. ts ++ here_tok (lines more) ∷ word_tok (d ∷ delim) ∷ x)
              (append_assoc (map word_tok vs) (tok t_newline none ∷ []) last))
