-- ===== src/Shell/Lex/NoDelimiter.antt =====
-- A here-document without a delimiter in src/components/breezybox/shell/sh_lex.c.
use breezybox.Prelude.{
  ℕ, ◌≡◌, refl, ap, ◌∙◌, Bool, true, false, ◌&&◌, ◌||◌, ◌==◌, if◌then◌else◌, if_false, if_true,
  Bytes, codes, peek, length, length-append, append_assoc, map, Option, none, some, List, [], ◌∷◌,
  ◌++◌, arith,
}
use breezybox.Shell.Lex.Token.{
  Tok, tok, t_dless, t_dlessdash, t_newline, lex_byte, crashed, sh_lex, heredoc_delim, with_body,
  then_bodies, heredocs, Round, go_on, null_text,
}
use breezybox.Shell.Lex.Quoted.{Lacks, up_to-append}
use breezybox.Shell.Lex.Steps.{
  state, lexed, lexed_step, lexed_crash, lexed_blank, AreWords, word_tok, spaced, lexed-spaced,
}
use breezybox.Shell.Lex.HereDoc.{get_elem?-behind, text_in, lexed_less_less}

-- Blanks, which are spaces, tabs and carriage returns.
unfoldable pub AreBlanks : Bytes → Type 0
AreBlanks [] = Unit
AreBlanks (c ∷ s) = ((c == b' ' || (c == b'\t' || c == b'\r')) ≡ true) × AreBlanks s

-- No comment, or one that starts with `#` and has no end of line.
unfoldable pub IsComment : Bytes → Type 0
IsComment [] = Unit
IsComment (c ∷ s) = ((c == b'#') ≡ true) × Lacks b'\n' s

lexed_blanks :
    (blanks s : Bytes) (toks : List Tok) (pend : List (ℕ × Bool))
    → AreBlanks blanks
    → lexed (state (blanks ++ s) toks pend) ≡ lexed (state s toks pend)
unfolding AreBlanks
lexed_blanks [] s toks pend h = refl
lexed_blanks (c ∷ blanks) s toks pend h =
    lexed_blank c (blanks ++ s) toks pend h.0 ∙ lexed_blanks blanks s toks pend h.1

lexed_comment :
    (note s : Bytes) (toks : List Tok) (pend : List (ℕ × Bool))
    → IsComment note
    → lexed (state (note ++ b'\n' ∷ s) toks pend) ≡ lexed (state (b'\n' ∷ s) toks pend)
unfolding IsComment
lexed_comment [] s toks pend h = refl
lexed_comment (c ∷ note) s toks pend h =
    let t = note ++ b'\n' ∷ s in
    lexed_step c t toks pend (state (b'\n' ∷ s) toks pend)
      (omega (arith, length-append note (b'\n' ∷ s)))
      (unfold lex_byte in
        if_false (c == b' ' || (c == b'\t' || c == b'\r')) _ _ (ground (arith, h.0))
        ∙ if_false (c == b'\\' && (peek t == b'\n')) _ _ (ground (arith, h.0))
        ∙ if_true (c == b'#') _ _ h.0
        ∙ ap (λ x. some (go_on (state x toks pend)))
            (ap (λ (x : Bytes × Bytes). x.1) (up_to-append b'\n' note s refl h.1)))

abbrev operator : Bool → Tok
operator dash = tok (if dash then t_dlessdash else t_dless) none

-- Behind the operator there is no `-` where it has none.
lexed-operator :
    (dash : Bool) (blanks note s : Bytes) (ts : List Tok)
    → AreBlanks blanks
    → IsComment note
    → let rest = blanks ++ (note ++ b'\n' ∷ s) in
      lexed (state ((if dash then codes "<<-" else codes "<<") ++ rest) ts [])
      ≡ lexed (state rest (ts ++ operator dash ∷ []) ((length ts, dash) ∷ []))
lexed-operator true blanks note s ts h k =
    let rest = blanks ++ (note ++ b'\n' ∷ s) in
    lexed_step b'<' (b'<' ∷ b'-' ∷ rest) ts []
      (state rest (ts ++ operator true ∷ []) ((length ts, true) ∷ [])) (omega arith)
      (unfold lex_byte in refl)
lexed-operator false (c ∷ blanks) note s ts h k =
    let e : (c == b' ' || (c == b'\t' || c == b'\r')) ≡ true = unfold AreBlanks in h.0 in
    lexed_less_less c (blanks ++ (note ++ b'\n' ∷ s)) ts (ground (arith, e))
lexed-operator false [] (c ∷ note) s ts h k =
    let e : (c == b'#') ≡ true = unfold IsComment in k.0 in
    lexed_less_less c (note ++ b'\n' ∷ s) ts (ground (arith, e))
lexed-operator false [] [] s ts h k = lexed_less_less b'\n' s ts refl

-- At the end of the line the token behind the operator is the end, which has no text.
lexed_no_text :
    (dash : Bool) (s : Bytes) (ts : List Tok)
    → lexed (state (b'\n' ∷ s) (ts ++ operator dash ∷ []) ((length ts, dash) ∷ [])) ≡ some crashed
lexed_no_text dash s ts =
    let pend : List (ℕ × Bool) = (length ts, dash) ∷ [] in
    let ends : Tok = tok t_newline none in
    let toks = ts ++ operator dash ∷ ends ∷ [] in
    let round : Option Bytes → Option Round = λ o. elim o [
      | none ↦ some null_text
      | some text ↦
          then_bodies (heredocs [])
            (with_body (length ts) dash (heredoc_delim text) (state s toks pend))
    ] in
    lexed_crash b'\n' s (ts ++ operator dash ∷ []) pend (
      unfold lex_byte heredocs in
      ap (λ x. heredocs pend (state s x pend)) (append_assoc ts (operator dash ∷ []) (ends ∷ []))
      ∙ ap (λ o. round (text_in o)) (get_elem?-behind ts (operator dash) ends []))

-- Behind any words of letters, each with a blank behind it, a `<<` or `<<-` with nothing behind it on
-- its line but blanks and a comment makes the lexer read a delimiter through a pointer that is NULL,
-- whatever the lines behind it are.
pub sh_lex_no_delimiter :
    (ws : List Bytes) (dash : Bool) (blanks note s : Bytes)
    → AreWords ws
    → AreBlanks blanks
    → IsComment note
    → sh_lex (
        spaced ws
        ++ ((if dash then codes "<<-" else codes "<<") ++ (blanks ++ (note ++ b'\n' ∷ s))))
      ≡ some crashed
sh_lex_no_delimiter ws dash blanks note s hw h k =
    let ts = map word_tok ws in
    let toks = ts ++ operator dash ∷ [] in
    let pend : List (ℕ × Bool) = (length ts, dash) ∷ [] in
    let rest = blanks ++ (note ++ b'\n' ∷ s) in
    let script = (if dash then codes "<<-" else codes "<<") ++ rest in
    let start : sh_lex (spaced ws ++ script) ≡ lexed (state (spaced ws ++ script) [] []) =
      unfold sh_lex lexed in refl in
    start
    ∙ lexed-spaced ws script [] [] hw
    ∙ lexed-operator dash blanks note s ts h k
    ∙ lexed_blanks blanks (note ++ b'\n' ∷ s) toks pend h
    ∙ lexed_comment note s toks pend k
    ∙ lexed_no_text dash s ts
