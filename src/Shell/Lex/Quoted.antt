-- ===== src/Shell/Lex/Quoted.antt =====
-- What src/components/breezybox/shell/sh_lex.c makes of words in single quotes.
use breezybox.Prelude.{
  ℕ, zero, suc, ◌<◌, ◌≡◌, refl, ap, ◌∙◌, true, false, ◌==◌, if_false, Bytes, length, length-append,
  append_assoc, append-nil, map, none, some, List, [], ◌∷◌, ◌++◌, arith,
}
use breezybox.Shell.Lex.Quote.{copy, up_to}
use breezybox.Shell.Lex.Word.{word, put, put_single, plain, plain_byte, word_loop, scan_word}
use breezybox.Shell.Lex.Token.{
  Tok, tok, t_word, t_eof, Lexer, push_word, then_on, lex_byte, tokens, lex_loop, sh_lex,
}

-- A byte that a text does not have.
unfoldable pub Lacks : ℕ → Bytes → Type 0
Lacks q [] = Unit
Lacks q (c ∷ s) = ((c == q) ≡ false) × Lacks q s

pub up_to-append :
    (q : ℕ) (w s : Bytes) → (q == q) ≡ true → Lacks q w → up_to q (w ++ q ∷ s) ≡ (w, q ∷ s)
unfolding up_to Lacks
up_to-append q [] s e h = rw e refl
up_to-append q (c ∷ w) s e h =
    if_false (c == q) _ _ h.0 ∙ ap (copy (c ∷ [])) (up_to-append q w s e h.1)

-- in single quotes
abbrev pub in_quotes : Bytes → Bytes
in_quotes w = b'\'' ∷ w ++ b'\'' ∷ []

-- Words in single quotes, each with a blank behind it.
unfoldable pub quoted_line : List Bytes → Bytes
quoted_line [] = []
quoted_line (w ∷ ws) = b'\'' ∷ w ++ b'\'' ∷ b' ' ∷ quoted_line ws

unfoldable pub AllLack : ℕ → List Bytes → Type 0
AllLack q [] = Unit
AllLack q (w ∷ ws) = Lacks q w × AllLack q ws

word_loop_blank :
    (f : ℕ) (s : Bytes) → 0 < f → word_loop f plain (b' ' ∷ s) ≡ some (word [] (b' ' ∷ s))
unfolding word_loop
word_loop_blank zero s h = absurd (omega (arith, h))
word_loop_blank (suc f) s h = refl

scan_word_quoted :
    (w s : Bytes)
    → Lacks b'\'' w
    → scan_word (b'\'' ∷ w ++ b'\'' ∷ b' ' ∷ s) ≡ some (word (in_quotes w) (b' ' ∷ s))
unfolding scan_word word_loop plain_byte
scan_word_quoted w s h =
    let t = w ++ b'\'' ∷ b' ' ∷ s in
    ap (λ x. put_single x (word_loop (suc (length t)) plain))
      (up_to-append b'\'' w (b' ' ∷ s) refl h)
    ∙ ap (put (in_quotes w)) (word_loop_blank (suc (length t)) s (omega arith))
    ∙ ap (λ x. some (word (b'\'' ∷ x) (b' ' ∷ s))) (append-nil (w ++ b'\'' ∷ []))

abbrev pub quoted_tok : Bytes → Tok
quoted_tok w = tok t_word (some (in_quotes w))

lex_loop_quoted :
    (ws : List Bytes) (f : ℕ) (toks : List Tok)
    → length (quoted_line ws) < f
    → AllLack b'\'' ws
    → lex_loop f (record { rest = quoted_line ws; toks = toks; pend = [] })
      ≡ some (tokens (toks ++ (map quoted_tok ws ++ tok t_eof none ∷ [])))
unfolding lex_loop lex_byte quoted_line AllLack
lex_loop_quoted ws zero toks h k = absurd (omega (arith, h))
lex_loop_quoted [] (suc f) toks h k = refl
lex_loop_quoted (w ∷ ws) (suc zero) toks h k = absurd (omega (arith, h))
lex_loop_quoted (w ∷ ws) (suc (suc f)) toks h k =
    let l : Lexer = record { rest = quoted_line (w ∷ ws); toks = toks; pend = [] } in
    ap (λ x. then_on (lex_loop (suc f)) (push_word x l)) (scan_word_quoted w (quoted_line ws) k.0)
    ∙ lex_loop_quoted ws f (toks ++ quoted_tok w ∷ [])
        (omega (arith, h, length-append w (b'\'' ∷ b' ' ∷ quoted_line ws))) k.1
    ∙ ap (λ x. some (tokens x))
        (append_assoc toks (quoted_tok w ∷ []) (map quoted_tok ws ++ tok t_eof none ∷ []))

-- Any texts without a single quote in them, each put in single quotes and followed by a blank, are
-- lexed as that many words, each with the quotes and the text that it was given.
pub sh_lex-quoted_line :
    (ws : List Bytes)
    → AllLack b'\'' ws
    → sh_lex (quoted_line ws) ≡ some (tokens (map quoted_tok ws ++ tok t_eof none ∷ []))
unfolding sh_lex
sh_lex-quoted_line ws h = lex_loop_quoted ws (suc (length (quoted_line ws))) [] (omega arith) h
