-- ===== src/Shell/Lex/Steps.antt =====
-- The rounds of sh_lex in src/components/breezybox/shell/sh_lex.c one by one, and what they make of
-- words of letters between blanks.
use breezybox.Prelude.{
  ℕ, zero, suc, ◌≤◌, ◌<◌, ◌≡◌, refl, sym, ap, ◌∙◌, Bool, true, false, ◌==◌, ◌||◌, if_true,
  is_letter, Bytes, length, length-append, append_assoc, append-nil, map, Option, none, some, List,
  [], ◌∷◌, ◌++◌, arith,
}
use breezybox.Shell.Lex.Word.{ends_word}
use breezybox.Shell.Lex.Token.{
  Tok, tok, t_word, t_eof, Lexer, push_word, Round, go_on, lex_error, null_text, lex_byte, Lexed,
  tokens, crashed, then_on, lex_at, lex_loop,
}
use breezybox.Shell.Lex.Ends.{Ends, lex_byte-Ends}
use breezybox.Shell.Lex.Letters.{Letters, lex_byte_letter, scan_word-Letters}

-- More rounds than there are bytes left change nothing.
then_on-same :
    (n : ℕ) (f g : Lexer → Option Lexed) (o : Option Round)
    → Ends n o
    → ((l : Lexer) → length l.rest ≤ n → f l ≡ g l)
    → then_on f o ≡ then_on g o
unfolding Ends
then_on-same n f g none h k = refl
then_on-same n f g (some (go_on l)) h k = k l h
then_on-same n f g (some lex_error) h k = refl
then_on-same n f g (some null_text) h k = refl

lex_loop-same :
    (f g : ℕ) (l : Lexer) → length l.rest < f → length l.rest < g → lex_loop f l ≡ lex_loop g l
unfolding lex_loop
lex_loop-same zero g l h k = absurd (omega (arith, h))
lex_loop-same (suc f) zero l h k = absurd (omega (arith, k))
lex_loop-same (suc f) (suc g) l h k = go l.rest refl (λ l' m n. lex_loop-same f g l' m n)
  where
    go :
        (s : Bytes)
        → l.rest ≡ s
        → ((l' : Lexer) → length l'.rest < f → length l'.rest < g → lex_loop f l' ≡ lex_loop g l')
        → lex_at (lex_loop f) l s ≡ lex_at (lex_loop g) l s
    go [] e m = refl
    go (c ∷ s) e m =
        then_on-same (length s) (lex_loop f) (lex_loop g) (lex_byte c s l) (lex_byte-Ends c s l)
          (λ l' n. m l' (omega (arith, h, ap length e, n)) (omega (arith, k, ap length e, n)))

-- A state of the lexer, and what the lexer makes of it.
abbrev pub state : Bytes → List Tok → List (ℕ × Bool) → Lexer
state s toks pend = record { rest = s; toks = toks; pend = pend }

unfoldable pub lexed : Lexer → Option Lexed
unfolding lex_loop
lexed l = lex_loop (suc (length l.rest)) l

pub lexed_end :
    (toks : List Tok) (pend : List (ℕ × Bool))
    → lexed (state [] toks pend) ≡ some (tokens (toks ++ tok t_eof none ∷ []))
unfolding lexed lex_loop
lexed_end toks pend = refl

pub lexed_step :
    (c : ℕ) (s : Bytes) (toks : List Tok) (pend : List (ℕ × Bool)) (l : Lexer)
    → length l.rest ≤ length s
    → lex_byte c s (state (c ∷ s) toks pend) ≡ some (go_on l)
    → lexed (state (c ∷ s) toks pend) ≡ lexed l
unfolding lexed lex_loop
lexed_step c s toks pend l h e =
    ap (then_on (lex_loop (suc (length s)))) e
    ∙ lex_loop-same (suc (length s)) (suc (length l.rest)) l (omega (arith, h)) (omega arith)

pub lexed_crash :
    (c : ℕ) (s : Bytes) (toks : List Tok) (pend : List (ℕ × Bool))
    → lex_byte c s (state (c ∷ s) toks pend) ≡ some null_text
    → lexed (state (c ∷ s) toks pend) ≡ some crashed
unfolding lexed lex_loop
lexed_crash c s toks pend e = ap (then_on (lex_loop (suc (length s)))) e

-- A blank is dropped.
pub lexed_blank :
    (c : ℕ) (s : Bytes) (toks : List Tok) (pend : List (ℕ × Bool))
    → (c == b' ' || (c == b'\t' || c == b'\r')) ≡ true
    → lexed (state (c ∷ s) toks pend) ≡ lexed (state s toks pend)
lexed_blank c s toks pend h =
    lexed_step c s toks pend (state s toks pend) (omega arith)
      (unfold lex_byte in if_true (c == b' ' || (c == b'\t' || c == b'\r')) _ _ h)

-- A word of letters is not empty.
unfoldable pub IsWord : Bytes → Type 0
IsWord [] = false ≡ true
IsWord (c ∷ s) = Letters (c ∷ s)

unfoldable pub AreWords : List Bytes → Type 0
AreWords [] = Unit
AreWords (w ∷ ws) = IsWord w × AreWords ws

abbrev pub word_tok : Bytes → Tok
word_tok w = tok t_word (some w)

-- A word of letters becomes a token in front of a byte that ends a word.
pub lexed_word :
    (w : Bytes) (c : ℕ) (s : Bytes) (toks : List Tok) (pend : List (ℕ × Bool))
    → IsWord w
    → ends_word c ≡ true
    → lexed (state (w ++ c ∷ s) toks pend) ≡ lexed (state (c ∷ s) (toks ++ word_tok w ∷ []) pend)
unfolding IsWord
lexed_word [] c s toks pend h e = absurd (cc h)
lexed_word (d ∷ w) c s toks pend h e =
    let l = state (d ∷ w ++ c ∷ s) toks pend in
    let letter : is_letter d ≡ true = unfold Letters in h.0 in
    lexed_step d (w ++ c ∷ s) toks pend (state (c ∷ s) (toks ++ word_tok (d ∷ w) ∷ []) pend)
      (omega (arith, length-append w (c ∷ s)))
      (lex_byte_letter d (w ++ c ∷ s) l letter
        ∙ ap (λ x. push_word x l) (scan_word-Letters (d ∷ w) c s e h))

-- Words, each with a blank behind it.
unfoldable pub spaced : List Bytes → Bytes
spaced [] = []
spaced (w ∷ ws) = w ++ b' ' ∷ spaced ws

pub lexed-spaced :
    (ws : List Bytes) (s : Bytes) (toks : List Tok) (pend : List (ℕ × Bool))
    → AreWords ws
    → lexed (state (spaced ws ++ s) toks pend) ≡ lexed (state s (toks ++ map word_tok ws) pend)
unfolding spaced AreWords
lexed-spaced [] s toks pend h = ap (λ x. lexed (state s x pend)) (sym (append-nil toks))
lexed-spaced (w ∷ ws) s toks pend h =
    ap (λ x. lexed (state x toks pend)) (append_assoc w (b' ' ∷ spaced ws) s)
    ∙ lexed_word w b' ' (spaced ws ++ s) toks pend h.0 refl
    ∙ lexed_blank b' ' (spaced ws ++ s) (toks ++ word_tok w ∷ []) pend refl
    ∙ lexed-spaced ws s (toks ++ word_tok w ∷ []) pend h.1
    ∙ ap (λ x. lexed (state s x pend)) (append_assoc toks (word_tok w ∷ []) (map word_tok ws))

-- Words, each with a blank in front of it.
unfoldable pub led : List Bytes → Bytes
led [] = []
led (w ∷ ws) = b' ' ∷ w ++ led ws

-- A word in front of such words and the end of the line.
pub lexed_in_front :
    (w : Bytes) (ws : List Bytes) (s : Bytes) (toks : List Tok) (pend : List (ℕ × Bool))
    → IsWord w
    → lexed (state (w ++ (led ws ++ b'\n' ∷ s)) toks pend)
      ≡ lexed (state (led ws ++ b'\n' ∷ s) (toks ++ word_tok w ∷ []) pend)
unfolding led
lexed_in_front w [] s toks pend h = lexed_word w b'\n' s toks pend h refl
lexed_in_front w (v ∷ ws) s toks pend h =
    lexed_word w b' ' ((v ++ led ws) ++ b'\n' ∷ s) toks pend h refl

pub lexed-led :
    (ws : List Bytes) (s : Bytes) (toks : List Tok) (pend : List (ℕ × Bool))
    → AreWords ws
    → lexed (state (led ws ++ b'\n' ∷ s) toks pend)
      ≡ lexed (state (b'\n' ∷ s) (toks ++ map word_tok ws) pend)
unfolding led AreWords
lexed-led [] s toks pend h = ap (λ x. lexed (state (b'\n' ∷ s) x pend)) (sym (append-nil toks))
lexed-led (w ∷ ws) s toks pend h =
    lexed_blank b' ' ((w ++ led ws) ++ b'\n' ∷ s) toks pend refl
    ∙ ap (λ x. lexed (state x toks pend)) (append_assoc w (led ws) (b'\n' ∷ s))
    ∙ lexed_in_front w ws s toks pend h.0
    ∙ lexed-led ws s (toks ++ word_tok w ∷ []) pend h.1
    ∙ ap (λ x. lexed (state (b'\n' ∷ s) x pend))
        (append_assoc toks (word_tok w ∷ []) (map word_tok ws))
