-- ===== src/Shell/Lex/Letters.antt =====
-- What src/components/breezybox/shell/sh_lex.c makes of a word of letters.
use breezybox.Prelude.{
  ℕ, zero, suc, ◌<◌, ◌≡◌, refl, ap, ◌∙◌, true, false, ◌==◌, if_false, if_true, is_letter, is_digit,
  digits, peek, ◌||◌, ◌&&◌, Bytes, length, length-append, some, [], ◌∷◌, ◌++◌, arith,
}
use breezybox.Shell.Lex.Word.{ends_word, word, put, plain, plain_byte, word_loop, scan_word}
use breezybox.Shell.Lex.Token.{Lexer, push_word, lex_byte, delim_loop, with_byte, is_redirect}
use breezybox.Shell.Lex.Quoted.{Lacks}

unfoldable pub Letters : Bytes → Type 0
Letters [] = Unit
Letters (c ∷ s) = (is_letter c ≡ true) × Letters s

pub Letters-lack : (s : Bytes) → Letters s → Lacks b'\n' s
unfolding Letters Lacks
Letters-lack [] h = tt
Letters-lack (c ∷ s) h = (ground (arith, h.0), Letters-lack s h.1)

pub word_loop_letter :
    (f c : ℕ) (s : Bytes)
    → is_letter c ≡ true
    → word_loop (suc f) plain (c ∷ s) ≡ put (c ∷ []) (word_loop f plain s)
unfolding word_loop plain_byte
word_loop_letter f c s h = ground (arith, h)

pub lex_byte_letter :
    (c : ℕ) (s : Bytes) (l : Lexer)
    → is_letter c ≡ true
    → lex_byte c s l ≡ push_word (scan_word (c ∷ s)) l
unfolding lex_byte
lex_byte_letter c s l h =
    if_false (c == b' ' || (c == b'\t' || c == b'\r')) _ _ (ground (arith, h))
    ∙ if_false (c == b'\\' && (peek s == b'\n')) _ _ (ground (arith, h))
    ∙ if_false (c == b'#') _ _ (ground (arith, h))
    ∙ if_false (c == b'\n') _ _ (ground (arith, h))
    ∙ if_false (c == b';') _ _ (ground (arith, h))
    ∙ if_false (c == b'(') _ _ (ground (arith, h))
    ∙ if_false (c == b')') _ _ (ground (arith, h))
    ∙ if_false (c == b'&') _ _ (ground (arith, h))
    ∙ if_false (c == b'|') _ _ (ground (arith, h))
    ∙ if_false (c == b'<' || c == b'>') _ _ (ground (arith, h))
    ∙ if_false (is_digit c && is_redirect (peek (digits 0 (c ∷ s)).1)) _ _ (ground (arith, h))

pub delim_loop_letter :
    (f c : ℕ) (s : Bytes)
    → is_letter c ≡ true
    → delim_loop (suc f) (c ∷ s) ≡ with_byte c (delim_loop f s)
unfolding delim_loop
delim_loop_letter f c s h = ground (arith, h)

-- A text of letters is scanned up to a byte that ends it, and is its own delimiter.
pub word_loop-Letters :
    (w : Bytes) (f c : ℕ) (s : Bytes)
    → length w < f
    → ends_word c ≡ true
    → Letters w
    → word_loop f plain (w ++ c ∷ s) ≡ some (word w (c ∷ s))
unfolding Letters
word_loop-Letters w zero c s h e k = absurd (omega (arith, h))
word_loop-Letters [] (suc f) c s h e k = unfold word_loop in if_true (ends_word c) _ _ e
word_loop-Letters (d ∷ w) (suc f) c s h e k =
    word_loop_letter f d (w ++ c ∷ s) k.0
    ∙ ap (put (d ∷ [])) (word_loop-Letters w f c s (omega (arith, h)) e k.1)

pub scan_word-Letters :
    (w : Bytes) (c : ℕ) (s : Bytes)
    → ends_word c ≡ true
    → Letters w
    → scan_word (w ++ c ∷ s) ≡ some (word w (c ∷ s))
unfolding scan_word
scan_word-Letters w c s e h =
    word_loop-Letters w (suc (length (w ++ c ∷ s))) c s (omega (arith, length-append w (c ∷ s))) e h

pub delim_loop-Letters :
    (w : Bytes) (f : ℕ) → length w < f → Letters w → delim_loop f w ≡ some (w, false)
unfolding Letters
delim_loop-Letters w zero h k = absurd (omega (arith, h))
delim_loop-Letters [] (suc f) h k = unfold delim_loop in refl
delim_loop-Letters (c ∷ w) (suc f) h k =
    delim_loop_letter f c w k.0 ∙ ap (with_byte c) (delim_loop-Letters w f (omega (arith, h)) k.1)
