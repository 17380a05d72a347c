-- ===== src/Shell/Lex/Word.antt =====
-- scan_word of src/components/breezybox/shell/sh_lex.c: a word with its quotes.
use breezybox.Prelude.{
  ℕ, zero, suc, Bool, not, ◌&&◌, ◌||◌, ◌==◌, if◌then◌else◌, Bytes, peek, length, Option, none, some,
  [], ◌∷◌, ◌++◌,
}
use breezybox.Shell.Lex.Quote.{
  Scan, behind, is_empty, up_to, scan_cmdsub, scan_backtick, scan_braceparam,
}

abbrev pub is_op_char : ℕ → Bool
is_op_char c =
    c == b';'
    || (c == b'&' || (c == b'|' || (c == b'<' || (c == b'>' || (c == b'(' || c == b')')))))

abbrev pub ends_word : ℕ → Bool
ends_word c = c == b' ' || (c == b'\t' || (c == b'\n' || is_op_char c))

-- The word and the text behind it, or a quote that is not closed.
pub data Word : Type 0 where
  word : Bytes → Bytes → Word
  unterminated : Word

abbrev pub put : Bytes → Option Word → Option Word
put front none = none
put front (some (word out rest)) = some (word (front ++ out) rest)
put front (some unterminated) = some unterminated

-- What a scanner put, and what follows.
abbrev pub put_scan : Option Scan → (Bytes → Option Word) → Option Word
put_scan none later = none
put_scan (some (out, rest)) later = put out (later rest)

-- behind a single quote
abbrev pub put_single : Scan → (Bytes → Option Word) → Option Word
put_single (out, []) later = some unterminated
put_single (out, q ∷ rest) later = put (b'\'' ∷ out ++ q ∷ []) (later rest)

-- `src[j]`, where it is no NUL
abbrev pub first : Bytes → Bytes
first [] = []
first (c ∷ s) = c ∷ []

-- Outside and inside of double quotes.
pub data Place : Type 0 where
  plain in_double : Place

-- What a byte that does not end the word does outside of double quotes, by what follows.
unfoldable pub plain_byte : (Place → Bytes → Option Word) → ℕ → Bytes → Option Word
unfolding up_to scan_cmdsub scan_backtick scan_braceparam
plain_byte later c s =
    if c == b'\''
    then put_single (up_to b'\'' s) (later plain)
    else if c == b'"'
    then put (c ∷ []) (later in_double s)
    else if c == b'`'
    then put_scan (some (scan_backtick s)) (later plain)
    else if c == b'$' && (peek s == b'(')
    then put_scan (scan_cmdsub (behind s)) (later plain)
    else if c == b'$' && (peek s == b'{')
    then put_scan (scan_braceparam (behind s)) (later plain)
    else if c == b'\\'
    then if peek s == b'\n'
      then later plain (behind s)
      else put (c ∷ first s) (later plain (behind s))
    else put (c ∷ []) (later plain s)

-- The same inside of double quotes.
unfoldable pub double_byte : (Place → Bytes → Option Word) → ℕ → Bytes → Option Word
unfolding scan_cmdsub scan_backtick
double_byte later c s =
    if c == b'"'
    then put (c ∷ []) (later plain s)
    else if c == b'$' && (peek s == b'(')
    then put_scan (scan_cmdsub (behind s)) (later in_double)
    else if c == b'`'
    then put_scan (some (scan_backtick s)) (later in_double)
    else if c == b'\\' && (peek s == b'\n')
    then later in_double (behind s)
    else if c == b'\\' && not (is_empty s)
    then put (c ∷ peek s ∷ []) (later in_double (behind s))
    else put (c ∷ []) (later in_double s)

unfoldable pub word_loop : ℕ → Place → Bytes → Option Word
unfolding plain_byte double_byte
word_loop zero place s = none
word_loop (suc f) plain [] = some (word [] [])
word_loop (suc f) plain (c ∷ s) =
    let more = plain_byte (word_loop f) c s in if ends_word c then some (word [] (c ∷ s)) else more
word_loop (suc f) in_double [] = some unterminated
word_loop (suc f) in_double (c ∷ s) = double_byte (word_loop f) c s

unfoldable pub scan_word : Bytes → Option Word
unfolding word_loop
scan_word s = word_loop (suc (length s)) plain s
