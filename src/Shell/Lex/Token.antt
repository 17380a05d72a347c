-- ===== src/Shell/Lex/Token.antt =====
-- The tokens of src/components/breezybox/shell/sh_lex.c, its here-documents, and sh_lex itself.
use breezybox.Prelude.{
  ℕ, zero, suc, Bool, true, false, not, ◌&&◌, ◌||◌, ltb, ◌==◌, if◌then◌else◌, Bytes, str_eq,
  is_digit, digits, int_max, peek, length, get_elem?, set, Option, none, some, List, [], ◌∷◌, ◌++◌,
}
use breezybox.Shell.Lex.Quote.{behind, is_empty, up_to}
use breezybox.Shell.Lex.Word.{Word, word, unterminated, scan_word}

pub data TokType : Type 0 where
  t_word t_semi t_ampamp t_barbar t_bar t_lt t_gt t_gtgt t_gtamp t_ltamp t_clobber t_dless
        t_dlessdash t_lparen t_rparen t_dsemi t_newline t_eof :
      TokType

-- `sh_tok`; no text is NULL, and no descriptor is -1.
pub record Tok : Type 0 where
  pub type : TokType
  pub text : Option Bytes
  pub hd_quoted : Bool
  pub rfd : Option ℕ

abbrev pub tok : TokType → Option Bytes → Tok
tok type text = record { type = type; text = text; hd_quoted = false; rfd = none }

-- The text that is left, the tokens so far, and the here-documents whose text comes behind the
-- line, each with the index of its token and whether it drops tabs.
pub record Lexer : Type 0 where
  pub rest : Bytes
  pub toks : List Tok
  pub pend : List (ℕ × Bool)

abbrev pub push : Tok → Bytes → Lexer → Lexer
push t rest l = record l { rest = rest; toks = l.toks ++ t ∷ [] }

abbrev pub push_redir : TokType → Option ℕ → ℕ → Bytes → Lexer → Lexer
push_redir type fd default rest l =
    push
      (record {
        type = type;
        text = none;
        hd_quoted = false;
        rfd = some (elim fd [ none ↦ default | some n ↦ n ]);
      })
      rest l

-- The delimiter of a here-document without its quotes, and whether it had any; none is a loop that
-- does not come to an end.
abbrev pub with_byte : ℕ → Option (Bytes × Bool) → Option (Bytes × Bool)
with_byte c none = none
with_byte c (some (delim, quoted)) = some (c ∷ delim, quoted)

abbrev pub with_quoted : Bytes → Option (Bytes × Bool) → Option (Bytes × Bool)
with_quoted out none = none
with_quoted out (some (delim, quoted)) = some (out ++ delim, true)

unfoldable pub delim_loop : ℕ → Bytes → Option (Bytes × Bool)
unfolding up_to
delim_loop zero s = none
delim_loop (suc f) [] = some ([], false)
delim_loop (suc f) (c ∷ s) =
    let quote = up_to c s in
    let behind_quote = with_quoted quote.0 (delim_loop f (behind quote.1)) in
    let escaped = with_quoted (peek s ∷ []) (delim_loop f (behind s)) in
    let other = with_byte c (delim_loop f s) in
    if c == b'\'' || c == b'"'
    then behind_quote
    else if c == b'\\' && not (is_empty s)
    then escaped
    else other

unfoldable pub heredoc_delim : Bytes → Option (Bytes × Bool)
unfolding delim_loop
heredoc_delim text = delim_loop (suc (length text)) text

unfoldable pub skip_tabs : Bytes → Bytes
skip_tabs [] = []
skip_tabs (c ∷ s) = let more = skip_tabs s in if c == b'\t' then more else c ∷ s

-- A line of a here-document: its text, and what is behind it.
unfoldable pub line_of : Bool → Bytes → Bytes × Bytes
unfolding skip_tabs up_to
line_of dash s = up_to b'\n' (if dash then skip_tabs s else s)

-- The text of a here-document, up to the line that is the delimiter or to the end, and what is
-- behind it; none is a loop that does not come to an end.
abbrev pub with_line : Bytes → Option (Bytes × Bytes) → Option (Bytes × Bytes)
with_line line none = none
with_line line (some (text, after)) = some (line ++ b'\n' ∷ text, after)

abbrev pub more_lines : (Bytes → Option (Bytes × Bytes)) → Bytes → Bytes → Option (Bytes × Bytes)
more_lines later line [] = some (line ++ b'\n' ∷ [], [])
more_lines later line (c ∷ rest) = with_line line (later rest)

unfoldable pub heredoc_loop : ℕ → Bytes → Bool → Bytes → Option (Bytes × Bytes)
unfolding line_of
heredoc_loop zero delim dash s = none
heredoc_loop (suc f) delim dash [] = some ([], [])
heredoc_loop (suc f) delim dash (c ∷ s) =
    let line = line_of dash (c ∷ s) in
    let lines = more_lines (heredoc_loop f delim dash) line.0 line.1 in
    if str_eq line.0 delim then some ([], behind line.1) else lines

unfoldable pub collect_heredoc : Bytes → Bool → Bytes → Option (Bytes × Bytes)
unfolding heredoc_loop
collect_heredoc delim dash s = heredoc_loop (suc (length s)) delim dash s

-- How a round of the lexer ends: with a state, at a quote that is not closed, or where the text of
-- the delimiter is read through NULL.
pub data Round : Type 0 where
  go_on : Lexer → Round
  lex_error null_text : Round

abbrev pub set_body : ℕ → Tok → Bytes → Bool → List Tok → List Tok
set_body dt t text quoted toks = set toks dt (record t { text = some text; hd_quoted = quoted })

abbrev pub text_at : List Tok → ℕ → Option Bytes
text_at toks i = elim (get_elem? toks i) [ none ↦ none | some t ↦ t.text ]

abbrev pub tok_at : List Tok → ℕ → Tok
tok_at toks i = elim (get_elem? toks i) [ none ↦ tok t_eof none | some t ↦ t ]

-- The loop over the here-documents of a line, behind its end.
abbrev pub with_text : ℕ → Bool → Option (Bytes × Bytes) → Lexer → Option Lexer
with_text dt quoted none l = none
with_text dt quoted (some (text, rest)) l =
    some (record l { rest = rest; toks = set_body dt (tok_at l.toks dt) text quoted l.toks })

abbrev pub with_body : ℕ → Bool → Option (Bytes × Bool) → Lexer → Option Lexer
with_body dt dash none l = none
with_body dt dash (some (delim, quoted)) l =
    with_text dt quoted (collect_heredoc delim dash l.rest) l

abbrev pub then_bodies : (Lexer → Option Round) → Option Lexer → Option Round
then_bodies later none = none
then_bodies later (some l) = later l

unfoldable pub heredocs : List (ℕ × Bool) → Lexer → Option Round
unfolding heredoc_delim collect_heredoc
heredocs [] l = some (go_on (record l { pend = [] }))
heredocs ((dt, dash) ∷ pend) l = elim (text_at l.toks (suc dt)) [
  | none ↦ some null_text
  | some text ↦ then_bodies (heredocs pend) (with_body dt dash (heredoc_delim text) l)
]

abbrev pub new_line : Bytes → Lexer → Option Round
new_line s l = let l₁ = push (tok t_newline none) s l in heredocs l.pend l₁

-- behind `<<` or `<<-`
abbrev pub here_document : Bool → Bytes → Lexer → Lexer
here_document dash rest l =
    let l₁ = push (tok (if dash then t_dlessdash else t_dless) none) rest l in
    record l₁ {
      pend = if ltb (length l.pend) 8 then l.pend ++ (length l.toks, dash) ∷ [] else l.pend;
    }

-- behind `<`
abbrev pub less_than : Option ℕ → Bytes → Lexer → Lexer
less_than fd s l =
    if peek s == b'<'
    then if peek (behind s) == b'-'
      then here_document true (behind (behind s)) l
      else here_document false (behind s) l
    else if peek s == b'&'
    then push_redir t_ltamp fd 0 (behind s) l
    else push_redir t_lt fd 0 s l

-- behind `>`
abbrev pub greater_than : Option ℕ → Bytes → Lexer → Lexer
greater_than fd s l =
    if peek s == b'>'
    then push_redir t_gtgt fd 1 (behind s) l
    else if peek s == b'&'
    then push_redir t_gtamp fd 1 (behind s) l
    else if peek s == b'|'
    then push_redir t_clobber fd 1 (behind s) l
    else push_redir t_gt fd 1 s l

abbrev pub lex_redir : Option ℕ → ℕ → Bytes → Lexer → Lexer
lex_redir fd c s l = if c == b'<' then less_than fd s l else greater_than fd s l

abbrev pub push_word : Option Word → Lexer → Option Round
push_word none l = none
push_word (some (word text rest)) l = some (go_on (push (tok t_word (some text)) rest l))
push_word (some unterminated) l = some lex_error

-- An operator of one byte, or of that byte twice.
abbrev pub doubled : ℕ → TokType → TokType → Bytes → Lexer → Lexer
doubled c two one s l =
    if peek s == c then push (tok two none) (behind s) l else push (tok one none) s l

abbrev pub is_redirect : ℕ → Bool
is_redirect c = c == b'<' || c == b'>'

-- A descriptor in front of a redirection; strtol keeps to what a long holds.
abbrev pub descriptor : ℕ → Option ℕ
descriptor n = some (if ltb int_max n then int_max else n)

abbrev pub digits_or_word : Bytes → Lexer → Option Round
digits_or_word s l =
    let run = digits 0 s in
    let redirected = some (go_on (lex_redir (descriptor run.0) (peek run.1) (behind run.1) l)) in
    if is_digit (peek s) && is_redirect (peek run.1) then redirected else push_word (scan_word s) l

-- What a round does with the byte that it meets and the text behind.
unfoldable pub lex_byte : ℕ → Bytes → Lexer → Option Round
unfolding heredocs digits scan_word up_to
lex_byte c s l =
    if c == b' ' || (c == b'\t' || c == b'\r')
    then some (go_on (record l { rest = s }))
    else if c == b'\\' && (peek s == b'\n')
    then some (go_on (record l { rest = behind s }))
    else if c == b'#'
    then some (go_on (record l { rest = (up_to b'\n' s).1 }))
    else if c == b'\n'
    then new_line s l
    else if c == b';'
    then some (go_on (doubled b';' t_dsemi t_semi s l))
    else if c == b'('
    then some (go_on (push (tok t_lparen none) s l))
    else if c == b')'
    then some (go_on (push (tok t_rparen none) s l))
    else if c == b'&'
    then some (
        go_on
          (if peek s == b'&' then push (tok t_ampamp none) (behind s) l else record l { rest = s }))
    else if c == b'|'
    then some (go_on (doubled b'|' t_barbar t_bar s l))
    else if c == b'<' || c == b'>'
    then some (go_on (lex_redir none c s l))
    else digits_or_word (c ∷ s) l

pub data Lexed : Type 0 where
  tokens : List Tok → Lexed
  failed crashed : Lexed

abbrev pub then_on : (Lexer → Option Lexed) → Option Round → Option Lexed
then_on later none = none
then_on later (some (go_on l)) = later l
then_on later (some lex_error) = some failed
then_on later (some null_text) = some crashed

abbrev pub lex_at : (Lexer → Option Lexed) → Lexer → Bytes → Option Lexed
lex_at later l [] = some (tokens (l.toks ++ tok t_eof none ∷ []))
lex_at later l (c ∷ s) = then_on later (lex_byte c s l)

unfoldable pub lex_loop : ℕ → Lexer → Option Lexed
unfolding lex_byte
lex_loop zero l = none
lex_loop (suc f) l = lex_at (lex_loop f) l l.rest

abbrev pub begin : Bytes → Lexer
begin src = record { rest = src; toks = []; pend = [] }

-- The tokens of a script.
unfoldable pub sh_lex : Bytes → Option Lexed
unfolding lex_loop
sh_lex src = lex_loop (suc (length src)) (begin src)
