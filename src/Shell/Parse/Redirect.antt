-- ===== src/Shell/Parse/Redirect.antt =====
-- The redirections in src/components/breezybox/shell/sh_parse.c.
use breezybox.Prelude.{
  ℕ, zero, suc, Bool, true, false, ◌||◌, ltb, if◌then◌else◌, Bytes, codes, str_eq, is_digit, digits,
  int_max, length, Option, none, some, List, [], ◌∷◌,
}
use breezybox.Shell.Lex.Token.{
  Tok, TokType, t_word, t_lt, t_gt, t_gtgt, t_gtamp, t_ltamp, t_clobber, t_dless, t_dlessdash,
}
use breezybox.Shell.Parse.Node.{
  RedirKind, r_in, r_out, r_append, r_heredoc, r_dup, r_close, Redir, Node, with_redirs, Parsed,
  parsed, parse_error, no_fuel, and_then,
}
use breezybox.Shell.Parse.Cursor.{is_type, cur, curt, at_type, adv, text_of}

abbrev pub is_heredoc : TokType → Bool
is_heredoc t = is_type t t_dless || is_type t t_dlessdash

abbrev pub is_dup : TokType → Bool
is_dup t = is_type t t_gtamp || is_type t t_ltamp

abbrev pub is_redir_tok : TokType → Bool
is_redir_tok t =
    is_type t t_lt
    || (is_type t t_gt || (is_type t t_gtgt || (is_dup t || (is_type t t_clobber || is_heredoc t))))

abbrev pub default_fd : TokType → ℕ
default_fd t = if is_type t t_lt || (is_type t t_ltamp || is_heredoc t) then 0 else 1

abbrev pub source_fd : Tok → ℕ
source_fd t = elim t.rfd [ none ↦ default_fd t.type | some fd ↦ fd ]

-- The loop of all_digits.
unfoldable pub only_digits : Bytes → Bool
only_digits [] = true
only_digits (c ∷ s) = let more = only_digits s in if is_digit c then more else false

abbrev pub all_digits : Bytes → Bool
all_digits [] = false
all_digits (c ∷ s) = only_digits (c ∷ s)

-- strtol, which keeps to what a long of 32 bits holds
abbrev pub number_of : Bytes → ℕ
number_of s = let (n, rest) = digits 0 s in if ltb int_max n then int_max else n

abbrev pub redir : RedirKind → ℕ → Option Bytes → Redir
redir kind fd word = record { kind = kind; fd = fd; dupfd = 0; word = word; heredoc_quoted = false }

abbrev pub dup_target : TokType → ℕ → Bytes → Redir
dup_target t fd target =
    if all_digits target
    then record {
      kind = r_dup;
      fd = fd;
      dupfd = number_of target;
      word = none;
      heredoc_quoted = false;
    }
    else if str_eq target (codes "-")
    then redir r_close fd none
    else redir (if is_type t t_gtamp then r_out else r_in) fd (some target)

abbrev pub file_kind : TokType → RedirKind
file_kind t = if is_type t t_lt then r_in else if is_type t t_gtgt then r_append else r_out

abbrev pub body_of : Tok → Bytes
body_of t = elim t.text [ none ↦ [] | some text ↦ text ]

-- The redirection of an operator, by the word behind it.
abbrev pub redir_of : Tok → Bytes → Redir
redir_of t target =
    if is_heredoc t.type
    then record {
      kind = r_heredoc;
      fd = 0;
      dupfd = 0;
      word = some (body_of t);
      heredoc_quoted = t.hd_quoted;
    }
    else if is_dup t.type
    then dup_target t.type (source_fd t) target
    else redir (file_kind t.type) (source_fd t) (some target)

abbrev pub expected : TokType → Bytes
expected t =
    if is_heredoc t
    then codes "expected here-doc delimiter"
    else if is_dup t
    then codes "expected fd or filename after >&"
    else codes "expected filename after redirection"

unfoldable pub parse_redir : List Tok → Parsed Redir
unfolding only_digits
parse_redir s =
    let r = adv s in
    if at_type t_word r
    then parsed (redir_of (cur s) (text_of r)) (adv r)
    else parse_error (expected (curt s))

-- The redirections behind a compound command.
unfoldable pub redir_list_loop : ℕ → Node → List Tok → Parsed Node
unfolding parse_redir
redir_list_loop zero n s = no_fuel
redir_list_loop (suc f) n s =
    let more =
      and_then (parse_redir s) (λ r rest. redir_list_loop f (with_redirs (r ∷ []) n) rest) in
    if is_redir_tok (curt s) then more else parsed n s

unfoldable pub parse_redir_list : Node → List Tok → Parsed Node
unfolding redir_list_loop
parse_redir_list n s = redir_list_loop (suc (length s)) n s
