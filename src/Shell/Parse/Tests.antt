-- ===== src/Shell/Parse/Tests.antt =====
-- Runs of src/components/breezybox/shell/sh_parse.c on the tokens that sh_lex gives.
use breezybox.Prelude.{
  ◌≡◌, refl, arith, false, Bytes, codes, Option, none, some, List, [], ◌∷◌, digits, str_eq,
}
use breezybox.Shell.Lex.Quote.{up_to, scan_cmdsub, scan_backtick, scan_braceparam}
use breezybox.Shell.Lex.Word.{plain_byte, double_byte, word_loop, scan_word}
use breezybox.Shell.Lex.Token.{
  Tok, tok, t_word, t_semi, t_eof, heredocs, lex_byte, lex_loop, sh_lex, Lexed, tokens, t_ampamp,
}
use breezybox.Shell.Parse.Node.{
  Node, node, new_node, list_of, and_or, pipe, simple, if_else, funcdef, group, no_nodes,
  push_child, no_clauses, push_clause, Parsed, parsed, parse_error, r_out, r_dup,
}
use breezybox.Shell.Parse.Consumed.{Fine}
use breezybox.Shell.Parse.Ends.{sh_parse_ends}
use breezybox.Shell.Parse.Cursor.{skip_seps, skip_newlines, is_one_of, is_reserved}
use breezybox.Shell.Parse.Redirect.{
  redir, only_digits, parse_redir, redir_list_loop, parse_redir_list,
}
use breezybox.Shell.Parse.Simple.{
  assign_rest, looks_like_assign, simple_loop, parse_simple, all_in_ident, for_words_loop,
  for_words, patterns_loop, patterns,
}
use breezybox.Shell.Parse.Grammar.{negations, grammar, parse_task, sh_parse}

abbrev tokens_of : Option Lexed → List Tok
tokens_of (some (tokens toks)) = toks
tokens_of _ = []

-- The tree of a script, or the message.
abbrev tree_of : Parsed Node → Option Node
tree_of (parsed n s) = some n
tree_of _ = none

abbrev message_of : Parsed Node → Bytes
message_of (parse_error m) = m
message_of _ = []

abbrev command : List Bytes → Node
command words = new_node (simple [] words)

abbrev one : Node → Node
one n = new_node (list_of (push_child no_nodes n))

parse_line :
    tree_of (sh_parse 40 (tokens_of (sh_lex (codes "x=1 a 2>&1 | b && c"))))
    ≡ some (
        one (
          new_node (
            and_or t_ampamp
              (new_node (
                pipe (
                  push_child
                    (push_child no_nodes (
                      node false
                        (record {
                          kind = r_dup;
                          fd = 2;
                          dupfd = 1;
                          word = none;
                          heredoc_quoted = false;
                        }
                          ∷ [])
                        (simple (codes "x=1" ∷ []) (codes "a" ∷ []))))
                    (command (codes "b" ∷ [])))))
              (command (codes "c" ∷ [])))))
unfolding sh_lex lex_loop lex_byte scan_word word_loop plain_byte double_byte digits heredocs up_to
    scan_cmdsub scan_backtick scan_braceparam sh_parse parse_task grammar negations patterns
    for_words parse_simple simple_loop looks_like_assign assign_rest parse_redir_list
    redir_list_loop parse_redir only_digits skip_seps skip_newlines is_reserved is_one_of str_eq
    all_in_ident for_words_loop patterns_loop
parse_line = refl

parse_if :
    tree_of (sh_parse 40 (tokens_of (sh_lex (codes "if a; then b; else c; fi"))))
    ≡ some (
        one (
          new_node (
            if_else
              (push_clause no_clauses
                (one (command (codes "a" ∷ [])))
                (one (command (codes "b" ∷ []))))
              (one (command (codes "c" ∷ []))))))
unfolding sh_lex lex_loop lex_byte scan_word word_loop plain_byte double_byte digits heredocs up_to
    scan_cmdsub scan_backtick scan_braceparam sh_parse parse_task grammar negations patterns
    for_words parse_simple simple_loop looks_like_assign assign_rest parse_redir_list
    redir_list_loop parse_redir only_digits skip_seps skip_newlines is_reserved is_one_of str_eq
    all_in_ident for_words_loop patterns_loop
parse_if = refl

parse_function :
    tree_of (sh_parse 40 (tokens_of (sh_lex (codes "f() { d >o; }"))))
    ≡ some (
        one (
          new_node (
            funcdef (codes "f") (
              new_node (
                group false (
                  one (
                    node false
                      (redir r_out 1 (some (codes "o")) ∷ [])
                      (simple [] (codes "d" ∷ [])))))))))
unfolding sh_lex lex_loop lex_byte scan_word word_loop plain_byte double_byte digits heredocs up_to
    scan_cmdsub scan_backtick scan_braceparam sh_parse parse_task grammar negations patterns
    for_words parse_simple simple_loop looks_like_assign assign_rest parse_redir_list
    redir_list_loop parse_redir only_digits skip_seps skip_newlines is_reserved is_one_of str_eq
    all_in_ident for_words_loop patterns_loop
parse_function = refl

parse_empty_then :
    message_of (sh_parse 40 (tokens_of (sh_lex (codes "if a; then fi")))) ≡ codes "empty then body"
unfolding sh_lex lex_loop lex_byte scan_word word_loop plain_byte double_byte digits heredocs up_to
    scan_cmdsub scan_backtick scan_braceparam sh_parse parse_task grammar negations patterns
    for_words parse_simple simple_loop looks_like_assign assign_rest parse_redir_list
    redir_list_loop parse_redir only_digits skip_seps skip_newlines is_reserved is_one_of str_eq
    all_in_ident for_words_loop patterns_loop
parse_empty_then = refl

abbrev a_semi_b : List Tok
a_semi_b =
    tok t_word (some (codes "a"))
    ∷ tok t_semi none
    ∷ tok t_word (some (codes "b"))
    ∷ tok t_eof none
    ∷ []

sh_parse_ends_example : Fine 4 (sh_parse 29 a_semi_b)
sh_parse_ends_example = sh_parse_ends a_semi_b 29 (omega arith)
