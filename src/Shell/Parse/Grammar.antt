-- ===== src/Shell/Parse/Grammar.antt =====
-- parse_list of src/components/breezybox/shell/sh_parse.c and the functions that it calls, which call
-- each other, as one function with a case for each and for each of their loops.
use breezybox.Prelude.{
  ℕ, zero, suc, Bool, true, false, not, ◌&&◌, ◌||◌, if◌then◌else◌, Bytes, codes, length, List, [],
}
use breezybox.Shell.Lex.Token.{
  Tok, t_word, t_semi, t_ampamp, t_barbar, t_bar, t_lparen, t_rparen, t_dsemi, t_newline, t_eof,
}
use breezybox.Shell.Parse.Node.{
  Node, Shape, list_of, and_or, pipe, if_then, if_else, while_do, for_in, case_of, group, funcdef,
  Nodes, no_nodes, push_child, Clauses, no_clauses, push_clause, Cases, no_cases, push_case, node,
  new_node, with_negated, has_no_child, Parsed, parsed, parse_error, no_fuel, and_then,
}
use breezybox.Shell.Parse.Cursor.{
  curt, at_type, adv, peekt, is_type, skip_seps, skip_newlines, is_word, is_reserved, text_of,
}
use breezybox.Shell.Parse.Redirect.{parse_redir_list}
use breezybox.Shell.Parse.Simple.{parse_simple, is_valid_name, for_words, patterns}

-- What is to be parsed: a function of the code, or one of its loops with what it has so far.
pub data Task : Type 0 where
  a_list an_and_or a_pipeline a_command : Task
  list_loop : Nodes → Task
  and_or_loop : Node → Task
  pipe_loop : Bool → Nodes → Task
  if_loop : Clauses → Task
  case_loop : Bytes → Cases → Task

-- The loop over `!`.
unfoldable pub negations : ℕ → Bool → List Tok → Parsed Bool
unfolding skip_newlines
negations zero negated s = no_fuel
negations (suc f) negated s =
    let more = negations f (not negated) (skip_newlines (adv s)) in
    if is_word (codes "!") s then more else parsed negated s

-- The word that closes a command.
abbrev pub closed_by : Bytes → Bytes → Shape → List Tok → Parsed Node
closed_by kw m shape s = if is_word kw s then parsed (new_node shape) (adv s) else parse_error m

abbrev pub ends_list : List Tok → Bool
ends_list s = at_type t_eof s || (at_type t_rparen s || (at_type t_dsemi s || is_reserved s))

abbrev pub is_simple : List Tok → Bool
is_simple s =
    not (at_type t_lparen s)
    && (not (is_word (codes "{") s)
        && (not (at_type t_word s && (not (is_reserved s) && is_type (peekt s) t_lparen))
            && (not (is_word (codes "if") s)
                && (not (is_word (codes "while") s)
                    && (not (is_word (codes "until") s)
                        && (not (is_word (codes "for") s) && not (is_word (codes "case") s)))))))

module _ (k : Task → List Tok → Parsed Node) where
  abbrev pub list_from : Nodes → List Tok → Parsed Node
  list_from nodes s =
      if ends_list s
      then parsed (new_node (list_of nodes)) s
      else and_then (k an_and_or s) (λ n r.
        if at_type t_semi r || at_type t_newline r
        then k (list_loop (push_child nodes n)) (skip_seps r)
        else parsed (new_node (list_of (push_child nodes n))) r)

  abbrev pub and_or_from : Node → List Tok → Parsed Node
  and_or_from left s =
      if at_type t_ampamp s || at_type t_barbar s
      then and_then (k a_pipeline (skip_newlines (adv s)))
          (λ right r. k (and_or_loop (new_node (and_or (curt s) left right))) r)
      else parsed left s

  abbrev pub pipe_from : Bool → Nodes → List Tok → Parsed Node
  pipe_from negated nodes s =
      if at_type t_bar s
      then and_then (k a_command (skip_newlines (adv s)))
          (λ c r. k (pipe_loop negated (push_child nodes c)) r)
      else parsed (node negated [] (pipe nodes)) s

  abbrev pub parse_pipeline : List Tok → Parsed Node
  parse_pipeline s = and_then (negations (suc (length s)) false s) (λ negated r.
      and_then (k a_command r) (λ first r'.
        if at_type t_bar r'
        then k (pipe_loop negated (push_child no_nodes first)) r'
        else parsed (with_negated negated first) r'))

  -- A list between words that is not empty.
  abbrev pub filled_list : Bytes → List Tok → (Node → List Tok → Parsed Node) → Parsed Node
  filled_list m s later =
      and_then (k a_list s) (λ body r. if has_no_child body then parse_error m else later body r)

  abbrev pub do_done : List Tok → (Node → Shape) → Parsed Node
  do_done s shape =
      if is_word (codes "do") s
      then filled_list (codes "empty do/done body") (adv s)
          (λ body r. closed_by (codes "done") (codes "expected 'done'") (shape body) r)
      else parse_error (codes "expected 'do'")

  abbrev pub for_body : Bytes → List Bytes → Bool → List Tok → Parsed Node
  for_body name words implicit s = do_done (skip_seps s) (for_in name words implicit)

  abbrev pub parse_for : List Tok → Parsed Node
  parse_for s =
      let r = adv s in
      if not (at_type t_word r)
      then parse_error (codes "expected name after for")
      else if not (is_valid_name (text_of r))
      then parse_error (codes "bad for loop variable")
      else let r' = skip_newlines (adv r) in
        if is_word (codes "in") r'
        then and_then (for_words (adv r')) (λ words r''. for_body (text_of r) words false r'')
        else for_body (text_of r) [] true r'

  abbrev pub parse_while : List Tok → Parsed Node
  parse_while s =
      and_then (k a_list (adv s)) (λ cond r. do_done r (while_do (is_word (codes "until") s) cond))

  abbrev pub else_part : Clauses → List Tok → Parsed Node
  else_part clauses s =
      if is_word (codes "else") s
      then filled_list (codes "empty else body") (adv s)
          (λ body r. closed_by (codes "fi") (codes "expected 'fi'") (if_else clauses body) r)
      else closed_by (codes "fi") (codes "expected 'fi'") (if_then clauses) s

  -- behind `if` or `elif`
  abbrev pub if_from : Clauses → List Tok → Parsed Node
  if_from clauses s = and_then (k a_list s) (λ cond r.
      if is_word (codes "then") r
      then filled_list (codes "empty then body") (adv r) (λ body r'.
        if is_word (codes "elif") r'
        then k (if_loop (push_clause clauses cond body)) (adv r')
        else else_part (push_clause clauses cond body) r')
      else parse_error (codes "expected 'then'"))

  abbrev pub esac : Bytes → Cases → List Tok → Parsed Node
  esac word cases s = closed_by (codes "esac") (codes "expected 'esac'") (case_of word cases) s

  abbrev pub case_clause : Bytes → Cases → List Bytes → List Tok → Parsed Node
  case_clause word cases pats s =
      if at_type t_rparen s
      then and_then (k a_list (adv s)) (λ body r.
        if at_type t_dsemi r
        then k (case_loop word (push_case cases pats body)) (skip_seps (adv r))
        else esac word (push_case cases pats body) r)
      else parse_error (codes "expected ')' in case")

  abbrev pub case_from : Bytes → Cases → List Tok → Parsed Node
  case_from word cases s =
      if is_word (codes "esac") s || at_type t_eof s
      then esac word cases s
      else and_then (patterns (if at_type t_lparen s then adv s else s))
          (λ pats r. case_clause word cases pats r)

  abbrev pub parse_case : List Tok → Parsed Node
  parse_case s =
      let r = adv s in
      if not (at_type t_word r)
      then parse_error (codes "expected word after case")
      else if not (is_word (codes "in") (adv r))
      then parse_error (codes "expected 'in' after case word")
      else k (case_loop (text_of r) no_cases) (skip_seps (adv (adv r)))

  abbrev pub parse_group : List Tok → Parsed Node
  parse_group s =
      and_then (k a_list (adv s))
        (λ body r. closed_by (codes "}") (codes "expected '}'") (group false body) r)

  abbrev pub parse_subshell : List Tok → Parsed Node
  parse_subshell s = and_then (k a_list (adv s)) (λ body r.
      if at_type t_rparen r
      then parsed (new_node (group true body)) (adv r)
      else parse_error (codes "expected ')'"))

  abbrev pub parse_funcdef : List Tok → Parsed Node
  parse_funcdef s =
      let r = adv (adv s) in
      if at_type t_rparen r
      then and_then (k a_command (skip_newlines (adv r)))
          (λ body r'. parsed (new_node (funcdef (text_of s) body)) r')
      else parse_error (codes "expected ')' in function definition")

  abbrev pub parse_compound : List Tok → Parsed Node
  parse_compound s =
      if at_type t_lparen s
      then parse_subshell s
      else if is_word (codes "{") s
      then parse_group s
      else if is_word (codes "if") s
      then k (if_loop no_clauses) (adv s)
      else if is_word (codes "while") s || is_word (codes "until") s
      then parse_while s
      else if is_word (codes "for") s
      then parse_for s
      else if is_word (codes "case") s
      then parse_case s
      else parse_funcdef s

  abbrev pub parse_command : List Tok → Parsed Node
  parse_command s =
      if is_simple s
      then parse_simple s
      else and_then (parse_compound s) (λ n r. parse_redir_list n r)

  unfoldable pub grammar : Task → List Tok → Parsed Node
  unfolding skip_seps skip_newlines is_reserved parse_redir_list parse_simple for_words patterns
      negations
  grammar a_list s = list_from no_nodes (skip_seps s)
  grammar an_and_or s = and_then (k a_pipeline s) and_or_from
  grammar a_pipeline s = parse_pipeline s
  grammar a_command s = parse_command s
  grammar (list_loop nodes) s = list_from nodes s
  grammar (and_or_loop left) s = and_or_from left s
  grammar (pipe_loop negated nodes) s = pipe_from negated nodes s
  grammar (if_loop clauses) s = if_from clauses s
  grammar (case_loop word cases) s = case_from word cases s

unfoldable pub parse_task : ℕ → Task → List Tok → Parsed Node
unfolding grammar
parse_task zero task s = no_fuel
parse_task (suc f) task s = grammar (parse_task f) task s

-- The tree of all the tokens.
unfoldable pub sh_parse : ℕ → List Tok → Parsed Node
unfolding parse_task
sh_parse f s =
    and_then (parse_task f a_list s)
      (λ n r. if at_type t_eof r then parsed n r else parse_error (codes "unexpected token"))
