-- ===== src/Shell/Parse/Ends.antt =====
-- The parser of src/components/breezybox/shell/sh_parse.c comes to an end on any tokens.
use breezybox.Prelude.{ℕ, zero, suc, ◌+◌, ◌*◌, ◌≤◌, ◌<◌, length, List, arith}
use breezybox.Shell.Lex.Token.{Tok, t_eof}
use breezybox.Shell.Parse.Node.{Node, no_nodes, Parsed}
use breezybox.Shell.Parse.Cursor.{at_type, skip_seps}
use breezybox.Shell.Parse.Grammar.{
  Task, a_list, an_and_or, a_pipeline, a_command, list_loop, and_or_loop, pipe_loop, if_loop,
  case_loop, grammar, parse_task, sh_parse,
}
use breezybox.Shell.Parse.Consumed.{
  skip_seps-le, Fine, parsed-Fine, error-Fine, if-Fine, and_then-Fine,
}
use breezybox.Shell.Parse.Commands.{if_from-Fine, case_from-Fine, parse_command-Fine}
use breezybox.Shell.Parse.Lists.{
  list_from-Fine, and_or_from-Fine, pipe_from-Fine, parse_pipeline-Fine,
}

-- Where a task stands among those that it calls on the same tokens.
abbrev weight : Task → ℕ
weight a_list = 4
weight an_and_or = 3
weight a_pipeline = 2
weight a_command = 1
weight (list_loop nodes) = 4
weight (and_or_loop left) = 1
weight (pipe_loop negated nodes) = 1
weight (if_loop cls) = 5
weight (case_loop word cases) = 1

weight-le : (task : Task) → weight task ≤ 5
weight-le a_list = omega arith
weight-le an_and_or = omega arith
weight-le a_pipeline = omega arith
weight-le a_command = omega arith
weight-le (list_loop nodes) = omega arith
weight-le (and_or_loop left) = omega arith
weight-le (pipe_loop negated nodes) = omega arith
weight-le (if_loop cls) = omega arith
weight-le (case_loop word cases) = omega arith

module _ (f : ℕ) (k : Task → List Tok → Parsed Node)
    (within : (task : Task) (r : List Tok)
      → length r * 6 + weight task < f
      → Fine (length r) (k task r)) where
  fewer :
      (s : List Tok)
      → length s * 6 ≤ f
      → (task : Task) (r : List Tok) → suc (length r) ≤ length s
      → Fine (length r) (k task r)
  fewer s h task r l = within task r (omega (arith, h, l, weight-le task))

  grammar-Fine :
      (task : Task) (s : List Tok)
      → length s * 6 + weight task ≤ f
      → Fine (length s) (grammar k task s)
  unfolding grammar
  grammar-Fine a_list s h =
      let t = skip_seps s in
      list_from-Fine (length s) k (fewer s (omega (arith, h))) no_nodes t
        (within an_and_or t (omega (arith, h, skip_seps-le s))) (skip_seps-le s)
  grammar-Fine an_and_or s h =
      and_then-Fine (length s) (length s) (k a_pipeline s) _
        (within a_pipeline s (omega (arith, h)))
        (λ left r l. and_or_from-Fine (length s) k (fewer s (omega (arith, h))) left r l)
  grammar-Fine a_pipeline s h =
      parse_pipeline-Fine (length s) k (fewer s (omega (arith, h))) s
        (λ r l. within a_command r (omega (arith, h, l)))
        (λ negated nodes r l. within (pipe_loop negated nodes) r (omega (arith, h, l)))
        (omega arith)
  grammar-Fine a_command s h =
      parse_command-Fine (length s) k (fewer s (omega (arith, h))) s (omega arith)
  grammar-Fine (list_loop nodes) s h =
      list_from-Fine (length s) k (fewer s (omega (arith, h))) nodes s
        (within an_and_or s (omega (arith, h))) (omega arith)
  grammar-Fine (and_or_loop left) s h =
      and_or_from-Fine (length s) k (fewer s (omega (arith, h))) left s (omega arith)
  grammar-Fine (pipe_loop negated nodes) s h =
      pipe_from-Fine (length s) k (fewer s (omega (arith, h))) negated nodes s (omega arith)
  grammar-Fine (if_loop cls) s h =
      if_from-Fine (length s) k (fewer s (omega (arith, h))) cls s
        (within a_list s (omega (arith, h))) (omega arith)
  grammar-Fine (case_loop word cases) s h =
      case_from-Fine (length s) k (fewer s (omega (arith, h))) word cases s (omega arith)

parse_task-Fine :
    (f : ℕ) (task : Task) (s : List Tok)
    → length s * 6 + weight task < f
    → Fine (length s) (parse_task f task s)
unfolding parse_task
parse_task-Fine zero task s h = absurd (omega (arith, h))
parse_task-Fine (suc f) task s h =
    grammar-Fine f (parse_task f) (λ task r l. parse_task-Fine f task r l) task s (omega (arith, h))

-- The parser ends on any list of tokens, with a tree or with an error: calls and rounds nested as
-- deep as six times the number of tokens and five are enough.
pub sh_parse_ends : (s : List Tok) (f : ℕ) → length s * 6 + 4 < f → Fine (length s) (sh_parse f s)
unfolding sh_parse
sh_parse_ends s f h =
    and_then-Fine (length s) (length s) (parse_task f a_list s) _ (parse_task-Fine f a_list s h)
      (λ tree r l.
        if-Fine (length s) (at_type t_eof r) _ _ (λ e. parsed-Fine (length s) tree r l)
          (λ e. error-Fine _ (length s) _))
