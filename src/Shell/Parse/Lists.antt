-- ===== src/Shell/Parse/Lists.antt =====
-- The lists and pipelines of src/components/breezybox/shell/sh_parse.c end if the calls that they make
-- do.
use breezybox.Prelude.{ℕ, suc, ◌≤◌, Bool, false, ◌||◌, length, List, arith}
use native.Mathlib.Nat.{le_trans}
use breezybox.Shell.Lex.Token.{Tok, t_semi, t_ampamp, t_barbar, t_bar, t_newline}
use breezybox.Shell.Parse.Node.{Node, Nodes, no_nodes, push_child, Parsed}
use breezybox.Shell.Parse.Cursor.{at_type, adv, skip_seps, skip_newlines}
use breezybox.Shell.Parse.Grammar.{
  Task, an_and_or, a_pipeline, a_command, pipe_loop, negations, ends_list, list_from, and_or_from,
  pipe_from, parse_pipeline,
}
use breezybox.Shell.Parse.Consumed.{
  adv-lt, or_cases, skip_seps-lt, skip_newlines-le, Fine, Fine-le, parsed-Fine, if-Fine,
  and_then-Fine, negations-Fine,
}
use breezybox.Shell.Parse.Commands.{call-Fine, loop-Fine}

-- What is called on fewer than `n` tokens is fine.
module _ (n : ℕ) (k : Task → List Tok → Parsed Node)
    (less : (task : Task) (r : List Tok) → suc (length r) ≤ n → Fine (length r) (k task r)) where
  pub list_from-Fine :
      (nodes : Nodes) (s : List Tok)
      → Fine (length s) (k an_and_or s)
      → length s ≤ n
      → Fine n (list_from k nodes s)
  list_from-Fine nodes s same h =
      if-Fine n (ends_list s) _ _ (λ e. parsed-Fine n _ s h)
        (λ e. and_then-Fine n (length s) (k an_and_or s) _ same (λ tree r l.
          if-Fine n (at_type t_semi r || at_type t_newline r) _ _
            (λ e. loop-Fine n k less _ (skip_seps r) (omega (arith, h, l, skip_seps-lt r e)))
            (λ e. parsed-Fine n _ r (le_trans l h))))

  pub and_or_from-Fine : (left : Node) (s : List Tok) → length s ≤ n → Fine n (and_or_from k left s)
  and_or_from-Fine left s h =
      if-Fine n (at_type t_ampamp s || at_type t_barbar s) _ _
        (λ e.
          let l : suc (length (adv s)) ≤ length s =
            or_cases (at_type t_ampamp s) (at_type t_barbar s) _ e (adv-lt t_ampamp s (omega arith))
              (adv-lt t_barbar s (omega arith)) in
          call-Fine n k less a_pipeline (skip_newlines (adv s)) _
            (omega (arith, h, l, skip_newlines-le (adv s))) (λ tree r m. loop-Fine n k less _ r m))
        (λ e. parsed-Fine n left s h)

  pub pipe_from-Fine :
      (negated : Bool) (nodes : Nodes) (s : List Tok)
      → length s ≤ n
      → Fine n (pipe_from k negated nodes s)
  pipe_from-Fine negated nodes s h =
      if-Fine n (at_type t_bar s) _ _
        (λ e.
          call-Fine n k less a_command (skip_newlines (adv s)) _
            (omega (arith, h, adv-lt t_bar s (omega arith) e, skip_newlines-le (adv s)))
            (λ tree r m. loop-Fine n k less _ r m))
        (λ e. parsed-Fine n _ s h)

  pub parse_pipeline-Fine :
      (s : List Tok)
      → ((r : List Tok) → length r ≤ n → Fine (length r) (k a_command r))
      → ((negated : Bool) (nodes : Nodes) (r : List Tok)
          → length r ≤ n
          → Fine (length r) (k (pipe_loop negated nodes) r))
      → length s ≤ n
      → Fine n (parse_pipeline k s)
  parse_pipeline-Fine s commands pipes h =
      and_then-Fine n (length s) (negations (suc (length s)) false s) _ (negations-Fine s)
        (λ negated s₁ l.
          and_then-Fine n (length s₁) (k a_command s₁) _ (commands s₁ (le_trans l h)) (λ first r m.
            let e₁ = le_trans m (le_trans l h) in
            if-Fine n (at_type t_bar r) _ _
              (λ e. Fine-le _ e₁ (pipes negated (push_child no_nodes first) r e₁))
              (λ e. parsed-Fine n _ r e₁)))
