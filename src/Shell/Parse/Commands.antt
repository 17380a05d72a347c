-- ===== src/Shell/Parse/Commands.antt =====
-- The commands of src/components/breezybox/shell/sh_parse.c end if the calls that they make do.
use breezybox.Prelude.{
  ℕ, suc, ◌≤◌, ◌≡◌, Bool, true, false, not, ◌||◌, if◌then◌else◌, if_both, Bytes, codes, length,
  List, [], ◌∷◌, arith,
}
use native.Mathlib.Nat.{le_trans}
use breezybox.Shell.Lex.Token.{Tok, t_word, t_lparen, t_rparen, t_dsemi, t_eof}
use breezybox.Shell.Parse.Node.{
  Node, Shape, case_of, Clauses, Cases, has_no_child, Parsed, and_then,
}
use breezybox.Shell.Parse.Cursor.{at_type, adv, skip_seps, skip_newlines, is_word, text_of}
use breezybox.Shell.Parse.Simple.{is_valid_name, for_words, patterns}
use breezybox.Shell.Parse.Grammar.{
  Task, a_list, a_command, closed_by, is_simple, filled_list, do_done, for_body, parse_for,
  parse_while, else_part, if_from, case_clause, case_from, parse_case, parse_group, parse_subshell,
  parse_funcdef, parse_compound, parse_command,
}
use breezybox.Shell.Parse.Consumed.{
  adv-le, adv-lt, not-false, or_cases, is_word-lt, skip_newlines-le, skip_seps-le, Fine, Fine-le,
  parsed-Fine, error-Fine, if-Fine, and_then-Fine, parse_redir_list-Fine, parse_simple-Fine,
  for_words-Fine, patterns-Fine,
}

closed_by-Fine :
    (n : ℕ) (kw m : Bytes) (shape : Shape) (s : List Tok)
    → length s ≤ n
    → Fine n (closed_by kw m shape s)
closed_by-Fine n kw m shape s h =
    if-Fine n (is_word kw s) _ _ (λ e. parsed-Fine n _ (adv s) (le_trans (adv-le s) h))
      (λ e. error-Fine _ n m)

-- What is called on fewer than `n` tokens is fine.
module _ (n : ℕ) (k : Task → List Tok → Parsed Node)
    (less : (task : Task) (r : List Tok) → suc (length r) ≤ n → Fine (length r) (k task r)) where
  -- A call, and what follows it on no more tokens.
  pub call-Fine :
      (task : Task) (r : List Tok) (later : Node → List Tok → Parsed Node)
      → suc (length r) ≤ n
      → ((tree : Node) (s : List Tok) → suc (length s) ≤ n → Fine n (later tree s))
      → Fine n (and_then (k task r) later)
  call-Fine task r later h f =
      and_then-Fine n (length r) (k task r) later (less task r h)
        (λ tree s l. f tree s (omega (arith, h, l)))

  pub loop-Fine : (task : Task) (r : List Tok) → suc (length r) ≤ n → Fine n (k task r)
  loop-Fine task r h = Fine-le (k task r) (omega (arith, h)) (less task r h)

  filled_list-Fine :
      (m : Bytes) (r : List Tok) (later : Node → List Tok → Parsed Node)
      → suc (length r) ≤ n
      → ((tree : Node) (s : List Tok) → suc (length s) ≤ n → Fine n (later tree s))
      → Fine n (filled_list k m r later)
  filled_list-Fine m r later h f =
      call-Fine a_list r _ h
        (λ tree s l. if-Fine n (has_no_child tree) _ _ (λ e. error-Fine _ n m) (λ e. f tree s l))

  do_done-Fine : (s : List Tok) (shape : Node → Shape) → length s ≤ n → Fine n (do_done k s shape)
  do_done-Fine s shape h =
      if-Fine n (is_word (codes "do") s) _ _
        (λ e.
          filled_list-Fine _ (adv s) _ (le_trans (is_word-lt (codes "do") s e) h)
            (λ tree r l. closed_by-Fine n _ _ _ r (omega (arith, l))))
        (λ e. error-Fine _ n _)

  for_body-Fine :
      (name : Bytes) (words : List Bytes) (implicit : Bool) (s : List Tok)
      → length s ≤ n
      → Fine n (for_body k name words implicit s)
  for_body-Fine name words implicit s h = do_done-Fine (skip_seps s) _ (le_trans (skip_seps-le s) h)

  parse_for-Fine : (s : List Tok) → length s ≤ n → Fine n (parse_for k s)
  parse_for-Fine s h =
      let r = adv s in
      let r' = skip_newlines (adv r) in
      let l : length r' ≤ n = omega (arith, h, adv-le s, adv-le r, skip_newlines-le (adv r)) in
      if-Fine n (not (at_type t_word r)) _ _ (λ e. error-Fine _ n _)
        (λ e.
          if-Fine n (not (is_valid_name (text_of r))) _ _ (λ e. error-Fine _ n _)
            (λ e.
              if-Fine n (is_word (codes "in") r') _ _
                (λ e.
                  and_then-Fine n n (for_words (adv r')) _
                    (for_words-Fine n (adv r') (le_trans (adv-le r') l))
                    (λ words r'' m. for_body-Fine (text_of r) words false r'' m))
                (λ e. for_body-Fine (text_of r) [] true r' l)))

  parse_while-Fine : (s : List Tok) → suc (length (adv s)) ≤ n → Fine n (parse_while k s)
  parse_while-Fine s h =
      call-Fine a_list (adv s) _ h (λ cond r l. do_done-Fine r _ (omega (arith, l)))

  else_part-Fine :
      (clauses : Clauses) (s : List Tok) → length s ≤ n → Fine n (else_part k clauses s)
  else_part-Fine cls s h =
      if-Fine n (is_word (codes "else") s) _ _
        (λ e.
          filled_list-Fine _ (adv s) _ (le_trans (is_word-lt (codes "else") s e) h)
            (λ tree r l. closed_by-Fine n _ _ _ r (omega (arith, l))))
        (λ e. closed_by-Fine n _ _ _ s h)

  pub if_from-Fine :
      (clauses : Clauses) (s : List Tok)
      → Fine (length s) (k a_list s)
      → length s ≤ n
      → Fine n (if_from k clauses s)
  if_from-Fine cls s same h = and_then-Fine n (length s) (k a_list s) _ same (λ cond r l.
      if-Fine n (is_word (codes "then") r) _ _
        (λ e.
          filled_list-Fine _ (adv r) _ (le_trans (is_word-lt (codes "then") r e) (le_trans l h))
            (λ body r' m.
              if-Fine n (is_word (codes "elif") r') _ _
                (λ e. loop-Fine _ (adv r') (omega (arith, m, adv-le r')))
                (λ e. else_part-Fine _ r' (omega (arith, m)))))
        (λ e. error-Fine _ n _))

  case_clause-Fine :
      (word : Bytes) (cases : Cases) (pats : List Bytes) (s : List Tok)
      → suc (length s) ≤ n
      → Fine n (case_clause k word cases pats s)
  case_clause-Fine word cases pats s h =
      if-Fine n (at_type t_rparen s) _ _
        (λ e. call-Fine a_list (adv s) _ (omega (arith, h, adv-le s)) (λ body r l.
          if-Fine n (at_type t_dsemi r) _ _
            (λ e.
              loop-Fine _ (skip_seps (adv r)) (omega (arith, l, skip_seps-le (adv r), adv-le r)))
            (λ e. closed_by-Fine n _ _ _ r (omega (arith, l)))))
        (λ e. error-Fine _ n _)

  pub case_from-Fine :
      (word : Bytes) (cases : Cases) (s : List Tok)
      → length s ≤ n
      → Fine n (case_from k word cases s)
  case_from-Fine word cases [] h =
      closed_by-Fine n (codes "esac") (codes "expected 'esac'") (case_of word cases) [] h
  case_from-Fine word cases (t ∷ s) h =
      if-Fine n (is_word (codes "esac") (t ∷ s) || at_type t_eof (t ∷ s)) _ _
        (λ e. closed_by-Fine n _ _ _ (t ∷ s) h)
        (λ e.
          and_then-Fine n (length s)
            (patterns (if at_type t_lparen (t ∷ s) then adv (t ∷ s) else t ∷ s)) _
            (patterns-Fine (length s) _ (
              if_both (λ (r : List Tok). length r ≤ suc (length s)) (at_type t_lparen (t ∷ s)) _ _
                (adv-le (t ∷ s)) (omega arith)))
            (λ pats r l. case_clause-Fine word cases pats r (omega (arith, h, l))))

  parse_case-Fine : (s : List Tok) → length s ≤ n → Fine n (parse_case k s)
  parse_case-Fine s h =
      let r = adv s in
      if-Fine n (not (at_type t_word r)) _ _ (λ e. error-Fine _ n _)
        (λ e.
          if-Fine n (not (is_word (codes "in") (adv r))) _ _ (λ _. error-Fine _ n _)
            (λ _. loop-Fine _ (skip_seps (adv (adv r))) (
              omega (
                arith,
                h,
                adv-le s,
                adv-lt t_word r (omega arith) (not-false (at_type t_word r) e),
                adv-le (adv r),
                skip_seps-le (adv (adv r)),
              ))))

  parse_group-Fine : (s : List Tok) → suc (length (adv s)) ≤ n → Fine n (parse_group k s)
  parse_group-Fine s h =
      call-Fine a_list (adv s) _ h (λ body r l. closed_by-Fine n _ _ _ r (omega (arith, l)))

  parse_subshell-Fine : (s : List Tok) → suc (length (adv s)) ≤ n → Fine n (parse_subshell k s)
  parse_subshell-Fine s h = call-Fine a_list (adv s) _ h (λ body r l.
      if-Fine n (at_type t_rparen r) _ _ (λ e. parsed-Fine n _ (adv r) (omega (arith, l, adv-le r)))
        (λ e. error-Fine _ n _))

  parse_funcdef-Fine : (s : List Tok) → length s ≤ n → Fine n (parse_funcdef k s)
  parse_funcdef-Fine s h =
      let r = adv (adv s) in
      if-Fine n (at_type t_rparen r) _ _
        (λ e.
          call-Fine a_command (skip_newlines (adv r)) _
            (omega (
              arith,
              h,
              adv-le s,
              adv-le (adv s),
              adv-lt t_rparen r (omega arith) e,
              skip_newlines-le (adv r),
            ))
            (λ body r' l. parsed-Fine n _ r' (omega (arith, l))))
        (λ e. error-Fine _ n _)

  parse_compound-Fine : (s : List Tok) → length s ≤ n → Fine n (parse_compound k s)
  parse_compound-Fine s h =
      let shorter : (kw : Bytes) → is_word kw s ≡ true → suc (length (adv s)) ≤ n =
        λ kw e. le_trans (is_word-lt kw s e) h in
      if-Fine n (at_type t_lparen s) _ _
        (λ e. parse_subshell-Fine s (le_trans (adv-lt t_lparen s (omega arith) e) h))
        (λ _.
          if-Fine n (is_word (codes "{") s) _ _ (λ e. parse_group-Fine s (shorter (codes "{") e))
            (λ _.
              if-Fine n (is_word (codes "if") s) _ _
                (λ e. loop-Fine _ (adv s) (shorter (codes "if") e))
                (λ _.
                  if-Fine n (is_word (codes "while") s || is_word (codes "until") s) _ _
                    (λ e. parse_while-Fine s (
                      or_cases (is_word (codes "while") s) (is_word (codes "until") s) _ e
                        (shorter (codes "while")) (shorter (codes "until"))))
                    (λ _.
                      if-Fine n (is_word (codes "for") s) _ _ (λ e. parse_for-Fine s h)
                        (λ _.
                          if-Fine n (is_word (codes "case") s) _ _ (λ e. parse_case-Fine s h)
                            (λ _. parse_funcdef-Fine s h))))))

  pub parse_command-Fine : (s : List Tok) → length s ≤ n → Fine n (parse_command k s)
  parse_command-Fine s h =
      if-Fine n (is_simple s) _ _ (λ e. parse_simple-Fine n s h)
        (λ e.
          and_then-Fine n n (parse_compound k s) _ (parse_compound-Fine s h)
            (λ tree r l. parse_redir_list-Fine n tree r l))
