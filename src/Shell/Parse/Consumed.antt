-- ===== src/Shell/Parse/Consumed.antt =====
-- What the parts of src/components/breezybox/shell/sh_parse.c that do not call the grammar leave of
-- the tokens.
use breezybox.Prelude.{
  ℕ, zero, suc, ◌≤◌, ◌<◌, ◌≡◌, refl, sym, ap, ◌∙◌, subst, Bool, true, false, not, ◌&&◌, ◌||◌,
  if◌then◌else◌, if_both, if_false, if_true, Bytes, codes, length, List, [], ◌∷◌, ◌++◌, arith,
}
use native.Mathlib.Nat.{le_trans}
use breezybox.Shell.Lex.Token.{Tok, TokType, t_word, t_bar, t_eof, t_newline, t_semi}
use breezybox.Shell.Parse.Node.{Node, with_redirs, Parsed, parsed, parse_error, no_fuel, and_then}
use breezybox.Shell.Parse.Cursor.{
  type_code, is_type, cur, at_type, adv, skip_seps, skip_newlines, text_is, is_word, is_reserved,
  text_of,
}
use breezybox.Shell.Parse.Redirect.{is_redir_tok, parse_redir, redir_list_loop, parse_redir_list}
use breezybox.Shell.Parse.Simple.{
  SimpleParts, add_word, is_terminator, simple_loop, is_blank_command, simple_node, parse_simple,
  for_words_loop, for_words, patterns_loop, patterns,
}
use breezybox.Shell.Parse.Grammar.{negations}

pub adv-le : (s : List Tok) → length (adv s) ≤ length s
adv-le [] = omega arith
adv-le (t ∷ s) =
    if_both (λ (r : List Tok). length r ≤ suc (length s)) (is_type t.type t_eof) _ _ (omega arith)
      (omega arith)

-- A token that is not the last is passed.
pub adv-lt :
    (type : TokType) (s : List Tok)
    → type_code type < 17
    → at_type type s ≡ true
    → suc (length (adv s)) ≤ length s
adv-lt type [] h k = absurd (ground (arith, h, k))
adv-lt type (t ∷ s) h k =
    let e : is_type t.type t_eof ≡ false = ground (arith, h, k) in
    subst (λ (r : List Tok). suc (length r) ≤ suc (length s))
      (sym (if_false (is_type t.type t_eof) _ _ e)) (omega arith)

pub both_left : (a b : Bool) → (a && b) ≡ true → a ≡ true
both_left true b h = refl
both_left false b h = h

pub not-false : (b : Bool) → not b ≡ false → b ≡ true
not-false true h = refl
not-false false h = sym h

pub is_word-lt : (kw : Bytes) (s : List Tok) → is_word kw s ≡ true → suc (length (adv s)) ≤ length s
is_word-lt kw s h =
    adv-lt t_word s (omega arith) (both_left (at_type t_word s) (text_is (cur s).text kw) h)

pub skip_newlines-le : (s : List Tok) → length (skip_newlines s) ≤ length s
unfolding skip_newlines
skip_newlines-le [] = omega arith
skip_newlines-le (t ∷ s) =
    if_both (λ (r : List Tok). length r ≤ suc (length s)) (is_type t.type t_newline) _ _
      (omega (arith, skip_newlines-le s)) (omega arith)

pub skip_seps-le : (s : List Tok) → length (skip_seps s) ≤ length s
unfolding skip_seps
skip_seps-le [] = omega arith
skip_seps-le (t ∷ s) =
    if_both (λ (r : List Tok). length r ≤ suc (length s))
      (is_type t.type t_newline || is_type t.type t_semi) _ _ (omega (arith, skip_seps-le s))
      (omega arith)

pub or_cases : (a b : Bool) (P : Type 0) → (a || b) ≡ true → (a ≡ true → P) → (b ≡ true → P) → P
or_cases true b P h x y = x refl
or_cases false b P h x y = y h

or_true : (a : Bool) → (a || true) ≡ true
or_true true = refl
or_true false = refl

pub skip_seps-lt :
    (s : List Tok)
    → (at_type t_semi s || at_type t_newline s) ≡ true
    → suc (length (skip_seps s)) ≤ length s
unfolding skip_seps
skip_seps-lt [] h = absurd (cc h)
skip_seps-lt (t ∷ s) h =
    let e : (is_type t.type t_newline || is_type t.type t_semi) ≡ true =
      or_cases (is_type t.type t_semi) (is_type t.type t_newline) _ h
        (λ a. ap (λ b. is_type t.type t_newline || b) a ∙ or_true (is_type t.type t_newline))
        (λ a. ap (λ b. b || is_type t.type t_semi) a) in
    subst (λ (r : List Tok). suc (length r) ≤ suc (length s))
      (sym (if_true (is_type t.type t_newline || is_type t.type t_semi) _ _ e))
      (omega (arith, skip_seps-le s))

-- A result, or an error, that leaves at most `n` tokens.
unfoldable pub Fine : {A : Type 0} → ℕ → Parsed A → Type 0
Fine n (parsed a s) = length s ≤ n
Fine n (parse_error m) = Unit
Fine n no_fuel = false ≡ true

module _ {A : Type 0} where
  pub Fine-le : {m n : ℕ} (r : Parsed A) → m ≤ n → Fine m r → Fine n r
  unfolding Fine
  Fine-le (parsed a s) h k = le_trans k h
  Fine-le (parse_error m) h k = tt
  Fine-le no_fuel h k = k

  pub parsed-Fine : (n : ℕ) (a : A) (s : List Tok) → length s ≤ n → Fine n (parsed a s)
  unfolding Fine
  parsed-Fine n a s h = h

  pub if-Fine :
      (n : ℕ) (b : Bool) (x y : Parsed A)
      → (b ≡ true → Fine n x)
      → (b ≡ false → Fine n y)
      → Fine n (if b then x else y)
  if-Fine n true x y h k = h refl
  if-Fine n false x y h k = k refl

pub error-Fine : (A : Type 0) (n : ℕ) (m : Bytes) → Fine {A = A} n (parse_error m)
unfolding Fine
error-Fine A n m = tt

pub and_then-Fine :
    {A B : Type 0} (n m : ℕ) (r : Parsed A) (later : A → List Tok → Parsed B)
    → Fine m r
    → ((a : A) (s : List Tok) → length s ≤ m → Fine n (later a s))
    → Fine n (and_then r later)
unfolding Fine
and_then-Fine n m (parsed a s) later h k = k a s h
and_then-Fine n m (parse_error e) later h k = tt
and_then-Fine n m no_fuel later h k = h

-- A redirection has two tokens.
pub parse_redir-Fine : (n : ℕ) (s : List Tok) → length s ≤ suc n → Fine n (parse_redir s)
unfolding parse_redir
parse_redir-Fine n s h =
    if-Fine n (at_type t_word (adv s)) _ _
      (λ e. parsed-Fine n _ _ (omega (arith, h, adv-le s, adv-lt t_word (adv s) (omega arith) e)))
      (λ e. error-Fine _ n _)

redir_list_loop-Fine :
    (f n : ℕ) (tree : Node) (s : List Tok)
    → length s < f
    → length s ≤ n
    → Fine n (redir_list_loop f tree s)
unfolding redir_list_loop
redir_list_loop-Fine zero n tree s h k = absurd (omega (arith, h))
redir_list_loop-Fine (suc f) n tree [] h k = parsed-Fine n tree [] k
redir_list_loop-Fine (suc f) n tree (t ∷ s) h k =
    if-Fine n (is_redir_tok t.type) _ _
      (λ e.
        and_then-Fine n (length s) (parse_redir (t ∷ s)) _
          (parse_redir-Fine (length s) (t ∷ s) (omega arith))
          (λ r rest l.
            redir_list_loop-Fine f n (with_redirs (r ∷ []) tree) rest (omega (arith, h, l))
              (omega (arith, k, l))))
      (λ e. parsed-Fine n tree (t ∷ s) k)

pub parse_redir_list-Fine :
    (n : ℕ) (tree : Node) (s : List Tok) → length s ≤ n → Fine n (parse_redir_list tree s)
unfolding parse_redir_list
parse_redir_list-Fine n tree s h = redir_list_loop-Fine (suc (length s)) n tree s (omega arith) h

simple_loop-Fine :
    (f n : ℕ) (parts : SimpleParts) (s : List Tok)
    → length s < f
    → length s ≤ n
    → Fine n (simple_loop f parts s)
unfolding simple_loop
simple_loop-Fine zero n parts s h k = absurd (omega (arith, h))
simple_loop-Fine (suc f) n parts [] h k = parsed-Fine n parts [] k
simple_loop-Fine (suc f) n parts (t ∷ s) h k =
    if-Fine n (at_type t_word (t ∷ s)) _ _
      (λ w.
        let l : suc (length (adv (t ∷ s))) ≤ suc (length s) =
          adv-lt t_word (t ∷ s) (omega arith) w in
        if-Fine n (is_terminator parts (t ∷ s)) _ _ (λ e. parsed-Fine n parts (t ∷ s) k)
          (λ e.
            simple_loop-Fine f n (add_word (text_of (t ∷ s)) parts) (adv (t ∷ s))
              (omega (arith, h, l)) (omega (arith, k, l))))
      (λ w.
        if-Fine n (is_redir_tok t.type) _ _
          (λ e.
            and_then-Fine n (length s) (parse_redir (t ∷ s)) _
              (parse_redir-Fine (length s) (t ∷ s) (omega arith))
              (λ r rest l.
                simple_loop-Fine f n (record parts { redirs = parts.redirs ++ r ∷ [] }) rest
                  (omega (arith, h, l)) (omega (arith, k, l))))
          (λ e. parsed-Fine n parts (t ∷ s) k))

pub parse_simple-Fine : (n : ℕ) (s : List Tok) → length s ≤ n → Fine n (parse_simple s)
unfolding parse_simple
parse_simple-Fine n s h =
    and_then-Fine n n _ simple_node
      (simple_loop-Fine (suc (length s)) n
        (record { assigns = []; words = []; redirs = []; seen_word = false }) s (omega arith) h)
      (λ parts r k.
        if-Fine n (is_blank_command parts) _ _ (λ e. error-Fine _ n _) (λ e. parsed-Fine n _ r k))

for_words_loop-Fine :
    (f n : ℕ) (words : List Bytes) (s : List Tok)
    → length s < f
    → length s ≤ n
    → Fine n (for_words_loop f words s)
unfolding for_words_loop
for_words_loop-Fine zero n words s h k = absurd (omega (arith, h))
for_words_loop-Fine (suc f) n words s h k =
    if-Fine n (at_type t_word s && not (is_reserved s)) _ _
      (λ e.
        let l =
          adv-lt t_word s (omega arith) (both_left (at_type t_word s) (not (is_reserved s)) e) in
        for_words_loop-Fine f n (words ++ text_of s ∷ []) (adv s) (omega (arith, h, l))
          (omega (arith, k, l)))
      (λ e. parsed-Fine n words s k)

pub for_words-Fine : (n : ℕ) (s : List Tok) → length s ≤ n → Fine n (for_words s)
unfolding for_words
for_words-Fine n s h = for_words_loop-Fine (suc (length s)) n [] s (omega arith) h

patterns_loop-Fine :
    (f n : ℕ) (pats : List Bytes) (s : List Tok)
    → length s < f
    → length s ≤ suc n
    → Fine n (patterns_loop f pats s)
unfolding patterns_loop
patterns_loop-Fine zero n pats s h k = absurd (omega (arith, h))
patterns_loop-Fine (suc f) n pats s h k =
    if-Fine n (not (at_type t_word s)) _ _ (λ e. error-Fine _ n _)
      (λ e.
        let l = adv-lt t_word s (omega arith) (not-false (at_type t_word s) e) in
        if-Fine n (at_type t_bar (adv s)) _ _
          (λ b.
            let m = adv-lt t_bar (adv s) (omega arith) b in
            patterns_loop-Fine f n (pats ++ text_of s ∷ []) (adv (adv s)) (omega (arith, h, l, m))
              (omega (arith, k, l, m)))
          (λ b. parsed-Fine n _ (adv s) (omega (arith, k, l))))

pub patterns-Fine : (n : ℕ) (s : List Tok) → length s ≤ suc n → Fine n (patterns s)
unfolding patterns
patterns-Fine n s h = patterns_loop-Fine (suc (length s)) n [] s (omega arith) h

negations_loop-Fine :
    (f n : ℕ) (negated : Bool) (s : List Tok)
    → length s < f
    → length s ≤ n
    → Fine n (negations f negated s)
unfolding negations
negations_loop-Fine zero n negated s h k = absurd (omega (arith, h))
negations_loop-Fine (suc f) n negated s h k =
    if-Fine n (is_word (codes "!") s) _ _
      (λ e.
        let l = is_word-lt (codes "!") s e in
        negations_loop-Fine f n (not negated) (skip_newlines (adv s))
          (omega (arith, h, l, skip_newlines-le (adv s)))
          (omega (arith, k, l, skip_newlines-le (adv s))))
      (λ e. parsed-Fine n negated s k)

pub negations-Fine : (s : List Tok) → Fine (length s) (negations (suc (length s)) false s)
negations-Fine s =
    negations_loop-Fine (suc (length s)) (length s) false s (omega arith) (omega arith)
