-- ===== src/Shell/Parse/Simple.antt =====
-- Simple commands, loop variables and case patterns in src/components/breezybox/shell/sh_parse.c.
use breezybox.Prelude.{
  ℕ, zero, suc, Bool, true, false, not, ◌&&◌, ◌||◌, ◌==◌, if◌then◌else◌, Bytes, codes, is_digit,
  is_letter, length, List, [], ◌∷◌, ◌++◌,
}
use breezybox.Shell.Lex.Token.{Tok, t_word, t_bar}
use breezybox.Shell.Parse.Node.{
  Redir, Node, node, simple, Parsed, parsed, parse_error, no_fuel, and_then,
}
use breezybox.Shell.Parse.Cursor.{at_type, curt, adv, is_reserved, text_of}
use breezybox.Shell.Parse.Redirect.{is_redir_tok, parse_redir}

abbrev pub starts_ident : ℕ → Bool
starts_ident c = c == b'_' || is_letter c

abbrev pub in_ident : ℕ → Bool
in_ident c = starts_ident c || is_digit c

-- The loop up to `=`.
unfoldable pub assign_rest : Bytes → Bool
assign_rest [] = false
assign_rest (c ∷ s) =
    let more = assign_rest s in if c == b'=' then true else if in_ident c then more else false

unfoldable pub looks_like_assign : Bytes → Bool
unfolding assign_rest
looks_like_assign [] = false
looks_like_assign (c ∷ s) = starts_ident c && assign_rest s

-- The fields of an N_SIMPLE, and `seen_word`.
pub record SimpleParts : Type 0 where
  pub assigns : List Bytes
  pub words : List Bytes
  pub redirs : List Redir
  pub seen_word : Bool

abbrev pub add_word : Bytes → SimpleParts → SimpleParts
add_word text n =
    if not n.seen_word && looks_like_assign text
    then record n { assigns = n.assigns ++ text ∷ [] }
    else record n { words = n.words ++ text ∷ []; seen_word = true }

-- A reserved word ends the command only where its first word would be.
abbrev pub is_terminator : SimpleParts → List Tok → Bool
is_terminator n s = not n.seen_word && (not (looks_like_assign (text_of s)) && is_reserved s)

unfoldable pub simple_loop : ℕ → SimpleParts → List Tok → Parsed SimpleParts
unfolding looks_like_assign is_reserved parse_redir
simple_loop zero n s = no_fuel
simple_loop (suc f) n s =
    let word = simple_loop f (add_word (text_of s) n) (adv s) in
    let redirected =
      and_then (parse_redir s)
        (λ r rest. simple_loop f (record n { redirs = n.redirs ++ r ∷ [] }) rest) in
    if at_type t_word s
    then if is_terminator n s then parsed n s else word
    else if is_redir_tok (curt s)
    then redirected
    else parsed n s

abbrev pub is_nil {ℓ} : {A : Type ℓ} → List A → Bool
is_nil [] = true
is_nil (x ∷ xs) = false

abbrev pub is_blank_command : SimpleParts → Bool
is_blank_command n = is_nil n.words && (is_nil n.assigns && is_nil n.redirs)

abbrev pub simple_node : SimpleParts → List Tok → Parsed Node
simple_node n s =
    if is_blank_command n
    then parse_error (codes "expected command")
    else parsed (node false n.redirs (simple n.assigns n.words)) s

unfoldable pub parse_simple : List Tok → Parsed Node
unfolding simple_loop
parse_simple s =
    and_then
      (simple_loop (suc (length s))
        (record { assigns = []; words = []; redirs = []; seen_word = false }) s)
      simple_node

unfoldable pub all_in_ident : Bytes → Bool
all_in_ident [] = true
all_in_ident (c ∷ s) = let more = all_in_ident s in if in_ident c then more else false

-- A loop variable is a valid name.
abbrev pub is_valid_name : Bytes → Bool
is_valid_name [] = false
is_valid_name (c ∷ s) = starts_ident c && all_in_ident s

-- The words of a `for ... in`, which a reserved word ends.
unfoldable pub for_words_loop : ℕ → List Bytes → List Tok → Parsed (List Bytes)
unfolding is_reserved
for_words_loop zero words s = no_fuel
for_words_loop (suc f) words s =
    let more = for_words_loop f (words ++ text_of s ∷ []) (adv s) in
    if at_type t_word s && not (is_reserved s) then more else parsed words s

unfoldable pub for_words : List Tok → Parsed (List Bytes)
unfolding for_words_loop
for_words s = for_words_loop (suc (length s)) [] s

-- The patterns of a case clause.
unfoldable pub patterns_loop : ℕ → List Bytes → List Tok → Parsed (List Bytes)
patterns_loop zero pats s = no_fuel
patterns_loop (suc f) pats s =
    let more = patterns_loop f (pats ++ text_of s ∷ []) (adv (adv s)) in
    if not (at_type t_word s)
    then parse_error (codes "expected case pattern")
    else if at_type t_bar (adv s)
    then more
    else parsed (pats ++ text_of s ∷ []) (adv s)

unfoldable pub patterns : List Tok → Parsed (List Bytes)
unfolding patterns_loop
patterns s = patterns_loop (suc (length s)) [] s
