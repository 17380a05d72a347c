-- ===== src/Shell/Parse/Cursor.antt =====
-- The position of src/components/breezybox/shell/sh_parse.c among the tokens, as the tokens from it
-- on; the last is T_EOF.
use breezybox.Prelude.{
  ℕ, Bool, false, ◌&&◌, ◌||◌, ◌==◌, if◌then◌else◌, Bytes, codes, str_eq, Option, none, some, List,
  [], ◌∷◌,
}
use breezybox.Shell.Lex.Token.{
  Tok, TokType, tok, t_word, t_semi, t_ampamp, t_barbar, t_bar, t_lt, t_gt, t_gtgt, t_gtamp,
  t_ltamp, t_clobber, t_dless, t_dlessdash, t_lparen, t_rparen, t_dsemi, t_newline, t_eof,
}

-- the value of the enumeration
abbrev pub type_code : TokType → ℕ
type_code t_word = 0
type_code t_semi = 1
type_code t_ampamp = 2
type_code t_barbar = 3
type_code t_bar = 4
type_code t_lt = 5
type_code t_gt = 6
type_code t_gtgt = 7
type_code t_gtamp = 8
type_code t_ltamp = 9
type_code t_clobber = 10
type_code t_dless = 11
type_code t_dlessdash = 12
type_code t_lparen = 13
type_code t_rparen = 14
type_code t_dsemi = 15
type_code t_newline = 16
type_code t_eof = 17

abbrev pub is_type : TokType → TokType → Bool
is_type a b = type_code a == type_code b

abbrev pub cur : List Tok → Tok
cur [] = tok t_eof none
cur (t ∷ s) = t

abbrev pub curt : List Tok → TokType
curt s = (cur s).type

-- `curt(p) == type`
abbrev pub at_type : TokType → List Tok → Bool
at_type type s = is_type (curt s) type

abbrev pub adv : List Tok → List Tok
adv [] = []
adv (t ∷ s) = if is_type t.type t_eof then t ∷ s else s

-- the type of the token behind
abbrev pub peekt : List Tok → TokType
peekt s = curt (adv s)

unfoldable pub skip_seps : List Tok → List Tok
skip_seps [] = []
skip_seps (t ∷ s) =
    let more = skip_seps s in
    if is_type t.type t_newline || is_type t.type t_semi then more else t ∷ s

unfoldable pub skip_newlines : List Tok → List Tok
skip_newlines [] = []
skip_newlines (t ∷ s) =
    let more = skip_newlines s in if is_type t.type t_newline then more else t ∷ s

abbrev pub text_is : Option Bytes → Bytes → Bool
text_is none kw = false
text_is (some text) kw = str_eq text kw

abbrev pub is_word : Bytes → List Tok → Bool
is_word kw s = at_type t_word s && text_is (cur s).text kw

unfoldable pub is_one_of : List Bytes → List Tok → Bool
is_one_of [] s = false
is_one_of (kw ∷ kws) s = is_word kw s || is_one_of kws s

abbrev pub reserved_words : List Bytes
reserved_words =
    codes "then"
    ∷ codes "else"
    ∷ codes "elif"
    ∷ codes "fi"
    ∷ codes "do"
    ∷ codes "done"
    ∷ codes "esac"
    ∷ codes "}"
    ∷ []

unfoldable pub is_reserved : List Tok → Bool
unfolding is_one_of
is_reserved s = is_one_of reserved_words s

-- The text of a word, which is never NULL.
abbrev pub text_of : List Tok → Bytes
text_of s = elim (cur s).text [ none ↦ [] | some text ↦ text ]
