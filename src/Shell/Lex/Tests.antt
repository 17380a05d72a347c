-- ===== src/Shell/Lex/Tests.antt =====
-- Runs of src/components/breezybox/shell/sh_lex.c, and the theorems at inputs that meet their
-- hypotheses.
use breezybox.Prelude.{
  Bytes, codes, ◌≡◌, refl, true, false, none, some, List, [], ◌∷◌, digits, str_eq,
}
use breezybox.Shell.Lex.Quote.{
  up_to, single, double, cmdsub_loop, scan_cmdsub, backtick_loop, scan_backtick, brace_loop,
  scan_braceparam,
}
use breezybox.Shell.Lex.Word.{plain_byte, double_byte, word_loop, scan_word}
use breezybox.Shell.Lex.Verbatim.{Verbatim, substitutions_are_copied}
use breezybox.Shell.Lex.Ends.{sh_lex_ends}
use breezybox.Shell.Lex.Quoted.{Lacks, AllLack, quoted_line, quoted_tok, sh_lex-quoted_line}
use breezybox.Shell.Lex.Letters.{Letters}
use breezybox.Shell.Lex.HereDoc.{lines, AreLines, here_tok, here_script, sh_lex-here_script}
use breezybox.Shell.Lex.Steps.{IsWord, AreWords, spaced, led}
use breezybox.Shell.Lex.NoDelimiter.{AreBlanks, IsComment, sh_lex_no_delimiter}
use breezybox.Shell.Lex.Token.{
  Tok, tok, t_word, t_gt, t_newline, t_eof, heredocs, lex_byte, lex_loop, sh_lex, Lexed, tokens,
  failed, crashed,
}

abbrev word : Bytes → Tok
word text = tok t_word (some text)

lex_line :
    sh_lex (codes "a=$(b \"$(c ')')\") 2>x # y")
    ≡ some (
        tokens (
          word (codes "a=$(b \"$(c ')')\")")
          ∷ record { type = t_gt; text = none; hd_quoted = false; rfd = some 2 }
          ∷ word (codes "x")
          ∷ tok t_eof none
          ∷ []))
unfolding sh_lex lex_loop lex_byte scan_word word_loop plain_byte double_byte scan_cmdsub
    cmdsub_loop single up_to scan_backtick backtick_loop scan_braceparam brace_loop double digits
    heredocs
lex_line = refl

lex_backtick : scan_word (codes "`(a)\\``;b") ≡ scan_word (codes "$( (a)`);b")
unfolding scan_word word_loop plain_byte double_byte scan_cmdsub cmdsub_loop single up_to
    scan_backtick backtick_loop scan_braceparam brace_loop double
lex_backtick = refl

sh_lex_ends_example : (r : Lexed) × (sh_lex (codes "a \"b") ≡ some r)
sh_lex_ends_example = sh_lex_ends (codes "a \"b")

-- A quote that is not closed is an error.
lex_unclosed : sh_lex (codes "a \"b") ≡ some failed
unfolding sh_lex lex_loop lex_byte scan_word word_loop plain_byte double_byte digits
lex_unclosed = refl

substitutions_are_copied_example :
    Verbatim (codes "$(a;b) c") (scan_cmdsub (codes "a;b) c"))
    × Verbatim (codes "${a;b) c") (scan_braceparam (codes "a;b) c"))
substitutions_are_copied_example = substitutions_are_copied (codes "a;b) c")

abbrev two_words : List Bytes
two_words = codes "a b" ∷ codes "$;" ∷ []

two_words-AllLack : AllLack b'\'' two_words
unfolding AllLack Lacks
two_words-AllLack = ((refl, (refl, (refl, tt))), ((refl, (refl, tt)), tt))

sh_lex-quoted_line_example :
    sh_lex (quoted_line two_words)
    ≡ some (tokens (quoted_tok (codes "a b") ∷ quoted_tok (codes "$;") ∷ tok t_eof none ∷ []))
sh_lex-quoted_line_example = sh_lex-quoted_line two_words two_words-AllLack

abbrev cat_word : List Bytes
cat_word = codes "cat" ∷ []

cat_word-AreWords : AreWords cat_word
unfolding AreWords IsWord Letters
cat_word-AreWords = ((refl, (refl, (refl, tt))), tt)

blanks-AreBlanks : AreBlanks (codes " \t")
unfolding AreBlanks
blanks-AreBlanks = (refl, (refl, tt))

remarked : IsComment (codes "# x")
unfolding IsComment Lacks
remarked = (refl, (refl, (refl, tt)))

sh_lex_no_delimiter_example : sh_lex (codes "cat <<- \t# x\necho a\n") ≡ some crashed
unfolding spaced
sh_lex_no_delimiter_example =
    sh_lex_no_delimiter cat_word true (codes " \t") (codes "# x") (codes "echo a\n")
      cat_word-AreWords blanks-AreBlanks remarked

abbrev two_lines : List Bytes
two_lines = codes "a $b" ∷ codes "EOFS" ∷ []

two_lines-AreLines : AreLines (codes "EOF") two_lines
unfolding AreLines Lacks str_eq
two_lines-AreLines =
    ((refl, (refl, (refl, (refl, tt)))), refl, ((refl, (refl, (refl, (refl, tt)))), refl, tt))

eof-Letters : Letters (codes "EOF")
unfolding Letters
eof-Letters = (refl, (refl, (refl, tt)))

abbrev two_after : List Bytes
two_after = codes "x" ∷ codes "yz" ∷ []

two_after-AreWords : AreWords two_after
unfolding AreWords IsWord Letters
two_after-AreWords = ((refl, tt), ((refl, (refl, tt)), tt))

-- In its text: cat <<EOF x yz, the two lines, EOF, and cat.
here_script_text :
    here_script cat_word (codes "EOF") two_after two_lines cat_word
    ≡ codes "cat <<EOF x yz\na $b\nEOFS\nEOF\ncat "
unfolding spaced led lines
here_script_text = refl

sh_lex-here_script_example :
    sh_lex (here_script cat_word (codes "EOF") two_after two_lines cat_word)
    ≡ some (
        tokens (
          word (codes "cat")
          ∷ here_tok (lines two_lines)
          ∷ word (codes "EOF")
          ∷ word (codes "x")
          ∷ word (codes "yz")
          ∷ tok t_newline none
          ∷ word (codes "cat")
          ∷ tok t_eof none
          ∷ []))
sh_lex-here_script_example =
    sh_lex-here_script cat_word two_after cat_word b'E' (codes "OF") two_lines cat_word-AreWords
      two_after-AreWords cat_word-AreWords eof-Letters two_lines-AreLines
