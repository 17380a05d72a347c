-- ===== src/Shell/Redir/Tests.antt =====
-- Runs of src/components/breezybox/shell/sh_redir.c, and its theorem at an input that meets its
-- hypothesis.
use breezybox.Prelude.{
  ℕ, ◌+◌, ◌≡◌, refl, Bytes, codes, replicate, Option, none, some, List, [], ◌∷◌, arith,
}
use breezybox.Shell.Redir.{
  RedirItem, rd_out, rd_dup, OpenMode, Streams, redir_restore, redir_loop, redir_apply, finish,
  Redirected, redirected, refused,
}
use breezybox.Shell.Redir.Undone.{IsUndone, redir_apply-IsUndone}

-- Each file that opens has the next number; a path of no bytes does not open.
abbrev numbered : Bytes → OpenMode → ℕ → Option ℕ × ℕ
numbered [] mode w = (none, w)
numbered (c ∷ path) mode w = (some w, w + 1)

abbrev console : Streams ℕ ℕ
console = record { stream = λ i. i; open_files = 3; world = 3 }

abbrev out_to : Bytes → RedirItem
out_to path = record { op = rd_out; fd = 1; dupfd = 0; path = path }

abbrev error_to_out : RedirItem
error_to_out = record { op = rd_dup; fd = 2; dupfd = 1; path = [] }

abbrev streams_of : Redirected ℕ ℕ → List ℕ
streams_of (redirected s saved) = s.stream 0 ∷ s.stream 1 ∷ s.stream 2 ∷ []
streams_of (refused s) = []

-- `>f 2>&1` and `2>&1 >f`
file_first :
    streams_of (redir_apply numbered (out_to (codes "f") ∷ error_to_out ∷ []) console)
    ≡ 0 ∷ 3 ∷ 3 ∷ []
unfolding redir_apply redir_loop
file_first = refl

file_last :
    streams_of (redir_apply numbered (error_to_out ∷ out_to (codes "f") ∷ []) console)
    ≡ 0 ∷ 3 ∷ 1 ∷ []
unfolding redir_apply redir_loop
file_last = refl

-- The ninth file stays open.
nine_files :
    (finish (redir_apply numbered (replicate 9 (out_to (codes "f"))) console)).open_files ≡ 4
unfolding redir_apply redir_loop redir_restore
nine_files = refl

redir_apply-IsUndone_example :
    IsUndone console
      (finish (redir_apply numbered (out_to (codes "f") ∷ error_to_out ∷ out_to [] ∷ []) console))
redir_apply-IsUndone_example =
    redir_apply-IsUndone numbered (out_to (codes "f") ∷ error_to_out ∷ out_to [] ∷ []) console
      (omega arith)
