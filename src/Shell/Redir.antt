-- ===== src/Shell/Redir.antt =====
-- src/components/breezybox/shell/sh_redir.c: the redirections of a command. fopen is a parameter with
-- a world of its own; what fclose does to it is a count of the open files. The message about a file
-- that does not open is left out.
pub mod Undone
mod Tests
use breezybox.Prelude.{
  ℕ, zero, suc, ◌+◌, ◌-◌, ◌≤◌, ◌<◌, ◌≡◌, refl, sym, ap, ◌∙◌, Bool, true, false, not, ltb, ◌==◌,
  ==_iff, if◌then◌else◌, if_both, Bool-cases, inl, inr, Bytes, codes, length, length-append, Option,
  none, some, List, [], ◌∷◌, ◌++◌, arith,
}

pub data RedirOp : Type 0 where
  rd_in rd_out rd_append rd_close rd_dup : RedirOp

-- `sh_redir_rt`
pub record RedirItem : Type 0 where
  pub op : RedirOp
  pub fd : ℕ
  pub dupfd : ℕ
  pub path : Bytes

pub data OpenMode : Type 0 where
  read write append : OpenMode

-- The three streams, by descriptor, the number of open files, and the file system.
pub record Streams (F W : Type 0) : Type 0 where
  pub stream : ℕ → F
  pub open_files : ℕ
  pub world : W

-- `sh_redir_saved`
pub record RedirSaved (F : Type 0) : Type 0 where
  pub orig : ℕ → F
  pub touched : ℕ → Bool
  pub opened : List F

module _ {A : Type 0} where
  abbrev pub put_at : ℕ → A → (ℕ → A) → ℕ → A
  put_at fd a f i = if i == fd then a else f i

-- Whether sh_stream_slot gives a slot.
abbrev pub has_slot : ℕ → Bool
has_slot fd = ltb fd 3

abbrev pub dev_null : Bytes
dev_null = codes "/dev/null"

-- Done, or refused and undone.
pub data Redirected (F W : Type 0) : Type 0 where
  redirected : Streams F W → RedirSaved F → Redirected F W
  refused : Streams F W → Redirected F W

module _ {F : Type 0} where
  abbrev pub touch : ℕ → RedirSaved F → RedirSaved F
  touch fd saved = record saved { touched = put_at fd true saved.touched }

  abbrev pub remember : F → RedirSaved F → RedirSaved F
  remember f saved = record saved {
    opened = if ltb (length saved.opened) 8 then saved.opened ++ f ∷ [] else saved.opened;
  }

module _ {F W : Type 0} where
  unfoldable pub redir_restore : Streams F W → RedirSaved F → Streams F W × RedirSaved F
  redir_restore s saved = (
    record s {
      stream = λ i. if saved.touched i then saved.orig i else s.stream i;
      open_files = s.open_files - length saved.opened;
    },
    record saved { touched = λ i. false; opened = [] },
  )

  -- `*slot = f` for a file that was opened, and for a stream that is shared
  abbrev pub set_slot : ℕ → F → Streams F W → Streams F W
  set_slot fd f s = record s { stream = put_at fd f s.stream }

  -- The file that fopen gave, or that it gave none.
  abbrev pub use_file : ℕ → Streams F W → RedirSaved F → Option F × W → Redirected F W
  use_file fd s saved (none, w) = refused (redir_restore (record s { world = w }) saved).0
  use_file fd s saved (some f, w) =
      redirected (set_slot fd f (record s { open_files = s.open_files + 1; world = w }))
        (touch fd (remember f saved))

  abbrev pub share : ℕ → ℕ → Streams F W → RedirSaved F → Redirected F W
  share fd dupfd s saved =
      if has_slot dupfd
      then redirected (set_slot fd (s.stream dupfd) s) (touch fd saved)
      else refused (redir_restore s saved).0

  abbrev pub start_saved : Streams F W → RedirSaved F
  start_saved s = record { orig = s.stream; touched = λ i. false; opened = [] }

  module _ (fopen : Bytes → OpenMode → W → Option F × W) where
    abbrev pub redir_op : RedirOp → RedirItem → Streams F W → RedirSaved F → Redirected F W
    redir_op rd_in it s saved = use_file it.fd s saved (fopen it.path read s.world)
    redir_op rd_out it s saved = use_file it.fd s saved (fopen it.path write s.world)
    redir_op rd_append it s saved = use_file it.fd s saved (fopen it.path append s.world)
    redir_op rd_close it s saved =
        use_file it.fd s saved (fopen dev_null (if it.fd == 0 then read else write) s.world)
    redir_op rd_dup it s saved = share it.fd it.dupfd s saved

    abbrev pub redir_item : RedirItem → Streams F W → RedirSaved F → Redirected F W
    redir_item it s saved =
        if has_slot it.fd then redir_op it.op it s saved else refused (redir_restore s saved).0

    abbrev pub redir_next :
        (Streams F W → RedirSaved F → Redirected F W) → Redirected F W → Redirected F W
    redir_next later (redirected s saved) = later s saved
    redir_next later (refused s) = refused s

    unfoldable pub redir_loop : List RedirItem → Streams F W → RedirSaved F → Redirected F W
    unfolding redir_restore
    redir_loop [] s saved = redirected s saved
    redir_loop (it ∷ items) s saved = redir_next (redir_loop items) (redir_item it s saved)

    unfoldable pub redir_apply : List RedirItem → Streams F W → Redirected F W
    unfolding redir_loop
    redir_apply items s = redir_loop items s (start_saved s)

  -- The streams once a command with redirections is over, whether it could run or not.
  abbrev pub finish : Redirected F W → Streams F W
  finish (redirected s saved) = (redir_restore s saved).0
  finish (refused s) = s
