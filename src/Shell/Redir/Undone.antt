-- ===== src/Shell/Redir/Undone.antt =====
-- The redirections of src/components/breezybox/shell/sh_redir.c are undone.
use breezybox.Prelude.{
  ℕ, suc, ◌+◌, ◌≤◌, ◌≡◌, refl, Bool, true, false, ltb, ◌==◌, if◌then◌else◌, if_both, Bytes, length,
  length-append, Option, none, some, List, [], ◌∷◌, ◌++◌, arith,
}
use breezybox.Shell.Redir.{
  RedirOp, rd_in, rd_out, rd_append, rd_close, rd_dup, RedirItem, OpenMode, Streams, RedirSaved,
  put_at, has_slot, redir_restore, Redirected, redirected, refused, use_file, share, start_saved,
  redir_op, redir_item, redir_next, redir_loop, redir_apply, finish,
}

-- Files are counted, slots that were not touched are as they were, and what is remembered is what
-- the streams were.
module _ {F W : Type 0} (before : Streams F W) where
  record Undoes (n : ℕ) (s : Streams F W) (saved : RedirSaved F) : Type 0 where
    orig_is : (i : ℕ) → saved.orig i ≡ before.stream i
    untouched : (i : ℕ) → saved.touched i ≡ false → s.stream i ≡ before.stream i
    files : s.open_files ≡ before.open_files + length saved.opened
    room : length saved.opened + n ≤ 8

  -- The streams and the open files are those of before.
  pub record IsUndone (s : Streams F W) : Type 0 where
    pub streams_are : (i : ℕ) → s.stream i ≡ before.stream i
    pub files_are : s.open_files ≡ before.open_files

  restore-IsUndone :
      (n : ℕ) (s : Streams F W) (saved : RedirSaved F)
      → Undoes n s saved
      → IsUndone (redir_restore s saved).0
  unfolding redir_restore
  restore-IsUndone n s saved h = record {
    streams_are = λ i. go i (saved.touched i) refl;
    files_are = omega (arith, h.files);
  }
    where
      go :
          (i : ℕ) (b : Bool)
          → saved.touched i ≡ b
          → (if b then saved.orig i else s.stream i) ≡ before.stream i
      go i true e = h.orig_is i
      go i false e = h.untouched i e

  data Good (n : ℕ) : Redirected F W → Type 0 where
    good : {s : Streams F W} {saved : RedirSaved F} → Undoes n s saved → Good n (redirected s saved)
    undone : {s : Streams F W} → IsUndone s → Good n (refused s)

  put_untouched :
      (fd i : ℕ) (f : F) (s : Streams F W) (saved : RedirSaved F)
      → ((j : ℕ) → saved.touched j ≡ false → s.stream j ≡ before.stream j)
      → put_at fd true saved.touched i ≡ false
      → put_at fd f s.stream i ≡ before.stream i
  put_untouched fd i f s saved h = go (i == fd)
    where
      go :
          (b : Bool)
          → (if b then true else saved.touched i) ≡ false
          → (if b then f else s.stream i) ≡ before.stream i
      go true e = absurd (cc e)
      go false e = h i e

  use_file-Good :
      (n fd : ℕ) (s : Streams F W) (saved : RedirSaved F) (r : Option F × W)
      → Undoes (suc n) s saved
      → Good n (use_file fd s saved r)
  use_file-Good n fd s saved (none, w) h = undone (
      restore-IsUndone (suc n) (record s { world = w }) saved
        (record { orig_is = h.orig_is; untouched = h.untouched; files = h.files; room = h.room }))
  use_file-Good n fd s saved (some f, w) h = good (record {
    orig_is = h.orig_is;
    untouched = λ i. put_untouched fd i f s saved h.untouched;
    files = omega (arith, h.files, longer);
    room = omega (arith, h.room, longer);
  })
    where
      longer :
          length (if ltb (length saved.opened) 8 then saved.opened ++ f ∷ [] else saved.opened)
          ≡ length saved.opened + 1
      longer =
          let e : ltb (length saved.opened) 8 ≡ true = ground (arith, h.room) in
          rw e (length-append saved.opened (f ∷ []))

  share-Good :
      (n fd dupfd : ℕ) (s : Streams F W) (saved : RedirSaved F)
      → Undoes (suc n) s saved
      → Good n (share fd dupfd s saved)
  share-Good n fd dupfd s saved h =
      if_both (Good n) (has_slot dupfd) _ _
        (good (record {
          orig_is = h.orig_is;
          untouched = λ i. put_untouched fd i (s.stream dupfd) s saved h.untouched;
          files = h.files;
          room = omega (arith, h.room);
        }))
        (undone (restore-IsUndone (suc n) s saved h))

  module _ (fopen : Bytes → OpenMode → W → Option F × W) where
    redir_op-Good :
        (n : ℕ) (op : RedirOp) (it : RedirItem) (s : Streams F W) (saved : RedirSaved F)
        → Undoes (suc n) s saved
        → Good n (redir_op fopen op it s saved)
    redir_op-Good n rd_in it s saved h = use_file-Good n it.fd s saved _ h
    redir_op-Good n rd_out it s saved h = use_file-Good n it.fd s saved _ h
    redir_op-Good n rd_append it s saved h = use_file-Good n it.fd s saved _ h
    redir_op-Good n rd_close it s saved h = use_file-Good n it.fd s saved _ h
    redir_op-Good n rd_dup it s saved h = share-Good n it.fd it.dupfd s saved h

    redir_item-Good :
        (n : ℕ) (it : RedirItem) (s : Streams F W) (saved : RedirSaved F)
        → Undoes (suc n) s saved
        → Good n (redir_item fopen it s saved)
    redir_item-Good n it s saved h =
        if_both (Good n) (has_slot it.fd) _ _ (redir_op-Good n it.op it s saved h)
          (undone (restore-IsUndone (suc n) s saved h))

    redir_next-Good :
        (n : ℕ) (later : Streams F W → RedirSaved F → Redirected F W) (r : Redirected F W)
        → Good n r
        → ((s : Streams F W) (saved : RedirSaved F) → Undoes n s saved → Good 0 (later s saved))
        → Good 0 (redir_next fopen later r)
    redir_next-Good n later (redirected s saved) (good h) k = k s saved h
    redir_next-Good n later (refused s) (undone h) k = undone h

    redir_loop-Good :
        (items : List RedirItem) (s : Streams F W) (saved : RedirSaved F)
        → Undoes (length items) s saved
        → Good 0 (redir_loop fopen items s saved)
    unfolding redir_loop
    redir_loop-Good [] s saved h = good h
    redir_loop-Good (it ∷ items) s saved h =
        redir_next-Good (length items) (redir_loop fopen items) (redir_item fopen it s saved)
          (redir_item-Good (length items) it s saved h) (redir_loop-Good items)

  finish-IsUndone : (r : Redirected F W) → Good 0 r → IsUndone (finish r)
  finish-IsUndone (redirected s saved) (good h) = restore-IsUndone 0 s saved h
  finish-IsUndone (refused s) (undone h) = h

-- At most eight redirections, applied and then restored, or refused on the way, leave the three
-- streams as they were and no more files open than before, whatever fopen answers.
pub redir_apply-IsUndone :
    {F W : Type 0} (fopen : Bytes → OpenMode → W → Option F × W) (items : List RedirItem)
    (s : Streams F W)
    → length items ≤ 8
    → IsUndone s (finish (redir_apply fopen items s))
unfolding redir_apply
redir_apply-IsUndone fopen items s h = finish-IsUndone s _ (
    redir_loop-Good s fopen items s (start_saved s) (record {
      orig_is = λ i. refl;
      untouched = λ i e. refl;
      files = omega arith;
      room = omega (arith, h);
    }))
