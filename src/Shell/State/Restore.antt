-- ===== src/Shell/State/Restore.antt =====
-- What `sh_scope_pop` of src/components/breezybox/shell/sh_state.c brings back from a frame.
use breezybox.Prelude.{
  ◌≡◌, refl, if◌then◌else◌, Bytes, str_eq, Option, none, some, List, [], ◌∷◌, ◌++◌, ap, ◌∙◌,
}
use breezybox.Shell.State.Vars.{
  Var, State, Saved, get_var, find_var, set_found, set_var, unset_found, unset_var, export_found,
  export_var,
}
use breezybox.Shell.State.Lookup.{
  HasDistinct, get_var-set_var, get_var-unset_var, set_var-HasDistinct, unset_var-HasDistinct,
}
use breezybox.Shell.State.Scopes.{put_back, restore}

-- What a frame brings back: the last entry of the name counts, which was made first.
unfoldable pub oldest : List Saved → Bytes → Option Bytes → Option Bytes
oldest [] m d = d
oldest (sv ∷ saved) m d = oldest saved m (if str_eq sv.name m then sv.prior else d)

pub oldest-append :
    (xs ys : List Saved) (m : Bytes) (d : Option Bytes)
    → oldest (xs ++ ys) m d ≡ oldest ys m (oldest xs m d)
unfolding oldest
oldest-append [] ys m d = refl
oldest-append (sv ∷ xs) ys m d = oldest-append xs ys m (if str_eq sv.name m then sv.prior else d)

module _ {Body : Type 0} where
  pub scopes-set_var : (st : State Body) (n v : Bytes) → (set_var st n v).scopes ≡ st.scopes
  unfolding set_var
  scopes-set_var st n v = go (find_var st n)
    where
      go : (o : Option Var) → (set_found st n v o).scopes ≡ st.scopes
      go none = refl
      go (some x) = refl

  pub scopes-unset_var : (st : State Body) (n : Bytes) → (unset_var st n).scopes ≡ st.scopes
  unfolding unset_var
  scopes-unset_var st n = go (find_var st n)
    where
      go : (o : Option Var) → (unset_found st n o).scopes ≡ st.scopes
      go none = refl
      go (some x) = refl

  pub scopes-export_var : (st : State Body) (n : Bytes) → (export_var st n).scopes ≡ st.scopes
  unfolding export_var
  scopes-export_var st n = go (find_var st n)
    where
      go : (o : Option Var) → (export_found st n o).scopes ≡ st.scopes
      go none = scopes-set_var st n []
      go (some x) = refl

  pub scopes-put_back :
      (st : State Body) (n : Bytes) (o : Option Bytes) → (put_back st n o).scopes ≡ st.scopes
  scopes-put_back st n none = scopes-unset_var st n
  scopes-put_back st n (some v) = scopes-set_var st n v

  pub scopes-restore :
      (saved : List Saved) (st : State Body) → (restore saved st).scopes ≡ st.scopes
  unfolding restore
  scopes-restore [] st = refl
  scopes-restore (sv ∷ saved) st =
      scopes-restore saved (put_back st sv.name sv.prior) ∙ scopes-put_back st sv.name sv.prior

  pub put_back-HasDistinct :
      (st : State Body) (n : Bytes) (o : Option Bytes)
      → HasDistinct st
      → HasDistinct (put_back st n o)
  put_back-HasDistinct st n none d = unset_var-HasDistinct st n d
  put_back-HasDistinct st n (some v) d = set_var-HasDistinct st n v d

  pub restore-HasDistinct :
      (saved : List Saved) (st : State Body) → HasDistinct st → HasDistinct (restore saved st)
  unfolding restore
  restore-HasDistinct [] st d = d
  restore-HasDistinct (sv ∷ saved) st d =
      restore-HasDistinct saved (put_back st sv.name sv.prior)
        (put_back-HasDistinct st sv.name sv.prior d)

  pub get_var-put_back :
      (st : State Body) (n : Bytes) (o : Option Bytes) (m : Bytes)
      → HasDistinct st
      → get_var (put_back st n o) m ≡ (if str_eq n m then o else get_var st m)
  get_var-put_back st n none m d = get_var-unset_var st n m d
  get_var-put_back st n (some v) m d = get_var-set_var st n v m

  pub get_var-restore :
      (saved : List Saved) (st : State Body) (m : Bytes)
      → HasDistinct st
      → get_var (restore saved st) m ≡ oldest saved m (get_var st m)
  unfolding restore oldest
  get_var-restore [] st m d = refl
  get_var-restore (sv ∷ saved) st m d =
      get_var-restore saved (put_back st sv.name sv.prior) m
        (put_back-HasDistinct st sv.name sv.prior d)
      ∙ ap (oldest saved m) (get_var-put_back st sv.name sv.prior m d)
