-- ===== src/Shell/State/Mirror.antt =====
-- The environment follows the exported variables of src/components/breezybox/shell/sh_state.c.
use breezybox.Prelude.{
  ◌≡◌, refl, sym, Bool, true, false, if◌then◌else◌, Bytes, str_eq, str_eq_iff, Option, none, some,
  List, [], ◌∷◌, ap, subst, ◌∙◌, ◌⊎◌, inl, inr, Bool-cases,
}
use breezybox.Shell.State.Named.{find, changed, str_eq_refl, find-update_self, find-update_other}
use breezybox.Shell.State.Vars.{
  Var, State, Saved, setenv, unsetenv, find_var, set_found, set_var, mark_exported, unset_found,
  unset_var, export_found, export_var,
}
use breezybox.Shell.State.Lookup.{
  HasDistinct, assigned, with_export, find_var-set_self, find_var-set_other, find_var-unset_self,
  find_var-unset_other, set_var-HasDistinct, unset_var-HasDistinct, export_var-HasDistinct,
}
use breezybox.Shell.State.Scopes.{
  scope_push, put_back, restore, pop_from, scope_pop, local_in, declare_local, Commands, skip,
  assign, export, unset, local, seq, call, run,
}

-- the variable of a result that has one
abbrev the_var : Var → Option Var → Var
the_var d none = d
the_var d (some x) = x

-- the variable that an export leaves
abbrev or_empty_var : Bytes → Option Var → Var
or_empty_var n none = record { name = n; value = []; exported = true }
or_empty_var n (some old) = record old { exported = true }

module _ {Body : Type 0} where
  -- The environment has the value of each exported variable, those that were exported without a
  -- value and are empty apart.
  abbrev pub IsMirrored : State Body → Type 0
  IsMirrored st =
      (m : Bytes) (x : Var)
      → find_var st m ≡ some x
      → x.exported ≡ true
      → (st.environment m ≡ some x.value) ⊎ (x.value ≡ [])

  -- The names of the variables are distinct and the environment follows them.
  abbrev pub IsSound : State Body → Type 0
  IsSound st = HasDistinct st × IsMirrored st

  -- A change of one name keeps the environment in step if it does so at that name.
  IsMirrored-at :
      (st after : State Body) (n : Bytes)
      → IsMirrored st
      → ((m : Bytes) → str_eq n m ≡ false → find_var after m ≡ find_var st m)
      → ((m : Bytes) → str_eq n m ≡ false → after.environment m ≡ st.environment m)
      → ((x : Var)
          → find_var after n ≡ some x
          → x.exported ≡ true
          → (after.environment n ≡ some x.value) ⊎ (x.value ≡ []))
      → IsMirrored after
  IsMirrored-at st after n h vars env self m x f ex = elim (Bool-cases (str_eq n m)) [
    | inl e ↦
        subst (λ k. (after.environment k ≡ some x.value) ⊎ (x.value ≡ [])) ((str_eq_iff n m).0 e)
          (self x (rw ((str_eq_iff n m).0 e) f) ex)
    | inr e ↦ rw (env m e) (h m x (sym (vars m e) ∙ f) ex)
  ]

  pub set_var-IsMirrored :
      (st : State Body) (n v : Bytes) → IsMirrored st → IsMirrored (set_var st n v)
  set_var-IsMirrored st n v h =
      IsMirrored-at st (set_var st n v) n h (λ m e. find_var-set_other st n v m e)
        (λ m e. unfold set_var in env_other m e (find_var st n))
        (λ x f ex.
          unfold set_var in env_self x (find_var st n) (sym (find_var-set_self st n v) ∙ f) ex)
    where
      env_other :
          (m : Bytes)
          → str_eq n m ≡ false
          → (o : Option Var) → (set_found st n v o).environment m ≡ st.environment m
      env_other m e none = refl
      env_other m e (some old) = go old.exported
        where
          go :
              (b : Bool)
              → (if b then setenv n v st.environment else st.environment) m ≡ st.environment m
          go true = rw e
          go false = refl

      env_self :
          (x : Var) (o : Option Var)
          → some (assigned n v o) ≡ some x
          → x.exported ≡ true
          → ((set_found st n v o).environment n ≡ some x.value) ⊎ (x.value ≡ [])
      env_self x none e ex = cc (ap (λ o. (the_var x o).exported) e ∙ ex)
      env_self x (some old) e ex = inl (
          rw (ap (λ o. (the_var x o).exported) e ∙ ex, str_eq_refl n)
            (ap (λ o. some (the_var x o).value) e))

  unset_var-IsMirrored :
      (st : State Body) (n : Bytes) → HasDistinct st → IsMirrored st → IsMirrored (unset_var st n)
  unset_var-IsMirrored st n d h =
      IsMirrored-at st (unset_var st n) n h (λ m e. find_var-unset_other st n m e)
        (λ m e. unfold unset_var in env_other m e (find_var st n))
        (λ x f ex. cc (find_var-unset_self st n d, f))
    where
      env_other :
          (m : Bytes)
          → str_eq n m ≡ false
          → (o : Option Var) → (unset_found st n o).environment m ≡ st.environment m
      env_other m e none = refl
      env_other m e (some old) = go old.exported
        where
          go :
              (b : Bool)
              → (if b then unsetenv n st.environment else st.environment) m ≡ st.environment m
          go true = rw e
          go false = refl

  find_var-export_self :
      (st : State Body) (n : Bytes)
      → find_var (export_var st n) n ≡ some (or_empty_var n (find_var st n))
  unfolding export_var
  find_var-export_self st n = go (find_var st n) refl
    where
      marked :
          (l : List Var) {o : Option Var}
          → find (λ (x : Var). x.name) n l ≡ o
          → find (λ (x : Var). x.name) n (mark_exported n l)
            ≡ changed (λ (x : Var). x.name) with_export o
      marked l e =
          find-update_self (λ (x : Var). x.name) n with_export l (λ x. refl)
          ∙ ap (changed (λ (x : Var). x.name) with_export) e

      go :
          (o : Option Var)
          → find_var st n ≡ o
          → find_var (export_found st n o) n ≡ some (or_empty_var n o)
      go none e =
          unfold find_var in
          marked (set_var st n []).vars
            (find_var-set_self st n [] ∙ ap (λ o. some (assigned n [] o)) e)
      go (some old) e = unfold find_var in marked st.vars e

  find_var-export_other :
      (st : State Body) (n m : Bytes)
      → str_eq n m ≡ false
      → find_var (export_var st n) m ≡ find_var st m
  unfolding export_var
  find_var-export_other st n m h = go (find_var st n)
    where
      go : (o : Option Var) → find_var (export_found st n o) m ≡ find_var st m
      go none =
          unfold find_var in
          (find-update_other (λ (x : Var). x.name) n m with_export (set_var st n []).vars
              (λ x. refl) h
            ∙ find_var-set_other st n [] m h)
      go (some old) =
          unfold find_var in
          find-update_other (λ (x : Var). x.name) n m with_export st.vars (λ x. refl) h

  pub export_var-IsMirrored :
      (st : State Body) (n : Bytes) → IsMirrored st → IsMirrored (export_var st n)
  export_var-IsMirrored st n h =
      IsMirrored-at st (export_var st n) n h (find_var-export_other st n)
        (λ m e. unfold export_var in env_other m e (find_var st n) refl)
        (λ x f ex.
          unfold export_var in
          env_self x (find_var st n) refl (sym (find_var-export_self st n) ∙ f))
    where
      unchanged :
          (m : Bytes) → find_var st n ≡ none → (set_var st n []).environment m ≡ st.environment m
      unchanged m e = unfold set_var in ap (λ o. (set_found st n [] o).environment m) e

      env_other :
          (m : Bytes)
          → str_eq n m ≡ false
          → (o : Option Var) → find_var st n ≡ o
          → (export_found st n o).environment m ≡ st.environment m
      env_other m e none k = unchanged m k
      env_other m e (some old) k = rw e

      env_self :
          (x : Var) (o : Option Var)
          → find_var st n ≡ o
          → some (or_empty_var n o) ≡ some x
          → ((export_found st n o).environment n ≡ some x.value) ⊎ (x.value ≡ [])
      env_self x none k e = inr (sym (ap (λ o. (the_var x o).value) e))
      env_self x (some old) k e = inl (rw (str_eq_refl n) (ap (λ o. some (the_var x o).value) e))

  -- Of a state only its variables and the environment count.
  put_back-IsSound :
      (st : State Body) (n : Bytes) (o : Option Bytes) → IsSound st → IsSound (put_back st n o)
  put_back-IsSound st n none h = (unset_var-HasDistinct st n h.0, unset_var-IsMirrored st n h.0 h.1)
  put_back-IsSound st n (some v) h = (set_var-HasDistinct st n v h.0, set_var-IsMirrored st n v h.1)

  restore-IsSound : (saved : List Saved) (st : State Body) → IsSound st → IsSound (restore saved st)
  unfolding restore
  restore-IsSound [] st h = h
  restore-IsSound (sv ∷ saved) st h =
      restore-IsSound saved (put_back st sv.name sv.prior) (put_back-IsSound st sv.name sv.prior h)

  scopes-IsSound :
      (st : State Body) (scopes : List (List Saved))
      → IsSound st
      → IsSound (record st { scopes = scopes })
  unfolding find_var
  scopes-IsSound st scopes h = h

  scope_pop-IsSound : (st : State Body) → IsSound st → IsSound (scope_pop st)
  unfolding scope_pop
  scope_pop-IsSound st h = go st.scopes
    where
      go : (scopes : List (List Saved)) → IsSound (pop_from st scopes)
      go [] = h
      go (saved ∷ scopes) = restore-IsSound saved _ (scopes-IsSound st scopes h)

  declare_local-IsSound :
      (st : State Body) (n : Bytes) (v : Option Bytes)
      → IsSound st
      → IsSound (declare_local st n v).0
  unfolding declare_local
  declare_local-IsSound st n v h = go v st.scopes
    where
      go : (v : Option Bytes) (scopes : List (List Saved)) → IsSound (local_in st n v scopes).0
      go v [] = h
      go none (saved ∷ scopes) = scopes-IsSound st _ h
      go (some v) (saved ∷ scopes) = put_back-IsSound _ n (some v) (scopes-IsSound st _ h)

  -- Whatever commands and calls are run, the names of the variables stay distinct and every exported
  -- variable has its value in the environment, or is empty.
  pub run-IsSound : (b : Commands) (st : State Body) → IsSound st → IsSound (run b st)
  unfolding run scope_push
  run-IsSound skip st h = h
  run-IsSound (assign n v) st h = put_back-IsSound st n (some v) h
  run-IsSound (export n) st h = (export_var-HasDistinct st n h.0, export_var-IsMirrored st n h.1)
  run-IsSound (unset n) st h = put_back-IsSound st n none h
  run-IsSound (local n v) st h = declare_local-IsSound st n v h
  run-IsSound (seq a b) st h = run-IsSound b (run a st) (run-IsSound a st h)
  run-IsSound (call b) st h =
      scope_pop-IsSound _ (run-IsSound b (scope_push st) (scopes-IsSound st _ h))
