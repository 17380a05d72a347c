-- ===== src/Shell/State/Lookup.antt =====
-- What a variable's value is after each of the operations of
-- src/components/breezybox/shell/sh_state.c on variables.
use breezybox.Prelude.{
  ◌≡◌, refl, Bool, true, false, if◌then◌else◌, Bytes, str_eq, str_eq_iff, Option, none, some, List,
  [], ap, ◌∙◌, Bool-cases, inl, inr,
}
use breezybox.Shell.State.Named.{
  find, changed, IsDistinct, str_eq_refl, find-update_self, find-update_other, find-remove_self,
  find-remove_other, update-IsDistinct, remove-IsDistinct,
}
use breezybox.Shell.State.Vars.{
  Var, State, value_of, find_var, get_var, set_found, set_var, mark_exported, export_found,
  export_var, unset_found, unset_var,
}

-- No two variables have a name in common.
abbrev pub HasDistinct : {Body : Type 0} → State Body → Type 0
HasDistinct st = IsDistinct (λ (v : Var). v.name) st.vars

abbrev pub with_value : Bytes → Var → Var
with_value v x = record x { value = v }

abbrev pub with_export : Var → Var
with_export x = record x { exported = true }

-- the variable that an assignment leaves
abbrev pub assigned : Bytes → Bytes → Option Var → Var
assigned n v none = record { name = n; value = v; exported = false }
assigned n v (some old) = record old { value = v }

-- Marking keeps the values.
mark_exported-value :
    (n m : Bytes) (vars : List Var)
    → value_of (find (λ (x : Var). x.name) m (mark_exported n vars))
      ≡ value_of (find (λ (x : Var). x.name) m vars)
mark_exported-value n m vars = elim (Bool-cases (str_eq n m)) [
  | inl e ↦ rw ((str_eq_iff n m).0 e) (
      ap value_of (find-update_self (λ (x : Var). x.name) m with_export vars (λ x. refl))
      ∙ same (find (λ (x : Var). x.name) m vars))
  | inr e ↦ ap value_of (find-update_other (λ (x : Var). x.name) n m with_export vars (λ x. refl) e)
]
  where
    same : (o : Option Var) → value_of (changed (λ (x : Var). x.name) with_export o) ≡ value_of o
    same none = refl
    same (some x) = refl

-- A variable that is exported before it has a value gets the empty one.
abbrev pub or_empty : Option Bytes → Option Bytes
or_empty none = some []
or_empty (some v) = some v

then_value :
    (b : Bool) (x y z : Option Bytes)
    → (b ≡ true → x ≡ z)
    → (if b then x else y) ≡ (if b then z else y)
then_value true x y z h = h refl
then_value false x y z h = refl

else_value : (b : Bool) (y z : Option Bytes) → (b ≡ true → y ≡ z) → y ≡ (if b then z else y)
else_value true y z h = h refl
else_value false y z h = refl

module _ {Body : Type 0} where
  pub find_var-set_self :
      (st : State Body) (n v : Bytes)
      → find_var (set_var st n v) n ≡ some (assigned n v (find_var st n))
  unfolding set_var
  find_var-set_self st n v = go (find_var st n) refl
    where
      go :
          (o : Option Var)
          → find_var st n ≡ o
          → find_var (set_found st n v o) n ≡ some (assigned n v o)
      go none e = unfold find_var find in rw (str_eq_refl n) refl
      go (some old) e =
          unfold find_var in
          (find-update_self (λ (x : Var). x.name) n (with_value v) st.vars (λ x. refl)
            ∙ ap (changed (λ (x : Var). x.name) (with_value v)) e)

  pub find_var-set_other :
      (st : State Body) (n v m : Bytes)
      → str_eq n m ≡ false
      → find_var (set_var st n v) m ≡ find_var st m
  unfolding set_var
  find_var-set_other st n v m h = go (find_var st n)
    where
      go : (o : Option Var) → find_var (set_found st n v o) m ≡ find_var st m
      go none = unfold find_var find in rw h refl
      go (some old) =
          unfold find_var in
          find-update_other (λ (x : Var). x.name) n m (with_value v) st.vars (λ x. refl) h

  pub find_var-unset_self :
      (st : State Body) (n : Bytes) → HasDistinct st → find_var (unset_var st n) n ≡ none
  unfolding unset_var
  find_var-unset_self st n d = go (find_var st n) refl
    where
      go : (o : Option Var) → find_var st n ≡ o → find_var (unset_found st n o) n ≡ none
      go none e = e
      go (some dead) e = unfold find_var in find-remove_self (λ (x : Var). x.name) n st.vars d

  pub find_var-unset_other :
      (st : State Body) (n m : Bytes)
      → str_eq n m ≡ false
      → find_var (unset_var st n) m ≡ find_var st m
  unfolding unset_var
  find_var-unset_other st n m h = go (find_var st n)
    where
      go : (o : Option Var) → find_var (unset_found st n o) m ≡ find_var st m
      go none = refl
      go (some dead) = unfold find_var in find-remove_other (λ (x : Var). x.name) n m st.vars h

  pub get_var-set_var :
      (st : State Body) (n v m : Bytes)
      → get_var (set_var st n v) m ≡ (if str_eq n m then some v else get_var st m)
  unfolding get_var
  get_var-set_var st n v m = elim (Bool-cases (str_eq n m)) [
    | inl e ↦ rw e (
        rw (← (str_eq_iff n m).0 e) (ap value_of (find_var-set_self st n v) ∙ same (find_var st n)))
    | inr e ↦ rw e (ap value_of (find_var-set_other st n v m e))
  ]
    where
      same : (o : Option Var) → some (assigned n v o).value ≡ some v
      same none = refl
      same (some x) = refl

  pub get_var-unset_var :
      (st : State Body) (n m : Bytes)
      → HasDistinct st
      → get_var (unset_var st n) m ≡ (if str_eq n m then none else get_var st m)
  unfolding get_var
  get_var-unset_var st n m d = elim (Bool-cases (str_eq n m)) [
    | inl e ↦ rw e (rw (← (str_eq_iff n m).0 e) (ap value_of (find_var-unset_self st n d)))
    | inr e ↦ rw e (ap value_of (find_var-unset_other st n m e))
  ]

  pub get_var-export_var :
      (st : State Body) (n m : Bytes)
      → get_var (export_var st n) m ≡ (if str_eq n m then or_empty (get_var st m) else get_var st m)
  unfolding export_var
  get_var-export_var st n m = go (find_var st n) refl
    where
      found : {o : Option Var} → str_eq n m ≡ true → find_var st n ≡ o → get_var st m ≡ value_of o
      found h e = rw (← (str_eq_iff n m).0 h) (unfold get_var in ap value_of e)

      go :
          (o : Option Var)
          → find_var st n ≡ o
          → get_var (export_found st n o) m
            ≡ (if str_eq n m then or_empty (get_var st m) else get_var st m)
      go none e =
          unfold get_var find_var in
          mark_exported-value n m (set_var st n []).vars
          ∙ get_var-set_var st n [] m
          ∙ then_value (str_eq n m) (some []) (get_var st m) (or_empty (get_var st m))
              (λ h. rw (found h e) refl)
      go (some old) e =
          unfold get_var find_var in
          mark_exported-value n m st.vars
          ∙ else_value (str_eq n m) (get_var st m) (or_empty (get_var st m))
              (λ h. rw (found h e) refl)

  pub set_var-HasDistinct :
      (st : State Body) (n v : Bytes) → HasDistinct st → HasDistinct (set_var st n v)
  unfolding set_var
  set_var-HasDistinct st n v d = go (find_var st n) refl
    where
      go : (o : Option Var) → find_var st n ≡ o → HasDistinct (set_found st n v o)
      go none e = unfold find_var IsDistinct in (e, d)
      go (some old) e =
          update-IsDistinct (λ (x : Var). x.name) n (with_value v) st.vars (λ x. refl) d

  pub unset_var-HasDistinct :
      (st : State Body) (n : Bytes) → HasDistinct st → HasDistinct (unset_var st n)
  unfolding unset_var
  unset_var-HasDistinct st n d = go (find_var st n)
    where
      go : (o : Option Var) → HasDistinct (unset_found st n o)
      go none = d
      go (some dead) = remove-IsDistinct (λ (x : Var). x.name) n st.vars d

  pub export_var-HasDistinct :
      (st : State Body) (n : Bytes) → HasDistinct st → HasDistinct (export_var st n)
  unfolding export_var
  export_var-HasDistinct st n d = go (find_var st n)
    where
      go : (o : Option Var) → HasDistinct (export_found st n o)
      go none =
          update-IsDistinct (λ (x : Var). x.name) n with_export (set_var st n []).vars (λ x. refl)
            (set_var-HasDistinct st n [] d)
      go (some old) = update-IsDistinct (λ (x : Var). x.name) n with_export st.vars (λ x. refl) d
