-- ===== src/Shell/State/Functions.antt =====
-- Looking up functions and shifting positional parameters in
-- src/components/breezybox/shell/sh_state.c.
use breezybox.Prelude.{
  ℕ, zero, suc, ◌+◌, ◌≡◌, refl, true, false, if◌then◌else◌, ltb, Bytes, str_eq, str_eq_iff, ℤ, pos,
  negsuc, Option, none, some, List, [], ◌∷◌, length, drop, get_elem?, arith, ap, ◌∙◌, Bool-cases,
  inl, inr,
}
use breezybox.Shell.State.Named.{
  find, changed, IsDistinct, str_eq_refl, find-update_self, find-update_other, find-remove_self,
  find-remove_other,
}
use breezybox.Shell.State.Vars.{
  State, Func, func_find, define_found, func_define, func_removed, func_unset, shift_by,
  shift_positional,
}

abbrev pub body_of : {Body : Type 0} → Option (Func Body) → Option Body
body_of none = none
body_of (some f) = some f.body

get_elem?-drop : (n i : ℕ) (l : List Bytes) → get_elem? (drop n l) i ≡ get_elem? l (n + i)
get_elem?-drop zero i l = ap (get_elem? l) (omega arith)
get_elem?-drop (suc n) i [] = refl
get_elem?-drop (suc n) i (x ∷ l) = get_elem?-drop n i l ∙ ap (get_elem? (x ∷ l)) (suc_add n i)
  where
    suc_add : (n i : ℕ) → suc (n + i) ≡ suc n + i
    suc_add n i = omega arith

-- A negative number shifts by none.
abbrev pub shift_of : ℤ → ℕ
shift_of (pos n) = n
shift_of (negsuc n) = 0

module _ {Body : Type 0} where
  func_find-define_self :
      (st : State Body) (n : Bytes) (b : Body) → body_of (func_find (func_define st n b) n) ≡ some b
  unfolding func_define
  func_find-define_self st n b = go (func_find st n) refl
    where
      go :
          (o : Option (Func Body))
          → func_find st n ≡ o
          → body_of (func_find (define_found st n b o) n) ≡ some b
      go none e = unfold func_find find in rw (str_eq_refl n) refl
      go (some old) e =
          unfold func_find in
          ap body_of (
            find-update_self (λ (f : Func Body). f.name) n (λ f. record f { body = b }) st.funcs
              (λ f. refl)
            ∙ ap (changed (λ (f : Func Body). f.name) (λ f. record f { body = b })) e)

  func_find-define_other :
      (st : State Body) (n : Bytes) (b : Body) (m : Bytes)
      → str_eq n m ≡ false
      → func_find (func_define st n b) m ≡ func_find st m
  unfolding func_define
  func_find-define_other st n b m h = go (func_find st n)
    where
      go : (o : Option (Func Body)) → func_find (define_found st n b o) m ≡ func_find st m
      go none = unfold func_find find in rw h refl
      go (some old) =
          unfold func_find in
          find-update_other (λ (f : Func Body). f.name) n m (λ f. record f { body = b }) st.funcs
            (λ f. refl) h

  -- A name has after a definition the body it was given, and every other name the one it had.
  pub func_find-define :
      (st : State Body) (n : Bytes) (b : Body) (m : Bytes)
      → body_of (func_find (func_define st n b) m)
        ≡ (if str_eq n m then some b else body_of (func_find st m))
  func_find-define st n b m = elim (Bool-cases (str_eq n m)) [
    | inl e ↦ rw e (rw (← (str_eq_iff n m).0 e) (func_find-define_self st n b))
    | inr e ↦ rw e (ap body_of (func_find-define_other st n b m e))
  ]

  -- Of functions with distinct names one that is unset is found no longer, every other one is, and
  -- the result is 1 exactly where there was one.
  pub func_find-unset :
      (st : State Body) (n m : Bytes)
      → IsDistinct (λ (f : Func Body). f.name) st.funcs
      → (func_find (func_unset st n).0 m ≡ (if str_eq n m then none else func_find st m))
        × ((func_unset st n).1 ≡ (elim (func_find st n) [ none ↦ 0 | some _ ↦ 1 ]))
  unfolding func_unset
  func_find-unset st n m d = go (func_find st n) refl
    where
      found :
          (e : str_eq n m ≡ true) {o : Option (Func Body)} → func_find st n ≡ o → func_find st m ≡ o
      found e k = rw (← (str_eq_iff n m).0 e) k

      go :
          (o : Option (Func Body))
          → func_find st n ≡ o
          → (func_find (func_removed st n o).0 m ≡ (if str_eq n m then none else func_find st m))
            × ((func_removed st n o).1 ≡ (elim o [ none ↦ 0 | some _ ↦ 1 ]))
      go none k = elim (Bool-cases (str_eq n m)) [
        | inl e ↦ (rw e (found e k), refl)
        | inr e ↦ (rw e refl, refl)
      ]
      go (some dead) k = elim (Bool-cases (str_eq n m)) [
        | inl e ↦ (
          rw e (
              rw (← (str_eq_iff n m).0 e)
                (unfold func_find in find-remove_self (λ (f : Func Body). f.name) n st.funcs d)),
          refl,
        )
        | inr e ↦ (
          rw e (unfold func_find in find-remove_other (λ (f : Func Body). f.name) n m st.funcs e),
          refl,
        )
      ]

  -- What is found in the parameters behind a shift by `n`, the rest of the state, and the result.
  abbrev Shifted : State Body → ℕ → ℕ → State Body × ℕ → Type 0
  Shifted st n i (st', code) =
      (get_elem? st'.params i ≡ get_elem? st.params (if ltb (length st.params) n then i else n + i))
      × (st' ≡ record st { params = st'.params })
      × (code ≡ (if ltb (length st.params) n then 1 else 0))

  shift_by_lem : (st : State Body) (n i : ℕ) → Shifted st n i (shift_by st n)
  shift_by_lem st n i = elim (Bool-cases (ltb (length st.params) n)) [
    | inl e ↦ rw e (refl, refl, refl)
    | inr e ↦ rw e (get_elem?-drop n i st.params, refl, refl)
  ]

  -- After a shift by no more than there are parameters each parameter is the one that was so many
  -- behind it, and the result is 0; where there are fewer, they stay and the result is 1. Nothing
  -- else changes, and a negative number shifts by none.
  pub shift_positional_lem :
      (st : State Body) (k : ℤ) (i : ℕ)
      → let n = shift_of k in
        let after = shift_positional st k in
        (get_elem? after.0.params i
          ≡ get_elem? st.params (if ltb (length st.params) n then i else n + i))
        × (after.0 ≡ record st { params = after.0.params })
        × (after.1 ≡ (if ltb (length st.params) n then 1 else 0))
  unfolding shift_positional
  shift_positional_lem st (pos n) i = shift_by_lem st n i
  shift_positional_lem st (negsuc n) i = shift_by_lem st 0 i
