-- ===== src/Shell/State/Named.antt =====
-- The linked lists of src/components/breezybox/shell/sh_state.c whose entries have a name: the first
-- entry of a name is found, changed or taken out.
use breezybox.Prelude.{
  ◌≡◌, refl, true, false, if◌then◌else◌, Bytes, str_eq, str_eq_iff, Option, none, some, List, [],
  ◌∷◌, ap, ◌∙◌, Bool-cases, inl, inr,
}

module _ {A : Type 0} (name : A → Bytes) where
  unfoldable pub find : Bytes → List A → Option A
  find n [] = none
  find n (x ∷ l) = if str_eq (name x) n then some x else find n l

  unfoldable pub update : Bytes → (A → A) → List A → List A
  update n f [] = []
  update n f (x ∷ l) = if str_eq (name x) n then f x ∷ l else x ∷ update n f l

  unfoldable pub remove : Bytes → List A → List A
  remove n [] = []
  remove n (x ∷ l) = if str_eq (name x) n then l else x ∷ remove n l

  -- No two entries have a name in common.
  unfoldable pub IsDistinct : List A → Type 0
  unfolding find
  IsDistinct [] = Unit
  IsDistinct (x ∷ l) = (find (name x) l ≡ none) × IsDistinct l

  abbrev pub changed : (A → A) → Option A → Option A
  changed f none = none
  changed f (some x) = some (f x)

pub str_eq_refl : (a : Bytes) → str_eq a a ≡ true
str_eq_refl a = (str_eq_iff a a).1 refl

-- A byte string that is one name is another one only if the two are.
pub str_eq_trans : (a b c : Bytes) → str_eq a b ≡ true → str_eq a c ≡ str_eq b c
str_eq_trans a b c e = ap (λ x. str_eq x c) ((str_eq_iff a b).0 e)

module _ {A : Type 0} (name : A → Bytes) where
  pub find-update_other :
      (n m : Bytes) (f : A → A) (l : List A)
      → ((x : A) → name (f x) ≡ name x)
      → str_eq n m ≡ false
      → find name m (update name n f l) ≡ find name m l
  unfolding find update
  find-update_other n m f [] keeps h = refl
  find-update_other n m f (x ∷ l) keeps h = elim (Bool-cases (str_eq (name x) n)) [
    | inl e ↦ rw (e, keeps x, str_eq_trans (name x) n m e, h) refl
    | inr e ↦ rw (e, find-update_other n m f l keeps h) refl
  ]

  pub find-update_self :
      (n : Bytes) (f : A → A) (l : List A)
      → ((x : A) → name (f x) ≡ name x)
      → find name n (update name n f l) ≡ changed name f (find name n l)
  unfolding find update
  find-update_self n f [] keeps = refl
  find-update_self n f (x ∷ l) keeps = elim (Bool-cases (str_eq (name x) n)) [
    | inl e ↦ rw (e, keeps x, e) refl
    | inr e ↦ rw (e, e) (find-update_self n f l keeps)
  ]

  pub find-remove_other :
      (n m : Bytes) (l : List A)
      → str_eq n m ≡ false
      → find name m (remove name n l) ≡ find name m l
  unfolding find remove
  find-remove_other n m [] h = refl
  find-remove_other n m (x ∷ l) h = elim (Bool-cases (str_eq (name x) n)) [
    | inl e ↦ rw (e, str_eq_trans (name x) n m e, h) refl
    | inr e ↦ rw (e, find-remove_other n m l h) refl
  ]

  pub find-remove_self :
      (n : Bytes) (l : List A) → IsDistinct name l → find name n (remove name n l) ≡ none
  unfolding find remove IsDistinct
  find-remove_self n [] h = refl
  find-remove_self n (x ∷ l) h = elim (Bool-cases (str_eq (name x) n)) [
    | inl e ↦ rw (e, ← (str_eq_iff (name x) n).0 e) h.0
    | inr e ↦ rw (e, e) (find-remove_self n l h.1)
  ]

  -- What is not there is not there after a change or a removal.
  pub find-update-none :
      (n m : Bytes) (f : A → A) (l : List A)
      → ((x : A) → name (f x) ≡ name x)
      → find name m l ≡ none
      → find name m (update name n f l) ≡ none
  find-update-none n m f l keeps h = elim (Bool-cases (str_eq n m)) [
    | inl e ↦ rw ((str_eq_iff n m).0 e) (find-update_self m f l keeps ∙ ap (changed name f) h)
    | inr e ↦ find-update_other n m f l keeps e ∙ h
  ]

  pub update-IsDistinct :
      (n : Bytes) (f : A → A) (l : List A)
      → ((x : A) → name (f x) ≡ name x)
      → IsDistinct name l
      → IsDistinct name (update name n f l)
  unfolding update IsDistinct
  update-IsDistinct n f [] keeps h = tt
  update-IsDistinct n f (x ∷ l) keeps h = elim (Bool-cases (str_eq (name x) n)) [
    | inl e ↦ rw e (rw (keeps x) h.0, h.1)
    | inr e ↦ rw e (find-update-none n (name x) f l keeps h.0, update-IsDistinct n f l keeps h.1)
  ]

  pub find-remove-none :
      (n m : Bytes) (l : List A)
      → IsDistinct name l
      → find name m l ≡ none
      → find name m (remove name n l) ≡ none
  find-remove-none n m l d h = elim (Bool-cases (str_eq n m)) [
    | inl e ↦ rw ((str_eq_iff n m).0 e) (find-remove_self m l d)
    | inr e ↦ find-remove_other n m l e ∙ h
  ]

  pub remove-IsDistinct :
      (n : Bytes) (l : List A) → IsDistinct name l → IsDistinct name (remove name n l)
  unfolding remove IsDistinct
  remove-IsDistinct n [] h = tt
  remove-IsDistinct n (x ∷ l) h = elim (Bool-cases (str_eq (name x) n)) [
    | inl e ↦ rw e h.1
    | inr e ↦ rw e (find-remove-none n (name x) l h.1 h.0, remove-IsDistinct n l h.1)
  ]
