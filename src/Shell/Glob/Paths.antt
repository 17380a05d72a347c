-- ===== src/Shell/Glob/Paths.antt =====
-- `sh_glob_pathnames` of src/components/breezybox/shell/sh_glob.c. The directory is a parameter: the
-- names that opendir and readdir give for a path, `none` where opendir fails.
use breezybox.Prelude.{
  ℕ, zero, suc, ◌+◌, ◌≡◌, refl, Bool, true, false, ◌||◌, leb, ltb, ◌==◌, if◌then◌else◌, Bytes,
  codes, str_eq, str_eq_iff, peek, Option, none, some, List, [], ◌∷◌, ◌++◌, map, take, drop, arith,
  Bool-cases, inl, inr, ap, ◌∙◌,
}
use breezybox.Shell.Glob.Match.{pattern_match}

abbrev pub is_meta : ℕ → Bool
is_meta c = c == b'*' || (c == b'?' || c == b'[')

-- The loop: the last slash and whether there is a metacharacter; `none` for one in the directory.
unfoldable pub locate : Bytes → ℕ → Option ℕ → Bool → Option (Option ℕ × Bool)
locate [] i last meta = some (last, meta)
locate (c ∷ []) i last meta =
    if c == b'/' then if meta then none else some (some i, meta) else some (last, meta || is_meta c)
locate (c ∷ d ∷ p) i last meta =
    let escaped = locate p (i + 2) last meta in
    let slash = locate (d ∷ p) (i + 1) (some i) meta in
    let other = locate (d ∷ p) (i + 1) last (meta || is_meta c) in
    if c == b'\\' then escaped else if c == b'/' then if meta then none else slash else other

-- `none` where the path does not fit `dir[512]`
abbrev pub directory : Bytes → Option ℕ → Option Bytes
directory pat none = some (codes ".")
directory pat (some zero) = some (codes "/")
directory pat (some (suc k)) = if leb 512 (suc k) then none else some (take (suc k) pat)

abbrev pub base_of : Bytes → Option ℕ → Bytes
base_of pat none = pat
base_of pat (some k) = drop (k + 1) pat

-- Dotfiles match a pattern with a dot in front only, and `.` and `..` none.
abbrev pub is_candidate : Bytes → Bytes → Bool
is_candidate base name =
    if peek name == b'.'
    then if peek base == b'.'
      then if str_eq name (codes ".") || str_eq name (codes "..")
        then false
        else pattern_match base name
      else false
    else pattern_match base name

abbrev pub candidates : Bytes → List Bytes → List Bytes
candidates base [] = []
candidates base (name ∷ names) =
    let later = candidates base names in if is_candidate base name then name ∷ later else later

-- `strcmp(a, b) <= 0`
unfoldable pub str_le : Bytes → Bytes → Bool
str_le [] b = true
str_le (x ∷ a) [] = false
str_le (x ∷ a) (y ∷ b) = let later = str_le a b in if x == y then later else ltb x y

unfoldable pub insert : Bytes → List Bytes → List Bytes
unfolding str_le
insert a [] = a ∷ []
insert a (b ∷ l) = if str_le a b then a ∷ b ∷ l else b ∷ insert a l

-- `qsort` by `name_cmp`
unfoldable pub sort : List Bytes → List Bytes
unfolding insert
sort [] = []
sort (a ∷ l) = insert a (sort l)

-- The path that is pushed, cut to the 1023 bytes of `full`.
abbrev pub full_path : Bytes → Option ℕ → Bytes → Bytes
full_path pat none name = name
full_path pat (some k) name = take 1023 (take k pat ++ b'/' ∷ name)

abbrev pub expand_names : Bytes → Option ℕ → Option (List Bytes) → List Bytes
expand_names pat last none = []
expand_names pat last (some names) =
    map (full_path pat last) (sort (candidates (base_of pat last) names))

abbrev pub expand_in : (Bytes → Option (List Bytes)) → Bytes → Option ℕ → Option Bytes → List Bytes
expand_in entries pat last none = []
expand_in entries pat last (some dir) = expand_names pat last (entries dir)

abbrev pub expand_located :
    (Bytes → Option (List Bytes)) → Bytes → Option (Option ℕ × Bool) → List Bytes
expand_located entries pat none = []
expand_located entries pat (some (last, meta)) =
    if meta then expand_in entries pat last (directory pat last) else []

-- What is pushed to `out`, whose length is the result.
unfoldable pub glob_pathnames : (Bytes → Option (List Bytes)) → Bytes → List Bytes
unfolding locate sort
glob_pathnames entries pat = expand_located entries pat (locate pat 0 none false)

unfoldable pub count : Bytes → List Bytes → ℕ
count a [] = 0
count a (b ∷ l) = if str_eq a b then suc (count a l) else count a l

unfoldable pub IsSorted : List Bytes → Type 0
IsSorted [] = Unit
IsSorted (a ∷ []) = Unit
IsSorted (a ∷ b ∷ l) = (str_le a b ≡ true) × IsSorted (b ∷ l)

-- The paths in the order of their names, one for each entry of the directory that is a candidate.
pub data Expands (pat : Bytes) (last : Option ℕ) (names : List Bytes) : List Bytes → Type 0 where
  expands :
      (chosen : List Bytes)
      → IsSorted chosen
      → ((name : Bytes)
          → count name chosen
            ≡ (if is_candidate (base_of pat last) name then count name names else 0))
      → Expands pat last names (map (full_path pat last) chosen)

str_le_total : (a b : Bytes) → str_le a b ≡ false → str_le b a ≡ true
unfolding str_le
str_le_total [] b h = cc
str_le_total (x ∷ a) [] h = refl
str_le_total (x ∷ a) (y ∷ b) h = ground (arith, str_le_total a b)

insert_behind :
    (b a : Bytes) (l : List Bytes)
    → str_le b a ≡ true
    → IsSorted (b ∷ l)
    → IsSorted (b ∷ insert a l)
unfolding IsSorted insert
insert_behind b a [] h k = (h, tt)
insert_behind b a (c ∷ l) h k = elim (Bool-cases (str_le a c)) [
  | inl e ↦ rw e (h, (e, k.1))
  | inr e ↦ rw e (k.0, insert_behind c a l (str_le_total a c e) k.1)
]

insert-IsSorted : (a : Bytes) (l : List Bytes) → IsSorted l → IsSorted (insert a l)
unfolding IsSorted insert
insert-IsSorted a [] h = tt
insert-IsSorted a (b ∷ l) h = elim (Bool-cases (str_le a b)) [
  | inl e ↦ rw e (e, h)
  | inr e ↦ rw e (insert_behind b a l (str_le_total a b e) h)
]

sort-IsSorted : (l : List Bytes) → IsSorted (sort l)
unfolding sort IsSorted
sort-IsSorted [] = tt
sort-IsSorted (a ∷ l) = insert-IsSorted a (sort l) (sort-IsSorted l)

count-insert : (x a : Bytes) (l : List Bytes) → count x (insert a l) ≡ count x (a ∷ l)
unfolding count insert
count-insert x a [] = refl
count-insert x a (b ∷ l) = ground (arith, count-insert x a l)

count-sort : (x : Bytes) (l : List Bytes) → count x (sort l) ≡ count x l
unfolding count sort
count-sort x [] = refl
count-sort x (a ∷ l) = count-insert x a (sort l) ∙ ground (arith, count-sort x l)

-- A name that is kept adds one to its own count and nothing to that of others.
if_kept :
    (x : Bytes) (b : Bool) (kept l : List Bytes)
    → count x kept ≡ (if b then count x l else 0)
    → count x (if b then x ∷ kept else kept) ≡ (if b then count x (x ∷ l) else 0)
unfolding count
if_kept x true kept l h = rw ((str_eq_iff x x).1 refl) (ap suc h)
if_kept x false kept l h = h

if_other :
    (x a : Bytes) (b : Bool) (kept : List Bytes)
    → str_eq x a ≡ false
    → count x (if b then a ∷ kept else kept) ≡ count x kept
unfolding count
if_other x a true kept h = rw h
if_other x a false kept h = refl

count-candidates :
    (base x : Bytes) (l : List Bytes)
    → count x (candidates base l) ≡ (if is_candidate base x then count x l else 0)
unfolding count
count-candidates base x [] = ground arith
count-candidates base x (a ∷ l) = elim (Bool-cases (str_eq x a)) [
  | inl same ↦
      rw (← (str_eq_iff x a).0 same)
        (if_kept x (is_candidate base x) (candidates base l) l (count-candidates base x l))
  | inr other ↦
      rw other
        (if_other x a (is_candidate base a) (candidates base l) other ∙ count-candidates base x l)
]

-- Where the pattern has a metacharacter behind its last slash and the directory opens, the paths
-- are those of the entries that are candidates, in the order of strcmp and each as often as listed.
pub glob_pathnames-Expands :
    (entries : Bytes → Option (List Bytes)) (pat dir : Bytes) (last : Option ℕ) (names : List Bytes)
    → locate pat 0 none false ≡ some (last, true)
    → directory pat last ≡ some dir
    → entries dir ≡ some names
    → Expands pat last names (glob_pathnames entries pat)
unfolding glob_pathnames
glob_pathnames-Expands entries pat dir last names e d n =
    rw (e, d, n)
      (expands (sort (candidates (base_of pat last) names))
        (sort-IsSorted (candidates (base_of pat last) names))
        (λ x.
          count-sort x (candidates (base_of pat last) names)
          ∙ count-candidates (base_of pat last) x names))
