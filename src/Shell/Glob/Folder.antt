-- ===== src/Shell/Glob/Folder.antt =====
-- The directory and the base of a pattern, as `sh_glob_pathnames` of
-- src/components/breezybox/shell/sh_glob.c finds them.
use breezybox.Prelude.{
  ℕ, suc, ◌+◌, ◌<◌, ◌≡◌, refl, Bool, true, false, ◌||◌, leb, ◌==◌, if_false, if_both, Bytes, codes,
  Option, none, some, List, [], ◌∷◌, ◌++◌, map, take, drop, length, arith, ap, ◌∙◌,
}
use breezybox.Shell.Glob.Paths.{is_meta, locate, directory, base_of, full_path}

-- Where the directory of a path is: nowhere said, or in front of a slash, where no text is the root.
pub data Folder : Type 0 where
  here : Folder
  under : Bytes → Folder

abbrev pub in_folder : Folder → Bytes → Bytes
in_folder here name = name
in_folder (under d) name = d ++ b'/' ∷ name

-- the path that is opened
abbrev pub opened : Folder → Bytes
opened here = codes "."
opened (under []) = codes "/"
opened (under (c ∷ d)) = c ∷ d

-- A path is cut to the 1023 bytes of its buffer, but for a name alone.
abbrev pub cut_path : Folder → Bytes → Bytes
cut_path here name = name
cut_path (under d) name = take 1023 (d ++ b'/' ∷ name)

-- Neither a metacharacter nor a backslash.
unfoldable pub IsPlain : Bytes → Type 0
IsPlain [] = Unit
IsPlain (c ∷ s) = (is_meta c ≡ false) × ((c == b'\\') ≡ false) × IsPlain s

-- Neither a slash nor a backslash.
unfoldable pub IsBase : Bytes → Type 0
IsBase [] = Unit
IsBase (c ∷ s) = ((c == b'/') ≡ false) × ((c == b'\\') ≡ false) × IsBase s

unfoldable pub has_meta : Bytes → Bool
has_meta [] = false
has_meta (c ∷ s) = is_meta c || has_meta s

unfoldable pub IsFolder : Folder → Type 0
IsFolder here = Unit
IsFolder (under d) = IsPlain d × (length d < 512)

-- The loop over the base.
locate_base :
    (base : Bytes) (i : ℕ) (last : Option ℕ) (meta : Bool)
    → IsBase base
    → locate base i last meta ≡ some (last, meta || has_meta base)
unfolding locate IsBase has_meta
locate_base [] i last true h = refl
locate_base [] i last false h = refl
locate_base (c ∷ []) i last meta h =
    if_false (c == b'/') _ _ h.0 ∙ ap (λ b. some (last, b)) (or_nothing meta (is_meta c))
  where
    or_nothing : (a b : Bool) → (a || b) ≡ (a || (b || false))
    or_nothing true b = refl
    or_nothing false true = refl
    or_nothing false false = refl
locate_base (c ∷ d ∷ s) i last meta h =
    if_false (c == b'\\') _ _ h.1
    ∙ if_false (c == b'/') _ _ h.0
    ∙ locate_base (d ∷ s) (i + 1) last (meta || is_meta c) h.2
    ∙ ap (λ b. some (last, b)) (or_assoc meta (is_meta c) (has_meta (d ∷ s)))
  where
    or_assoc : (a b e : Bool) → ((a || b) || e) ≡ (a || (b || e))
    or_assoc true b e = refl
    or_assoc false b e = refl

-- A byte of the directory.
locate_front :
    (c b : ℕ) (s : Bytes) (i : ℕ) (last : Option ℕ) {r : Option (Option ℕ × Bool)}
    → is_meta c ≡ false
    → (c == b'\\') ≡ false
    → ((l : Option ℕ) → locate (b ∷ s) (i + 1) l false ≡ r)
    → locate (c ∷ b ∷ s) i last false ≡ r
unfolding locate
locate_front c b s i last {r} m e k =
    if_false (c == b'\\') _ _ e
    ∙ if_both (λ x. x ≡ r) (c == b'/') _ _ (k (some i))
        (ap (λ x. locate (b ∷ s) (i + 1) last x) m ∙ k last)

-- The last slash is the one in front of the base.
locate_slash :
    (base : Bytes) (i : ℕ) (last : Option ℕ)
    → IsBase base
    → has_meta base ≡ true
    → locate (b'/' ∷ base) i last false ≡ some (some i, true)
locate_slash [] i last h k = absurd (unfold has_meta in cc k)
locate_slash (c ∷ s) i last h k =
    unfold locate in locate_base (c ∷ s) (i + 1) (some i) false h ∙ ap (λ b. some (some i, b)) k

locate_folder :
    (d base : Bytes) (i : ℕ) (last : Option ℕ)
    → IsPlain d
    → IsBase base
    → has_meta base ≡ true
    → locate (d ++ b'/' ∷ base) i last false ≡ some (some (i + length d), true)
unfolding IsPlain
locate_folder [] base i last p h k =
    locate_slash base i last h k ∙ ap (λ j. some (some j, true)) (omega arith)
locate_folder (c ∷ []) base i last p h k =
    locate_front c b'/' base i last p.0 p.1 (λ l. locate_folder [] base (i + 1) l tt h k)
    ∙ ap (λ j. some (some j, true)) (omega arith)
locate_folder (c ∷ b ∷ d) base i last p h k =
    locate_front c b (d ++ b'/' ∷ base) i last p.0 p.1
      (λ l. locate_folder (b ∷ d) base (i + 1) l p.2 h k)
    ∙ ap (λ j. some (some j, true)) (omega arith)

take-front : (d s : Bytes) → take (length d) (d ++ s) ≡ d
take-front [] s = refl
take-front (c ∷ d) s = ap (λ x. c ∷ x) (take-front d s)

drop-front : (d s : Bytes) → drop (length d + 1) (d ++ b'/' ∷ s) ≡ s
drop-front [] s = refl
drop-front (c ∷ d) s = ap (λ n. drop n (c ∷ d ++ b'/' ∷ s)) more ∙ drop-front d s
  where
    more : length (c ∷ d) + 1 ≡ suc (length d + 1)
    more = omega arith

-- The index of the slash.
abbrev pub slash_of : Folder → Option ℕ
slash_of here = none
slash_of (under d) = some (length d)

pub locate_in :
    (folder : Folder) (base : Bytes)
    → IsFolder folder
    → IsBase base
    → has_meta base ≡ true
    → locate (in_folder folder base) 0 none false ≡ some (slash_of folder, true)
locate_in here base f h k = locate_base base 0 none false h ∙ ap (λ b. some (none, b)) k
locate_in (under d) base f h k =
    locate_folder d base 0 none (unfold IsFolder in f.0) h k
    ∙ ap (λ j. some (some j, true)) (omega arith)

pub directory_in :
    (folder : Folder) (base : Bytes)
    → IsFolder folder
    → directory (in_folder folder base) (slash_of folder) ≡ some (opened folder)
directory_in here base f = refl
directory_in (under []) base f = refl
directory_in (under (c ∷ d)) base f =
    let fits : length (c ∷ d) < 512 = unfold IsFolder in f.1 in
    if_false (leb 512 (length (c ∷ d))) _ _ (ground (arith, fits))
    ∙ ap some (take-front (c ∷ d) (b'/' ∷ base))

pub base_of_in :
    (folder : Folder) (base : Bytes) → base_of (in_folder folder base) (slash_of folder) ≡ base
base_of_in here base = refl
base_of_in (under d) base = drop-front d base

full_path_in :
    (folder : Folder) (base name : Bytes)
    → full_path (in_folder folder base) (slash_of folder) name ≡ cut_path folder name
full_path_in here base name = refl
full_path_in (under d) base name =
    ap (λ x. take 1023 (x ++ b'/' ∷ name)) (take-front d (b'/' ∷ base))

pub map_in :
    (folder : Folder) (base : Bytes) (chosen : List Bytes)
    → map (full_path (in_folder folder base) (slash_of folder)) chosen
      ≡ map (cut_path folder) chosen
map_in folder base [] = refl
map_in folder base (name ∷ chosen) =
    ap (λ x. x ∷ map (full_path (in_folder folder base) (slash_of folder)) chosen)
      (full_path_in folder base name)
    ∙ ap (λ l. cut_path folder name ∷ l) (map_in folder base chosen)
