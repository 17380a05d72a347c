-- ===== src/Shell/Glob/Expansion.antt =====
-- What `sh_glob_pathnames` of src/components/breezybox/shell/sh_glob.c makes of a pattern in the last
-- part of a path.
use breezybox.Prelude.{
  ◌≡◌, ◌≢◌, sym, true, false, if_true, if_false, subst, Bytes, codes, str_eq, str_eq_iff, peek,
  Option, some, List, map, arith, Bool-cases, inl, inr, ap, ◌∙◌,
}
use breezybox.Shell.Glob.Match.{pattern_match, Matches}
use breezybox.Shell.Glob.Match.Decides.{pattern_match_iff}
use breezybox.Shell.Glob.Paths.{
  base_of, is_candidate, glob_pathnames, count, IsSorted, Expands, expands, glob_pathnames-Expands,
}
use breezybox.Shell.Glob.Folder.{
  Folder, in_folder, opened, cut_path, IsBase, has_meta, IsFolder, slash_of, locate_in,
  directory_in, base_of_in, map_in,
}

-- A name that the base of a pattern selects.
pub record Selected (base name : Bytes) : Type 0 where
  pub matches : Matches base name
  pub hidden : peek name ≡ b'.' → peek base ≡ b'.'
  pub not_itself : name ≢ codes "."
  pub not_parent : name ≢ codes ".."

-- The paths of names in the order of strcmp, each as often as it is listed if it is selected.
pub data Expanded (folder : Folder) (base : Bytes) (names : List Bytes) : List Bytes → Type 0 where
  expanded :
      (chosen : List Bytes)
      → IsSorted chosen
      → ((name : Bytes) → Selected base name → count name chosen ≡ count name names)
      → ((name : Bytes) → ¬ Selected base name → count name chosen ≡ 0)
      → Expanded folder base names (map (cut_path folder) chosen)

candidate-Selected : (base name : Bytes) → is_candidate base name ≡ true → Selected base name
candidate-Selected base name h =
    let starts : name ≡ codes "." → str_eq name (codes ".") ≡ true =
      λ e. (str_eq_iff name (codes ".")).1 e in
    let parent : name ≡ codes ".." → str_eq name (codes "..") ≡ true =
      λ e. (str_eq_iff name (codes "..")).1 e in
    record {
      matches = (pattern_match_iff base name).0 (ground (arith, h));
      hidden = λ e. ground (arith, h, e);
      not_itself = λ e. absurd (ground (arith, h, starts e, ap peek e));
      not_parent = λ e. absurd (ground (arith, h, parent e, ap peek e));
    }

Selected-candidate : (base name : Bytes) → Selected base name → is_candidate base name ≡ true
Selected-candidate base name s =
    let m : pattern_match base name ≡ true = (pattern_match_iff base name).1 s.matches in
    let itself : str_eq name (codes ".") ≡ false = not_equal name (codes ".") s.not_itself in
    let parent : str_eq name (codes "..") ≡ false = not_equal name (codes "..") s.not_parent in
    ground (arith, m, itself, parent, s.hidden)
  where
    not_equal : (a b : Bytes) → a ≢ b → str_eq a b ≡ false
    not_equal a b ne = elim (Bool-cases (str_eq a b)) [
      | inl e ↦ absurd (ne ((str_eq_iff a b).0 e))
      | inr e ↦ e
    ]

-- The names that are kept are those that are selected.
Expands-Expanded :
    (folder : Folder) (base : Bytes) (names paths : List Bytes)
    → Expands (in_folder folder base) (slash_of folder) names paths
    → Expanded folder base names paths
Expands-Expanded folder base names paths (expands chosen sorted counted) =
    let pat = in_folder folder base in
    subst (Expanded folder base names) (sym (map_in folder base chosen)) (
      expanded chosen sorted
        (λ name s.
          counted name
          ∙ if_true (is_candidate (base_of pat (slash_of folder)) name) _ _ (
              ap (λ b. is_candidate b name) (base_of_in folder base)
              ∙ Selected-candidate base name s))
        (λ name ne.
          counted name
          ∙ if_false (is_candidate (base_of pat (slash_of folder)) name) _ _
              (ap (λ b. is_candidate b name) (base_of_in folder base) ∙ refused name ne)))
  where
    refused : (name : Bytes) → ¬ Selected base name → is_candidate base name ≡ false
    refused name ne = elim (Bool-cases (is_candidate base name)) [
      | inl e ↦ absurd (ne (candidate-Selected base name e))
      | inr e ↦ e
    ]

-- A pattern whose base has a metacharacter and neither a slash nor a backslash, behind a directory
-- of fewer than 512 bytes without metacharacters and backslashes, or behind none, expands, where the
-- directory opens, to the paths of just the entries that the base matches, hidden ones only if it starts
-- with a dot and never `.` or `..`: in the order of strcmp, each as often as it is listed, and cut
-- to 1023 bytes where there is a slash.
pub glob_pathnames-Expanded :
    (entries : Bytes → Option (List Bytes)) (folder : Folder) (base : Bytes) (names : List Bytes)
    → IsFolder folder
    → IsBase base
    → has_meta base ≡ true
    → entries (opened folder) ≡ some names
    → Expanded folder base names (glob_pathnames entries (in_folder folder base))
glob_pathnames-Expanded entries folder base names f h k e =
    Expands-Expanded folder base names (glob_pathnames entries (in_folder folder base)) (
      glob_pathnames-Expands entries (in_folder folder base) (opened folder) (slash_of folder) names
        (locate_in folder base f h k) (directory_in folder base f) e)
