-- ===== src/Cwd.antt =====
-- src/components/breezybox/breezy_vfs.c: the working directory and the resolution of paths. Which
-- paths are directories is a parameter, as is BREEZYBOX_MAX_PATH.
use breezybox.Prelude.{
  ℕ, zero, suc, ◌+◌, ◌-◌, ◌≤◌, ◌<◌, ◌≡◌, refl, Bool, true, false, if◌then◌else◌, ◌||◌, leb, ltb,
  ◌==◌, ==_iff, Bytes, codes, peek, str_eq, str_eq_iff, Option, none, some, [], ◌∷◌, ◌++◌, length,
  take, length-append, length-take, arith, lt→ltb, ◌⊎◌, if_both, Bool-cases, inl, inr, ap, ◌∙◌, sym,
}
mod Tests

-- `strrchr(s, '/')`, counted from `i`; `last` is the slash found so far
unfoldable pub last_slash : Bytes → ℕ → Option ℕ → Option ℕ
last_slash [] i last = last
last_slash (c ∷ s) i last = last_slash s (i + 1) (if c == b'/' then some i else last)

abbrev pub cut_at : Bytes → Option ℕ → Bytes
cut_at s none = s
cut_at s (some zero) = take 1 s
cut_at s (some (suc k)) = take (suc k) s

unfoldable pub parent : Bytes → Bytes
unfolding last_slash
parent s = cut_at s (last_slash s 0 none)

abbrev pub joined : Bytes → Bytes → Bytes
joined cwd path =
    if ltb 1 (length cwd) then cwd ++ b'/' ∷ path else if length cwd == 1 then cwd ++ path else []

-- The path that is tried; `none` where it does not fit.
unfoldable pub new_path : ℕ → Bytes → Bytes → Option Bytes
unfolding parent
new_path max cwd path =
    if str_eq path (codes "..")
    then some (parent cwd)
    else if peek path == b'/'
    then some (take max path)
    else if leb (max + 1) (length cwd + 1 + length path)
    then none
    else some (joined cwd path)

abbrev pub enter : (Bytes → Bool) → Bytes → Option Bytes → Bytes × Bool
enter is_dir cwd none = (cwd, false)
enter is_dir cwd (some p) = if str_eq p (codes "/") || is_dir p then (p, true) else (cwd, false)

-- The directory afterwards, and whether the call succeeded.
unfoldable pub set_cwd : (Bytes → Bool) → ℕ → Bytes → Bytes → Bytes × Bool
unfolding new_path
set_cwd is_dir max cwd path =
    if str_eq path (codes "..")
    then if str_eq cwd (codes "/") then (cwd, true) else enter is_dir cwd (new_path max cwd path)
    else enter is_dir cwd (new_path max cwd path)

unfoldable pub resolve_path : ℕ → Bytes → Bytes → Option Bytes
resolve_path size cwd path =
    if peek path == b'/'
    then some (take (size - 1) path)
    else if leb size (length cwd + 1 + length path)
    then none
    else if str_eq cwd (codes "/")
    then some (b'/' ∷ path)
    else some (cwd ++ b'/' ∷ path)

-- An absolute path that fits.
pub record IsCwd (max : ℕ) (s : Bytes) : Type 0 where
  pub fits : length s ≤ max
  pub absolute : peek s ≡ b'/'

abbrev pub AllCwd : ℕ → Option Bytes → Type 0
AllCwd max none = Unit
AllCwd max (some s) = IsCwd max s

take-IsCwd : (max n : ℕ) (s : Bytes) → 0 < n → peek s ≡ b'/' → n ≤ max → IsCwd max (take n s)
take-IsCwd max zero s h e k = absurd (omega arith)
take-IsCwd max (suc n) [] h e k = absurd (ground arith)
take-IsCwd max (suc n) (c ∷ s) h e k = record {
  fits = omega (arith, length-take n s);
  absolute = e;
}

take-IsCwd_all : (max n : ℕ) (s : Bytes) → 0 < n → IsCwd max s → IsCwd max (take n s)
take-IsCwd_all max zero s h v = absurd (omega arith)
take-IsCwd_all max (suc n) [] h v = v
take-IsCwd_all max (suc n) (c ∷ s) h v = record {
  fits = omega (arith, v.fits, length-take n s);
  absolute = v.absolute;
}

cut_at-IsCwd : (max : ℕ) (s : Bytes) (o : Option ℕ) → IsCwd max s → IsCwd max (cut_at s o)
cut_at-IsCwd max s none v = v
cut_at-IsCwd max s (some zero) v = take-IsCwd_all max 1 s (omega arith) v
cut_at-IsCwd max s (some (suc k)) v = take-IsCwd_all max (suc k) s (omega arith) v

joined-IsCwd :
    (max : ℕ) (cwd path : Bytes)
    → IsCwd max cwd
    → length cwd + 1 + length path ≤ max
    → IsCwd max (joined cwd path)
joined-IsCwd max [] path v h = absurd (ground (arith, v.absolute))
joined-IsCwd max (c ∷ []) path v h = record { fits = omega arith; absolute = v.absolute }
joined-IsCwd max (c ∷ d ∷ s) path v h =
    rw (lt→ltb 1 (length (c ∷ d ∷ s)) (omega arith))
      (record { fits = omega (arith, length-append s (b'/' ∷ path)); absolute = v.absolute })

new_path-AllCwd :
    (max : ℕ) (cwd path : Bytes) → 0 < max → IsCwd max cwd → AllCwd max (new_path max cwd path)
unfolding new_path parent
new_path-AllCwd max cwd path h v =
    if_both (AllCwd max) (str_eq path (codes "..")) _ _
      (cut_at-IsCwd max cwd (last_slash cwd 0 none) v)
      (absolute_or (Bool-cases (peek path == b'/')))
  where
    fitting :
        (b : Bool)
        → leb (max + 1) (length cwd + 1 + length path) ≡ b
        → AllCwd max (if b then none else some (joined cwd path))
    fitting true e = tt
    fitting false e = joined-IsCwd max cwd path v (ground arith)

    absolute_or :
        ((peek path == b'/') ≡ true) ⊎ ((peek path == b'/') ≡ false)
        → AllCwd max (
            if peek path == b'/'
            then some (take max path)
            else if leb (max + 1) (length cwd + 1 + length path)
            then none
            else some (joined cwd path))
    absolute_or (inl e) =
        rw e (take-IsCwd max max path h ((==_iff (peek path) b'/').0 e) (omega arith))
    absolute_or (inr e) = rw e (fitting (leb (max + 1) (length cwd + 1 + length path)) refl)

enter-IsCwd :
    (is_dir : Bytes → Bool) (max : ℕ) (cwd : Bytes) (o : Option Bytes)
    → IsCwd max cwd
    → AllCwd max o
    → IsCwd max (enter is_dir cwd o).0
enter-IsCwd is_dir max cwd none v h = v
enter-IsCwd is_dir max cwd (some p) v h =
    if_both (λ (r : Bytes × Bool). IsCwd max r.0) (str_eq p (codes "/") || is_dir p) _ _ h v

-- A change of directory, to whatever path and whether it succeeds or not, leaves an absolute path
-- that fits the buffer.
pub set_cwd-IsCwd :
    (is_dir : Bytes → Bool) (max : ℕ) (cwd path : Bytes)
    → 0 < max
    → IsCwd max cwd
    → IsCwd max (set_cwd is_dir max cwd path).0
unfolding set_cwd
set_cwd-IsCwd is_dir max cwd path h v =
    let entered =
      enter-IsCwd is_dir max cwd (new_path max cwd path) v (new_path-AllCwd max cwd path h v) in
    if_both (λ (r : Bytes × Bool). IsCwd max r.0) (str_eq path (codes "..")) _ _
      (if_both (λ (r : Bytes × Bool). IsCwd max r.0) (str_eq cwd (codes "/")) _ _ v entered) entered

-- Behind a root directory or another one, both ways of joining a path to it are the same.
joined_lem :
    (cwd path : Bytes)
    → peek cwd ≡ b'/'
    → (if str_eq cwd (codes "/") then b'/' ∷ path else cwd ++ b'/' ∷ path) ≡ joined cwd path
unfolding str_eq
joined_lem [] path h = absurd (ground arith)
joined_lem (c ∷ []) path h = ground arith
joined_lem (c ∷ d ∷ s) path h = ground arith

-- A change of directory to any path but `..` enters what resolve_path gives for that path with a
-- buffer of the same size, if that is a directory, and fails where resolve_path does.
pub set_cwd-resolve_path :
    (is_dir : Bytes → Bool) (max : ℕ) (cwd path : Bytes)
    → IsCwd max cwd
    → str_eq path (codes "..") ≡ false
    → set_cwd is_dir max cwd path ≡ enter is_dir cwd (resolve_path (max + 1) cwd path)
unfolding set_cwd new_path resolve_path
set_cwd-resolve_path is_dir max cwd path v h = rw h (
    ap (enter is_dir cwd)
      (sym (same_path (peek path == b'/') (leb (max + 1) (length cwd + 1 + length path)))))
  where
    less_one : max + 1 - 1 ≡ max
    less_one = omega arith

    same_path :
        (a b : Bool)
        → (if a
            then some (take (max + 1 - 1) path)
            else if b
            then none
            else if str_eq cwd (codes "/")
            then some (b'/' ∷ path)
            else some (cwd ++ b'/' ∷ path))
          ≡ (if a then some (take max path) else if b then none else some (joined cwd path))
    same_path true b = ap (λ n. some (take n path)) less_one
    same_path false true = refl
    same_path false false =
        inside (str_eq cwd (codes "/")) ∙ ap some (joined_lem cwd path v.absolute)
      where
        inside :
            (r : Bool)
            → (if r then some (b'/' ∷ path) else some (cwd ++ b'/' ∷ path))
              ≡ some (if r then b'/' ∷ path else cwd ++ b'/' ∷ path)
        inside true = refl
        inside false = refl
