-- ===== src/Shell/State/Startup.antt =====
-- `sh_state_init` of src/components/breezybox/shell/sh_state.c. The physical directory that
-- `sh_port_getcwd` gives and the `stat` of a path, its device and inode, are parameters.
use breezybox.Prelude.{
  ℕ, ◌≡◌, refl, sym, Bool, true, false, if◌then◌else◌, ◌&&◌, ◌||◌, ◌==◌, Bytes, codes, peek, str_eq,
  Option, none, some, [], ap, ◌∙◌, if_both,
}
use breezybox.Shell.State.Named.{find, IsDistinct, str_eq_refl}
use breezybox.Shell.State.Vars.{
  Environment, State, Var, find_var, get_var, set_found, set_var, export_found, export_var,
}
use breezybox.Shell.State.Lookup.{
  get_var-set_var, get_var-export_var, set_var-HasDistinct, export_var-HasDistinct,
}
use breezybox.Shell.State.Mirror.{IsSound, set_var-IsMirrored, export_var-IsMirrored}

abbrev pub Stat : Type 0
Stat = Bytes → Option (ℕ × ℕ)

-- An inode of zero is none, as on file systems without inodes.
abbrev pub same_inode : Option (ℕ × ℕ) → Option (ℕ × ℕ) → Bool
same_inode (some (dev₁, ino₁)) (some (dev₂, ino₂)) =
    if ino₁ == 0 || ino₂ == 0 then false else dev₁ == dev₂ && ino₁ == ino₂
same_inode _ _ = false

unfoldable pub same_dir : Stat → Bytes → Bytes → Bool
same_dir stat a b = if str_eq a b then true else same_inode (stat a) (stat b)

-- $PWD, where it is absolute and names the directory that the shell is in
abbrev pub trusted : Stat → Bytes → Option Bytes → Bytes
trusted stat cwd none = cwd
trusted stat cwd (some p) = if peek p == b'/' then if same_dir stat p cwd then p else cwd else cwd

module _ {Body : Type 0} where
  abbrev pub set_from : Bytes → Option Bytes → State Body → State Body
  set_from n none st = st
  set_from n (some v) st = set_var st n v

  abbrev pub nothing : Environment → Bytes → State Body
  nothing env cwd = record {
    vars = [];
    environment = env;
    params = [];
    arg0 = none;
    funcs = [];
    scopes = [];
    cwd = cwd;
  }

  -- The environment that `getenv` reads changes by the export of PWD only.
  unfoldable pub init : Stat → Bytes → Environment → State Body
  unfolding same_dir
  init stat cwd env =
      let pwd = trusted stat cwd (env (codes "PWD")) in
      let home = set_from (codes "HOME") (env (codes "HOME")) (nothing env pwd) in
      let here = export_var (set_var home (codes "PWD") pwd) (codes "PWD") in
      let oldpwd = set_from (codes "OLDPWD") (here.environment (codes "OLDPWD")) here in
      let tmp = set_from (codes "TMP") (oldpwd.environment (codes "TMP")) oldpwd in
      set_from (codes "SH") (tmp.environment (codes "SH")) tmp

  set_from-IsSound :
      (n : Bytes) (o : Option Bytes) (st : State Body) → IsSound st → IsSound (set_from n o st)
  set_from-IsSound n none st h = h
  set_from-IsSound n (some v) st h = (set_var-HasDistinct st n v h.0, set_var-IsMirrored st n v h.1)

  export-IsSound : (st : State Body) (n : Bytes) → IsSound st → IsSound (export_var st n)
  export-IsSound st n h = (export_var-HasDistinct st n h.0, export_var-IsMirrored st n h.1)

  get_var-set_from :
      (n : Bytes) (o : Option Bytes) (st : State Body) (m : Bytes)
      → str_eq n m ≡ false
      → get_var (set_from n o st) m ≡ get_var st m
  get_var-set_from n none st m h = refl
  get_var-set_from n (some v) st m h = get_var-set_var st n v m ∙ rw h

  cwd-set_var : (st : State Body) (n v : Bytes) → (set_var st n v).cwd ≡ st.cwd
  unfolding set_var
  cwd-set_var st n v = go (find_var st n)
    where
      go : (o : Option Var) → (set_found st n v o).cwd ≡ st.cwd
      go none = refl
      go (some x) = refl

  cwd-export_var : (st : State Body) (n : Bytes) → (export_var st n).cwd ≡ st.cwd
  unfolding export_var
  cwd-export_var st n = go (find_var st n)
    where
      go : (o : Option Var) → (export_found st n o).cwd ≡ st.cwd
      go none = cwd-set_var st n []
      go (some x) = refl

  -- The state is sound and $PWD is the directory `w`.
  record IsAt (w : Bytes) (st : State Body) : Type 0 where
    sound : IsSound st
    pwd_is : get_var st (codes "PWD") ≡ some w
    cwd_is : st.cwd ≡ w

  set_from-IsAt :
      (w n : Bytes) (o : Option Bytes) (st : State Body)
      → str_eq n (codes "PWD") ≡ false
      → IsAt w st
      → IsAt w (set_from n o st)
  set_from-IsAt w n none st h k = k
  set_from-IsAt w n (some v) st h k = record {
    sound = set_from-IsSound n (some v) st k.sound;
    pwd_is = get_var-set_from n (some v) st (codes "PWD") h ∙ k.pwd_is;
    cwd_is = cwd-set_var st n v ∙ k.cwd_is;
  }

  here-IsAt :
      (w : Bytes) (st : State Body)
      → IsSound st
      → st.cwd ≡ w
      → IsAt w (export_var (set_var st (codes "PWD") w) (codes "PWD"))
  here-IsAt w st h e = record {
    sound =
        export-IsSound (set_var st (codes "PWD") w) (codes "PWD")
          (set_from-IsSound (codes "PWD") (some w) st h);
    pwd_is =
        get_var-export_var (set_var st (codes "PWD") w) (codes "PWD") (codes "PWD")
        ∙ rw (get_var-set_var st (codes "PWD") w (codes "PWD"), str_eq_refl (codes "PWD")) refl;
    cwd_is =
        cwd-export_var (set_var st (codes "PWD") w) (codes "PWD")
        ∙ cwd-set_var st (codes "PWD") w
        ∙ e;
  }

  cwd-set_from : (n : Bytes) (o : Option Bytes) (st : State Body) → (set_from n o st).cwd ≡ st.cwd
  cwd-set_from n none st = refl
  cwd-set_from n (some v) st = cwd-set_var st n v

  nothing-IsSound : (st : State Body) → st.vars ≡ [] → IsSound st
  unfolding find_var find IsDistinct
  nothing-IsSound st e = (rw e tt, λ m x f ex. cc (rw e at f))

  init-IsAt :
      (stat : Stat) (cwd : Bytes) (env : Environment)
      → IsAt (trusted stat cwd (env (codes "PWD"))) (init stat cwd env)
  unfolding init str_eq
  init-IsAt stat cwd env = set_from-IsAt _ (codes "SH") _ _ refl (
      set_from-IsAt _ (codes "TMP") _ _ refl (
        set_from-IsAt _ (codes "OLDPWD") _ _ refl (
          here-IsAt _ _
            (set_from-IsSound (codes "HOME") (env (codes "HOME")) _ (nothing-IsSound _ refl))
            (cwd-set_from (codes "HOME") (env (codes "HOME")) _))))

module _ (Body : Type 0) where
  pub init_lem :
      (stat : Stat) (cwd : Bytes) (env : Environment)
      → IsSound (init {Body = Body} stat cwd env)
        × (get_var (init {Body = Body} stat cwd env) (codes "PWD")
            ≡ some (init {Body = Body} stat cwd env).cwd)
        × (same_dir stat (init {Body = Body} stat cwd env).cwd cwd ≡ true)
  init_lem stat cwd env =
      let at = init-IsAt {Body = Body} stat cwd env in
      (
        at.sound,
        at.pwd_is ∙ ap some (sym at.cwd_is),
        rw at.cwd_is (trusted_same (env (codes "PWD"))),
      )
    where
      kept :
          (p : Bytes) (b : Bool)
          → same_dir stat p cwd ≡ b
          → same_dir stat (if b then p else cwd) cwd ≡ true
      kept p true e = e
      kept p false e = unfold same_dir in rw (str_eq_refl cwd) refl

      trusted_same : (o : Option Bytes) → same_dir stat (trusted stat cwd o) cwd ≡ true
      trusted_same none = unfold same_dir in rw (str_eq_refl cwd) refl
      trusted_same (some p) =
          if_both (λ q. same_dir stat q cwd ≡ true) (peek p == b'/') _ _
            (kept p (same_dir stat p cwd) refl) (unfold same_dir in rw (str_eq_refl cwd) refl)
