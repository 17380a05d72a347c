-- ===== src/Cwd/Tests.antt =====
-- Runs of src/components/breezybox/breezy_vfs.c, and the theorems at inputs that meet their
-- hypotheses.
use breezybox.Prelude.{◌+◌, ◌≡◌, refl, true, codes, str_eq, arith}
use breezybox.Cwd.{
  last_slash, parent, new_path, enter, set_cwd, resolve_path, IsCwd, set_cwd-IsCwd,
  set_cwd-resolve_path,
}

up_from_root_child : set_cwd (λ p. true) 128 (codes "/root") (codes "..") ≡ (codes "/", true)
unfolding set_cwd new_path parent last_slash str_eq
up_from_root_child = refl

into_child : set_cwd (λ p. true) 128 (codes "/") (codes "root") ≡ (codes "/root", true)
unfolding set_cwd new_path parent last_slash str_eq
into_child = refl

root-IsCwd : IsCwd 128 (codes "/root")
root-IsCwd = record { fits = omega arith; absolute = refl }

set_cwd-IsCwd_example : IsCwd 128 (set_cwd (λ p. true) 128 (codes "/root") (codes "share")).0
set_cwd-IsCwd_example =
    set_cwd-IsCwd (λ p. true) 128 (codes "/root") (codes "share") (omega arith) root-IsCwd

set_cwd-resolve_path_example :
    set_cwd (λ p. true) 128 (codes "/root") (codes "share")
    ≡ enter (λ p. true) (codes "/root") (resolve_path (128 + 1) (codes "/root") (codes "share"))
unfolding str_eq
set_cwd-resolve_path_example =
    set_cwd-resolve_path (λ p. true) 128 (codes "/root") (codes "share") root-IsCwd refl
