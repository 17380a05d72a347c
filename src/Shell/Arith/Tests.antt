-- ===== src/Shell/Arith/Tests.antt =====
-- The theorem on the end of src/components/breezybox/shell/sh_arith.c at an input that meets its
-- hypotheses.
use breezybox.Prelude.{Bool, ℕ, ◌≤◌, ◌≡◌, codes, none, some}
use breezybox.Shell.State.Vars.{State}
use breezybox.Shell.State.Lookup.{set_var-HasDistinct}
use breezybox.Shell.State.Mirror.{IsSound, set_var-IsMirrored}
use breezybox.Shell.State.Startup.{init, init_lem}
use breezybox.Shell.Arith.Parse.{Outcome, arith_eval}
use breezybox.Shell.Arith.Ends.{arith_eval_ends}

abbrev started : State ℕ
started = init (λ p. none) (codes "/root") (λ n. none)

-- Assignments in a text that also names itself keep the names distinct and the environment in step.
arith_eval_ends_example :
    (fuel : ℕ) × (r : State ℕ × Outcome × Bool) × ((k : ℕ)
      → fuel ≤ k
      → arith_eval k started (codes "x = 3, (y += x) * 2 ||") ≡ some r)
    × IsSound r.0
arith_eval_ends_example =
    arith_eval_ends IsSound
      (λ st n v h. (set_var-HasDistinct st n v h.0, set_var-IsMirrored st n v h.1)) started
      (codes "x = 3, (y += x) * 2 ||") (init_lem ℕ (λ p. none) (codes "/root") (λ n. none)).0
