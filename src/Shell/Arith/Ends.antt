-- ===== src/Shell/Arith/Ends.antt =====
-- The evaluator of src/components/breezybox/shell/sh_arith.c comes to an end on every text.
mod Measure
mod Operators
mod Operands
use breezybox.Prelude.{
  ℕ, zero, suc, ◌+◌, ◌*◌, ◌-◌, ◌≤◌, ◌<◌, ◌≡◌, refl, Bool, true, false, not, leb, ◌==◌, ==_iff,
  codes, if◌then◌else◌, Bytes, is_digit, ℤ, pos, peek, Option, none, some, [], ◌∷◌, length, arith,
  tests, ◌∙◌, sym, ap, Bool-cases, inl, inr,
}
use native.Mathlib.Nat.{le_trans}
use breezybox.Shell.State.Vars.{State, get_var, set_var}
use breezybox.Shell.Arith.Long.{opposite, is_zero, truth, print_long}
use breezybox.Shell.Arith.Scan.{
  skip_ws, starts_name, read_ident, Constant, constant, bad, parse_number,
}
use breezybox.Shell.Arith.Syntax.{
  Level, comma, assign, lor, land, equal, rel, sum, product, unary, primary, Operation, Context,
  Task, start, loop, max_depth, below, operations, find_operation, behind, refused, apply,
  skip_dollar, name_room, assign_lhs, is_plain,
}
use breezybox.Shell.Arith.Parse.{
  fail, with_value, and_then, go_on, with_operator, or_refuse, close_value, deref_value, deref,
  store, assign_to, from_constant, close_paren, operand_at, primary_at, unary_at, assign_at, body,
  parse, Outcome, value, error, outcome_of, begin, eval_text, arith_eval,
}
use breezybox.Shell.Arith.Shorter.{
  Shrinks, ShrinksBehind, skip_ws-le, behind-le, behind-lt, skip_dollar-le, read_ident-le,
  operations-Shrinks, assign_lhs-Shrinks, ConstantWithin, parse_number-Within,
}
use breezybox.Shell.Arith.Settles.{
  Within, Settles, settled, and_then-Settles, if-Settles, parse-Settles, Within_le, fail-Within,
  Settles_le,
}
use breezybox.Shell.Arith.Ends.Measure.{rank, weight, rank-below, Ready, Deeper}
use breezybox.Shell.Arith.Ends.Operators.{binary, loop-Settles}
use breezybox.Shell.Arith.Ends.Operands.{assign_at-Settles, unary_at-Settles, primary_at-Settles}

module _ {Body : Type 0} (P : State Body → Type 0)
    (keeps : (st : State Body) (n v : Bytes) → P st → P (set_var st n v)) (n d : ℕ)
    (ready : Ready P n d) (deeper : Deeper P d) where
  -- Each function ends if its calls of smaller measure do.
  body-Settles :
      (m : ℕ) (task : Task) (c : Context Body)
      → m * 11 + weight task ≤ n
      → Within P m d c
      → Settles P m d (λ k. body (parse k) task c)
  unfolding body
  body-Settles m (loop level l) c h w = loop-Settles P n d ready m level l c (omega (arith, h)) w
  body-Settles m (start comma) c h w = binary P n d ready m comma c (omega (arith, h)) w
  body-Settles m (start lor) c h w = binary P n d ready m lor c (omega (arith, h)) w
  body-Settles m (start land) c h w = binary P n d ready m land c (omega (arith, h)) w
  body-Settles m (start equal) c h w = binary P n d ready m equal c (omega (arith, h)) w
  body-Settles m (start rel) c h w = binary P n d ready m rel c (omega (arith, h)) w
  body-Settles m (start sum) c h w = binary P n d ready m sum c (omega (arith, h)) w
  body-Settles m (start product) c h w = binary P n d ready m product c (omega (arith, h)) w
  body-Settles m (start assign) c h w =
      assign_at-Settles P keeps n d ready deeper m (assign_lhs c.p) c (omega (arith, h)) w
        (in_text (assign_lhs c.p) (assign_lhs-Shrinks c.p))
    where
      in_text :
          (o : Option (Bytes × Operation × Bytes))
          → ShrinksBehind (length c.p) o
          → ShrinksBehind m o
      in_text none k = tt
      in_text (some (name, op, rest)) k = omega (arith, k, w.short)
  body-Settles m (start unary) c h w =
      unary_at-Settles P keeps n d ready deeper m (skip_ws c.p) c
        (le_trans (skip_ws-le c.p) w.short) (omega (arith, h)) w
  body-Settles m (start primary) c h w =
      primary_at-Settles P keeps n d ready deeper m (skip_ws c.p) c
        (le_trans (skip_ws-le c.p) w.short) (omega (arith, h)) w

module _ {Body : Type 0} (P : State Body → Type 0)
    (keeps : (st : State Body) (n v : Bytes) → P st → P (set_var st n v)) where
  -- By the measure.
  all-Ready : (d : ℕ) → Deeper P d → (n : ℕ) → Ready P n d
  all-Ready d deeper zero m task c h w = absurd (omega (arith, h))
  all-Ready d deeper (suc n) m task c h w =
      parse-Settles P m d task c
        (body-Settles P keeps n d (all-Ready d deeper n) deeper m task c (omega (arith, h)) w)

  -- By what is left of the depth.
  all-Deeper : (left d : ℕ) → max_depth ≤ left + d → Deeper P d
  all-Deeper zero d h e m c w =
      let deep : max_depth ≤ d = omega (arith, h) in absurd (ground (arith, deep))
  all-Deeper (suc left) d h e m c w =
      all-Ready (d + 1) (all-Deeper left (d + 1) (omega (arith, h))) (m * 11 + 11) m (start comma) c
        (omega arith) w

  comma-Settles :
      (st : State Body) (s : Bytes)
      → P st
      → Settles P (length s) 0 (λ k. parse k (start comma) (begin st s))
  comma-Settles st s h =
      all-Ready 0 (all-Deeper 32 0 (omega arith)) (length s * 11 + 11) (length s) (start comma)
        (begin st s) (omega arith) (record { short = omega arith; depth_is = refl; state_has = h })

  -- For every text there is fuel from which on the evaluator gives one and the same outcome, and a
  -- property of the shell's state that assignments keep holds of the state it leaves.
  pub arith_eval_ends :
      (st : State Body) (text : Bytes)
      → P st
      → (fuel : ℕ) × (r : State Body × Outcome × Bool) × ((k : ℕ)
          → fuel ≤ k
          → arith_eval k st text ≡ some r)
        × P r.0
  unfolding arith_eval
  arith_eval_ends st text h = go (skip_ws text)
    where
      closed :
          (v : ℤ) (c : Context Body)
          → P c.st
          → (r : State Body × Outcome × Bool) × (outcome_of (some (v, c)) ≡ some r) × P r.0
      closed v c h =
          pick
            (if peek (skip_ws c.p) == 0
              then c
              else fail (codes "unexpected trailing characters in arithmetic") c).err
        where
          pick :
              (e : Option Bytes)
              → (r : State Body × Outcome × Bool) × (elim e [
                | none ↦ some (c.st, value v, c.overflow)
                | some m ↦ some (c.st, error m, c.overflow)
              ]
                  ≡ some r)
                × P r.0
          pick none = (_, refl, h)
          pick (some m) = (_, refl, h)

      go :
          (s : Bytes)
          → (fuel : ℕ) × (r : State Body × Outcome × Bool) × ((k : ℕ)
              → fuel ≤ k
              → eval_text k st s ≡ some r)
            × P r.0
      go [] = (0, _, λ k _. refl, h)
      go (a ∷ s) =
          let ends = comma-Settles st (a ∷ s) h in
          let (r, e, p) = closed ends.result ends.last ends.within.state_has in
          (ends.fuel, r, λ k l. ap outcome_of (ends.ends k l) ∙ e, p)
