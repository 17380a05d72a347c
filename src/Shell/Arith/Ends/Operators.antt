-- ===== src/Shell/Arith/Ends/Operators.antt =====
-- The levels of binary operators of src/components/breezybox/shell/sh_arith.c come to an end if what
-- they call does.
use breezybox.Prelude.{ℕ, ◌+◌, ◌*◌, ◌≤◌, ◌<◌, Bytes, ℤ, pos, Option, none, some, length, arith}
use native.Mathlib.Nat.{le_trans}
use breezybox.Shell.State.Vars.{State}
use breezybox.Shell.Arith.Scan.{skip_ws}
use breezybox.Shell.Arith.Syntax.{
  Level, Operation, Context, start, loop, below, operations, find_operation, refused, apply,
}
use breezybox.Shell.Arith.Parse.{
  fail, with_value, with_operands, and_then, go_on, with_operator, or_refuse, body, parse,
}
use breezybox.Shell.Arith.Shorter.{Shrinks, skip_ws-le, operations-Shrinks}
use breezybox.Shell.Arith.Settles.{
  Within, Settles, settled, and_then-Settles, fail-Within, Settles_le,
}
use breezybox.Shell.Arith.Ends.Measure.{rank, rank-below, Ready}

module _ {Body : Type 0} (P : State Body → Type 0) (n d : ℕ) (ready : Ready P n d) where
  pub at_text :
      {m j : ℕ} (c : Context Body) (s : Bytes)
      → Within P m d c
      → length s ≤ j
      → Within P j d (record c { p = s })
  at_text c s w h = record { short = h; depth_is = w.depth_is; state_has = w.state_has }

  pub valued :
      (m : ℕ) (v : ℤ) (c : Context Body)
      → Within P m d c
      → Settles P m d (λ k. some (with_value v c))
  valued m v c w =
      settled P m d v _ (record { short = w.short; depth_is = w.depth_is; state_has = w.state_has })

  pub failed :
      (m : ℕ) (message : Bytes) (c : Context Body)
      → Within P m d c
      → Settles P m d (λ k. some (pos 0, fail message c))
  failed m message c w = settled P m d (pos 0) _ (fail-Within P m d message c w)

  pub binary :
      (m : ℕ) (level : Level) (c : Context Body)
      → m * 11 + rank (below level) < n
      → Within P m d c
      → Settles P m d
          (λ k. and_then (parse k (start (below level)) c) (λ l c'. parse k (loop level l) c'))
  binary m level c h w =
      and_then-Settles P m m d d _ _ (ready m (start (below level)) c h w)
        (λ l c' w'. ready m (loop level l) c' (omega (arith, h)) w')

  pub operands :
      {m : ℕ} {c : Context Body} (op : Operation) (l r : ℤ)
      → Within P m d c
      → Within P m d (with_operands op l r c)
  operands op l r w = record { short = w.short; depth_is = w.depth_is; state_has = w.state_has }

  pub go_on-Settles :
      (m : ℕ) (level : Level) (o : Option ℤ) (c : Context Body)
      → m * 11 < n
      → Within P m d c
      → Settles P m d (λ k. go_on (parse k) level o c)
  go_on-Settles m level none c h w = failed m _ c w
  go_on-Settles m level (some v) c h w =
      ready m (loop level v) _ (omega (arith, h))
        (record { short = w.short; depth_is = w.depth_is; state_has = w.state_has })

  pub with_operator-Settles :
      (m : ℕ) (level : Level) (l : ℤ) (o : Option (Operation × Bytes)) (c : Context Body)
      → m * 11 ≤ n
      → Within P m d c
      → Shrinks m o
      → Settles P m d (λ k. with_operator (parse k) level l o c)
  with_operator-Settles m level l none c h w s = settled P m d l c w
  with_operator-Settles m level l (some (op, rest)) c h w s =
      Settles_le P {m = length rest} (omega (arith, s)) (
        and_then-Settles P (length rest) (length rest) d d _ _
          (ready (length rest) (start (below level)) _ (omega (arith, h, s, rank-below level))
            (at_text c rest w (omega arith)))
          (λ r c' w'.
            go_on-Settles (length rest) level (apply op l r) (with_operands op l r c')
              (omega (arith, h, s)) (operands op l r w')))

  pub loop-Settles :
      (m : ℕ) (level : Level) (l : ℤ) (c : Context Body)
      → m * 11 ≤ n
      → Within P m d c
      → Settles P m d (λ k. body (parse k) (loop level l) c)
  unfolding body
  loop-Settles m level l c h w = go (refused level (skip_ws c.p))
    where
      skipped : Context Body
      skipped = record c { p = skip_ws c.p }

      skipped-Within : Within P m d skipped
      skipped-Within = at_text c (skip_ws c.p) w (le_trans (skip_ws-le c.p) w.short)

      found : (o : Option (Operation × Bytes)) → Shrinks (length (skip_ws c.p)) o → Shrinks m o
      found none k = tt
      found (some (op, rest)) k = omega (arith, k, skipped-Within.short)

      go : (o : Option Bytes) → Settles P m d (λ k. or_refuse (parse k) level l o skipped)
      go none =
          with_operator-Settles m level l (find_operation (operations level) (skip_ws c.p)) skipped
            h skipped-Within (found _ (operations-Shrinks level (skip_ws c.p)))
      go (some message) = failed m message skipped skipped-Within
