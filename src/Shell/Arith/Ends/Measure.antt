-- ===== src/Shell/Arith/Ends/Measure.antt =====
-- What a call in src/components/breezybox/shell/sh_arith.c is smaller than: it is on a shorter text,
-- on the same text at a lower rank, or deeper in the values of variables.
use breezybox.Prelude.{ℕ, ◌+◌, ◌*◌, ◌≤◌, ◌<◌, ◌≡◌, false, leb, arith}
use breezybox.Shell.State.Vars.{State}
use breezybox.Shell.Arith.Syntax.{
  Level, comma, assign, lor, land, equal, rel, sum, product, unary, primary, Context, Task, start,
  loop, max_depth, below,
}
use breezybox.Shell.Arith.Parse.{parse}
use breezybox.Shell.Arith.Settles.{Within, Settles}

-- A call on the same text is one of a lower rank.
abbrev pub rank : Level → ℕ
rank comma = 10
rank assign = 9
rank lor = 8
rank land = 7
rank equal = 6
rank rel = 5
rank sum = 4
rank product = 3
rank unary = 2
rank primary = 1

abbrev pub weight : Task → ℕ
weight (start level) = rank level
weight (loop level l) = 0

pub rank-below : (level : Level) → rank (below level) ≤ 10
rank-below comma = omega arith
rank-below assign = omega arith
rank-below lor = omega arith
rank-below land = omega arith
rank-below equal = omega arith
rank-below rel = omega arith
rank-below sum = omega arith
rank-below product = omega arith
rank-below unary = omega arith
rank-below primary = omega arith

module _ {Body : Type 0} (P : State Body → Type 0) where
  -- What is smaller than `n` comes to an end.
  abbrev pub Ready : ℕ → ℕ → Type 0
  Ready n d =
      (m : ℕ) (task : Task) (c : Context Body)
      → m * 11 + weight task < n
      → Within P m d c
      → Settles P m d (λ k. parse k task c)

  -- The values of variables come to an end, if they are evaluated at all.
  abbrev pub Deeper : ℕ → Type 0
  Deeper d =
      leb max_depth d ≡ false
      → (m : ℕ) (c : Context Body) → Within P m (d + 1) c
      → Settles P m (d + 1) (λ k. parse k (start comma) c)
