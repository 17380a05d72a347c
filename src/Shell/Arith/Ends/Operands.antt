-- ===== src/Shell/Arith/Ends/Operands.antt =====
-- The operands, assignments and variables of src/components/breezybox/shell/sh_arith.c come to an end
-- if what they call does.
use breezybox.Prelude.{
  ℕ, ◌+◌, ◌*◌, ◌≤◌, ◌<◌, ◌≡◌, true, leb, ◌==◌, codes, if◌then◌else◌, Bytes, is_digit, ℤ, pos, peek,
  Option, none, some, [], ◌∷◌, length, arith, ap,
}
use native.Mathlib.Nat.{le_trans}
use breezybox.Shell.State.Vars.{State, get_var, set_var}
use breezybox.Shell.Arith.Long.{opposite, print_long}
use breezybox.Shell.Arith.Scan.{
  skip_ws, starts_name, read_ident, Constant, constant, bad, parse_number,
}
use breezybox.Shell.Arith.Syntax.{
  comma, assign, lor, unary, primary, Operation, Context, Task, start, max_depth, behind, apply,
  skip_dollar, name_room, is_plain,
}
use breezybox.Shell.Arith.Parse.{
  fail, with_value, with_operands, and_then, close_value, deref_value, deref, store, assign_to,
  from_constant, close_paren, operand_at, primary_at, unary_at, assign_at, parse,
}
use breezybox.Shell.Arith.Shorter.{
  ShrinksBehind, skip_ws-le, behind-le, behind-lt, skip_dollar-le, read_ident-le, ConstantWithin,
  parse_number-Within,
}
use breezybox.Shell.Arith.Settles.{
  Within, Settles, settled, and_then-Settles, if-Settles, Within_le, fail-Within, Settles_le,
}
use breezybox.Shell.Arith.Ends.Measure.{weight, Ready, Deeper}
use breezybox.Shell.Arith.Ends.Operators.{at_text, valued, failed}

module _ {Body : Type 0} (P : State Body → Type 0)
    (keeps : (st : State Body) (n v : Bytes) → P st → P (set_var st n v)) (n d : ℕ)
    (ready : Ready P n d) (deeper : Deeper P d) where
  pub close_value-Settles :
      (m : ℕ) (c : Context Body) (r : ℤ) (sub : Context Body)
      → Within P m d c
      → P sub.st
      → Settles P m d (λ k. close_value c r sub)
  close_value-Settles m c r sub w h =
      go
        (if peek (skip_ws sub.p) == 0 then sub else fail (codes "invalid arithmetic value") sub).err
    where
      back : Context Body
      back = record c { st = sub.st; overflow = sub.overflow }

      back-Within : Within P m d back
      back-Within = record { short = w.short; depth_is = w.depth_is; state_has = h }

      go :
          (e : Option Bytes)
          → Settles P m d (λ k. elim e [
            | none ↦ some (r, back)
            | some message ↦ some (pos 0, fail message back)
          ])
      go none = settled P m d r back back-Within
      go (some message) = failed P n d ready m message back back-Within

  pub deref_value-Settles :
      (m : ℕ) (c : Context Body) (v : Bytes)
      → Within P m d c
      → Settles P m d (λ k. deref_value (parse k) c v)
  deref_value-Settles m c [] w = settled P m d (pos 0) c w
  deref_value-Settles m c (a ∷ v) w =
      if-Settles P m d (leb max_depth c.depth) _ _ (λ _. failed P n d ready m _ c w)
        (λ h.
          and_then-Settles P (length (a ∷ v)) m (d + 1) d _ _
            (deeper (rw w.depth_is at h) (length (a ∷ v)) _ (record {
              short = omega arith;
              depth_is = ap (λ x. x + 1) w.depth_is;
              state_has = w.state_has;
            }))
            (λ r sub w'. close_value-Settles m c r sub w w'.state_has))

  pub deref-Settles :
      (m : ℕ) (c : Context Body) (name : Bytes)
      → Within P m d c
      → Settles P m d (λ k. deref (parse k) c name)
  deref-Settles m c name w = go (get_var c.st name)
    where
      go :
          (o : Option Bytes)
          → Settles P m d (λ k. elim o [
            | none ↦ some (pos 0, c)
            | some v ↦ deref_value (parse k) c (skip_ws v)
          ])
      go none = settled P m d (pos 0) c w
      go (some v) = deref_value-Settles m c (skip_ws v) w

  pub store-Settles :
      (m : ℕ) (name : Bytes) (o : Option ℤ) (c : Context Body)
      → Within P m d c
      → Settles P m d (λ k. store name o c)
  store-Settles m name none c w = failed P n d ready m _ c w
  store-Settles m name (some v) c w = go c.err
    where
      stored : Context Body
      stored = record (with_value v c).1 { st = set_var c.st name (print_long v) }

      go :
          (e : Option Bytes)
          → Settles P m d (λ k. elim e [ none ↦ some (v, stored) | some message ↦ some (pos 0, c) ])
      go none = settled P m d v stored (record {
        short = w.short;
        depth_is = w.depth_is;
        state_has = keeps c.st name (print_long v) w.state_has;
      })
      go (some message) = settled P m d (pos 0) c w

  pub assign_to-Settles :
      (m : ℕ) (name : Bytes) (op : Operation) (r : ℤ) (c : Context Body)
      → Within P m d c
      → Settles P m d (λ k. assign_to (parse k) name op r c)
  assign_to-Settles m name op r c w = go c.err
    where
      assigned : Settles P m d (λ k.
          if is_plain op
          then store name (some r) c
          else and_then
              (deref (parse k) c name)
              (λ l c'. store name (apply op l r) (with_operands op l r c')))
      assigned =
          if-Settles P m d (is_plain op) _ _ (λ _. store-Settles m name (some r) c w)
            (λ _. and_then-Settles P m m d d _ _ (deref-Settles m c name w) (λ l c' w'.
              store-Settles m name (apply op l r) (with_operands op l r c')
                (record { short = w'.short; depth_is = w'.depth_is; state_has = w'.state_has })))

      go :
          (e : Option Bytes)
          → Settles P m d (λ k. elim e [
            | none ↦
                if is_plain op
                then store name (some r) c
                else and_then
                    (deref (parse k) c name)
                    (λ l c'. store name (apply op l r) (with_operands op l r c'))
            | some message ↦ some (pos 0, c)
          ])
      go none = assigned
      go (some message) = settled P m d (pos 0) c w

  pub assign_at-Settles :
      (m : ℕ) (o : Option (Bytes × Operation × Bytes)) (c : Context Body)
      → m * 11 + 8 < n
      → Within P m d c
      → ShrinksBehind m o
      → Settles P m d (λ k. assign_at (parse k) o c)
  assign_at-Settles m none c h w s = ready m (start lor) c h w
  assign_at-Settles m (some (name, op, rest)) c h w s =
      Settles_le P {m = length rest} (omega (arith, s)) (
        and_then-Settles P (length rest) (length rest) d d _ _
          (ready (length rest) (start assign) _ (omega (arith, h, s))
            (at_text P n d ready c rest w (omega arith)))
          (λ r c' w'. assign_to-Settles (length rest) name op r c' w'))

  pub close_paren-Settles :
      (m : ℕ) (r : ℤ) (c : Context Body) → Within P m d c → Settles P m d (λ k. close_paren r c)
  close_paren-Settles m r c w =
      if-Settles P m d (peek (skip_ws c.p) == b')') _ _
        (λ _. settled P m d r _ (
          at_text P n d ready c (behind (skip_ws c.p)) w
            (le_trans (behind-le (skip_ws c.p)) rest_short)))
        (λ _.
          settled P m d r _
            (fail-Within P m d _ _ (at_text P n d ready c (skip_ws c.p) w rest_short)))
    where
      rest_short : length (skip_ws c.p) ≤ m
      rest_short = le_trans (skip_ws-le c.p) w.short

  pub from_constant-Settles :
      (m : ℕ) (o : Constant) (c : Context Body)
      → Within P m d c
      → ConstantWithin m o
      → Settles P m d (λ k. from_constant c o)
  from_constant-Settles m (constant v rest) c w h =
      valued P n d ready m (pos v) _ (at_text P n d ready c rest w h)
  from_constant-Settles m (bad message) c w h = failed P n d ready m message c w

  pub constant_in : (m : ℕ) (s : Bytes) → length s ≤ m → ConstantWithin m (parse_number s)
  constant_in m s h = go (parse_number s) (parse_number-Within s)
    where
      go : (o : Constant) → ConstantWithin (length s) o → ConstantWithin m o
      go (constant v rest) k = omega (arith, h, k)
      go (bad message) k = tt

  pub operand_at-Settles :
      (m : ℕ) (s : Bytes) (c : Context Body)
      → length s ≤ m
      → Within P m d c
      → Settles P m d (λ k. operand_at (parse k) s c)
  operand_at-Settles m s c h w =
      if-Settles P m d (is_digit (peek s)) _ _
        (λ _.
          from_constant-Settles m (parse_number s) _ (at_text P n d ready c s w h)
            (constant_in m s h))
        (λ _.
          if-Settles P m d (starts_name (peek s)) _ _
            (λ _. deref-Settles m _ (read_ident name_room s).0 (
              at_text P n d ready c (skip_ws (read_ident name_room s).1) w (
                le_trans (skip_ws-le (read_ident name_room s).1)
                  (le_trans (read_ident-le name_room s) h))))
            (λ _. failed P n d ready m _ _ (at_text P n d ready c s w h)))

  -- A byte that is taken leaves room for a call of any rank.
  pub taken :
      (m : ℕ) (task : Task) (s : Bytes) (a : ℕ) (c : Context Body)
      → (peek s == a) ≡ true
      → 0 < a
      → length s ≤ m
      → m * 11 ≤ n
      → weight task ≤ 10
      → Within P m d c
      → Settles P (length (behind s)) d (λ k. parse k task (record c { p = behind s }))
  taken m task s a c e k h b r w =
      ready (length (behind s)) task _ (omega (arith, behind-lt s a e k, h, b, r))
        (at_text P n d ready c (behind s) w (omega arith))

  pub primary_at-Settles :
      (m : ℕ) (s : Bytes) (c : Context Body)
      → length s ≤ m
      → m * 11 ≤ n
      → Within P m d c
      → Settles P m d (λ k. primary_at (parse k) s c)
  primary_at-Settles m s c h b w =
      if-Settles P m d (peek s == b'(') _ _
        (λ e.
          and_then-Settles P (length (behind s)) m d d _ _
            (taken m (start comma) s b'(' c e (omega arith) h b (omega arith) w)
            (λ r c' w'. close_paren-Settles m r c' (Within_le P (le_trans (behind-le s) h) w')))
        (λ _. operand_at-Settles m (skip_dollar s) c (le_trans (skip_dollar-le s) h) w)

  pub unary_at-Settles :
      (m : ℕ) (s : Bytes) (c : Context Body)
      → length s ≤ m
      → m * 11 + 1 < n
      → Within P m d c
      → Settles P m d (λ k. unary_at (parse k) s c)
  unary_at-Settles m s c h b w =
      if-Settles P m d (peek s == b'+') _ _
        (λ e. Settles_le P behind_in (operand b'+' e (omega arith)))
        (λ _.
          if-Settles P m d (peek s == b'-') _ _
            (λ e.
              and_then-Settles P (length (behind s)) m d d _ _ (operand b'-' e (omega arith))
                (λ v c' w'. valued P n d ready m (opposite v) c' (Within_le P behind_in w')))
            (λ _.
              if-Settles P m d (peek s == b'!') _ _
                (λ e.
                  and_then-Settles P (length (behind s)) m d d _ _ (operand b'!' e (omega arith))
                    (λ v c' w'. settled P m d _ c' (Within_le P behind_in w')))
                (λ _. ready m (start primary) _ b (at_text P n d ready c s w h))))
    where
      behind_in : length (behind s) ≤ m
      behind_in = le_trans (behind-le s) h

      operand :
          (a : ℕ)
          → (peek s == a) ≡ true
          → 0 < a
          → Settles P (length (behind s)) d (λ k. parse k (start unary) (record c { p = behind s }))
      operand a e k = taken m (start unary) s a c e k h (omega (arith, b)) (omega arith) w
