-- ===== src/Shell/Arith/Parse.antt =====
-- The evaluator of src/components/breezybox/shell/sh_arith.c. The functions that call one another
-- are the cases of one function, whose argument says which one runs.
use breezybox.Prelude.{
  ℕ, zero, suc, ◌+◌, Bool, false, not, ◌||◌, leb, ◌==◌, if◌then◌else◌, Bytes, codes, is_digit, peek,
  ℤ, pos, Option, none, some, [], ◌∷◌,
}
use breezybox.Shell.State.Vars.{State, get_var, set_var}
use breezybox.Shell.Arith.Long.{fits, opposite, is_zero, truth, print_long}
use breezybox.Shell.Arith.Scan.{
  skip_ws, starts_name, read_ident, Constant, constant, bad, parse_number,
}
use breezybox.Shell.Arith.Syntax.{
  Level, comma, assign, lor, unary, primary, Task, start, loop, Operation, Context, max_depth,
  below, operations, find_operation, behind, refused, apply, is_undefined, skip_dollar, name_room,
  assign_lhs, is_plain,
}

module _ {Body : Type 0} where
  abbrev pub fail : Bytes → Context Body → Context Body
  fail m c = elim c.err [ none ↦ record c { err = some m } | some first ↦ c ]

  -- A result, flagged where it is no `long`.
  abbrev pub with_value : ℤ → Context Body → ℤ × Context Body
  with_value v c = (v, record c { overflow = c.overflow || not (fits v) })

  abbrev pub and_then :
      Option (ℤ × Context Body)
      → (ℤ → Context Body → Option (ℤ × Context Body))
      → Option (ℤ × Context Body)
  and_then none f = none
  and_then (some (v, c)) f = f v c

  -- The operation on two operands, flagged where it is undefined.
  abbrev pub with_operands : Operation → ℤ → ℤ → Context Body → Context Body
  with_operands op l r c = record c { overflow = c.overflow || is_undefined op l r }

  -- behind the second operand
  abbrev pub go_on :
      (Task → Context Body → Option (ℤ × Context Body))
      → Level
      → Option ℤ
      → Context Body
      → Option (ℤ × Context Body)
  go_on k level none c = some (pos 0, fail (codes "division by zero") c)
  go_on k level (some v) c = let (v', c') = with_value v c in k (loop level v') c'

  -- a round of the loop of a level of binary operators
  abbrev pub with_operator :
      (Task → Context Body → Option (ℤ × Context Body))
      → Level
      → ℤ
      → Option (Operation × Bytes)
      → Context Body
      → Option (ℤ × Context Body)
  with_operator k level l none c = some (l, c)
  with_operator k level l (some (op, rest)) c =
      and_then (k (start (below level)) (record c { p = rest }))
        (λ r c'. go_on k level (apply op l r) (with_operands op l r c'))

  abbrev pub or_refuse :
      (Task → Context Body → Option (ℤ × Context Body))
      → Level
      → ℤ
      → Option Bytes
      → Context Body
      → Option (ℤ × Context Body)
  or_refuse k level l (some m) c = some (pos 0, fail m c)
  or_refuse k level l none c = with_operator k level l (find_operation (operations level) c.p) c

  -- The end of `deref`: what the copy of the context has failed with is passed on.
  abbrev pub close_value : Context Body → ℤ → Context Body → Option (ℤ × Context Body)
  close_value c r sub =
      let rest = skip_ws sub.p in
      let ended = if peek rest == 0 then sub else fail (codes "invalid arithmetic value") sub in
      let back = record c { st = sub.st; overflow = sub.overflow } in
      elim ended.err [ none ↦ some (r, back) | some m ↦ some (pos 0, fail m back) ]

  abbrev pub deref_value :
      (Task → Context Body → Option (ℤ × Context Body))
      → Context Body
      → Bytes
      → Option (ℤ × Context Body)
  deref_value k c [] = some (pos 0, c)
  deref_value k c (a ∷ v) =
      if leb max_depth c.depth
      then some (pos 0, fail (codes "arithmetic recursion too deep") c)
      else and_then (k (start comma) (record c { p = a ∷ v; depth = c.depth + 1 })) (close_value c)

  abbrev pub deref :
      (Task → Context Body → Option (ℤ × Context Body))
      → Context Body
      → Bytes
      → Option (ℤ × Context Body)
  deref k c name = elim (get_var c.st name) [
    | none ↦ some (pos 0, c)
    | some v ↦ deref_value k c (skip_ws v)
  ]

  -- the assignment once the variable was read
  abbrev pub store : Bytes → Option ℤ → Context Body → Option (ℤ × Context Body)
  store name none c = some (pos 0, fail (codes "division by zero") c)
  store name (some v) c = elim c.err [
    | none ↦ some (
        let (v', c') = with_value v c in (v', record c' { st = set_var c'.st name (print_long v) }))
    | some m ↦ some (pos 0, c)
  ]

  abbrev pub assign_to :
      (Task → Context Body → Option (ℤ × Context Body))
      → Bytes
      → Operation
      → ℤ
      → Context Body
      → Option (ℤ × Context Body)
  assign_to k name op r c = elim c.err [
    | none ↦
        if is_plain op
        then store name (some r) c
        else and_then (deref k c name) (λ l c'. store name (apply op l r) (with_operands op l r c'))
    | some m ↦ some (pos 0, c)
  ]

  abbrev pub from_constant : Context Body → Constant → Option (ℤ × Context Body)
  from_constant c (constant n rest) = some (with_value (pos n) (record c { p = rest }))
  from_constant c (bad m) = some (pos 0, fail m c)

  abbrev pub close_paren : ℤ → Context Body → Option (ℤ × Context Body)
  close_paren r c =
      let rest = skip_ws c.p in
      if peek rest == b')'
      then some (r, record c { p = behind rest })
      else some (r, fail (codes "missing ) in arithmetic") (record c { p = rest }))

  -- behind a `$`, if there is one
  abbrev pub operand_at :
      (Task → Context Body → Option (ℤ × Context Body))
      → Bytes
      → Context Body
      → Option (ℤ × Context Body)
  operand_at k text c =
      let (name, rest) = read_ident name_room text in
      if is_digit (peek text)
      then from_constant (record c { p = text }) (parse_number text)
      else if starts_name (peek text)
      then deref k (record c { p = skip_ws rest }) name
      else some (pos 0, fail (codes "unexpected token in arithmetic") (record c { p = text }))

  abbrev pub primary_at :
      (Task → Context Body → Option (ℤ × Context Body))
      → Bytes
      → Context Body
      → Option (ℤ × Context Body)
  primary_at k s c =
      if peek s == b'('
      then and_then (k (start comma) (record c { p = behind s })) close_paren
      else operand_at k (skip_dollar s) c

  abbrev pub unary_at :
      (Task → Context Body → Option (ℤ × Context Body))
      → Bytes
      → Context Body
      → Option (ℤ × Context Body)
  unary_at k s c =
      if peek s == b'+'
      then k (start unary) (record c { p = behind s })
      else if peek s == b'-'
      then and_then (k (start unary) (record c { p = behind s }))
          (λ v c'. some (with_value (opposite v) c'))
      else if peek s == b'!'
      then and_then (k (start unary) (record c { p = behind s }))
          (λ v c'. some (truth (is_zero v), c'))
      else k (start primary) (record c { p = s })

  abbrev pub assign_at :
      (Task → Context Body → Option (ℤ × Context Body))
      → Option (Bytes × Operation × Bytes)
      → Context Body
      → Option (ℤ × Context Body)
  assign_at k none c = k (start lor) c
  assign_at k (some (name, op, rest)) c =
      and_then (k (start assign) (record c { p = rest })) (assign_to k name op)

  -- One function body; its calls are those of `k`.
  unfoldable pub body :
      (Task → Context Body → Option (ℤ × Context Body))
      → Task
      → Context Body
      → Option (ℤ × Context Body)
  unfolding assign_lhs apply is_undefined find_operation skip_ws parse_number read_ident
  body k (loop level l) c =
      let skipped = record c { p = skip_ws c.p } in
      or_refuse k level l (refused level skipped.p) skipped
  body k (start assign) c = assign_at k (assign_lhs c.p) c
  body k (start unary) c = unary_at k (skip_ws c.p) c
  body k (start primary) c = primary_at k (skip_ws c.p) c
  body k (start level) c = and_then (k (start (below level)) c) (loop_from level)
    where
      loop_from : Level → ℤ → Context Body → Option (ℤ × Context Body)
      loop_from level l c = k (loop level l) c

  -- `none` where the fuel, which bounds the depth of calls and rounds, runs out.
  unfoldable pub parse : ℕ → Task → Context Body → Option (ℤ × Context Body)
  unfolding body
  parse zero task c = none
  parse (suc f) task c = body (parse f) task c

-- What `sh_arith_eval` returns: 0 and `*out`, or 1 and `*errmsg`.
pub data Outcome : Type 0 where
  value : ℤ → Outcome
  error : Bytes → Outcome

module _ {Body : Type 0} where
  abbrev pub outcome_of : Option (ℤ × Context Body) → Option (State Body × Outcome × Bool)
  outcome_of none = none
  outcome_of (some (r, c)) =
      let ended =
        if peek (skip_ws c.p) == 0
        then c
        else fail (codes "unexpected trailing characters in arithmetic") c in
      elim ended.err [
        | none ↦ some (c.st, value r, c.overflow)
        | some m ↦ some (c.st, error m, c.overflow)
      ]

  abbrev pub begin : State Body → Bytes → Context Body
  begin st text = record { st = st; p = text; err = none; depth = 0; overflow = false }

  abbrev pub eval_text : ℕ → State Body → Bytes → Option (State Body × Outcome × Bool)
  eval_text f st [] = some (st, value (pos 0), false)
  eval_text f st (a ∷ text) = outcome_of (parse f (start comma) (begin st (a ∷ text)))

  -- The state, the outcome, and whether a result was no `long`.
  unfoldable pub arith_eval : ℕ → State Body → Bytes → Option (State Body × Outcome × Bool)
  unfolding parse skip_ws
  arith_eval f st text = eval_text f st (skip_ws text)
