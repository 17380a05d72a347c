-- ===== src/Shell/Arith/Syntax.antt =====
-- The operators and the left sides of assignments in src/components/breezybox/shell/sh_arith.c.
use breezybox.Prelude.{
  ℕ, Bool, true, false, not, ◌||◌, ◌&&◌, ◌==◌, if◌then◌else◌, Bytes, codes, peek, ℤ, Option, none,
  some, List, [], ◌∷◌,
}
use breezybox.Shell.State.Vars.{State}
use breezybox.Shell.Arith.Long.{
  fits, add, opposite, times, quotient, remainder, is_zero, at_most, truth,
}
use breezybox.Shell.Arith.Scan.{skip_ws, behind_op, starts_name, read_ident}

-- `parse_comma` and the functions it calls, in their order
pub data Level : Type 0 where
  comma assign lor land equal rel sum product unary primary : Level

-- A function from its start, or the loop of one whose value is known so far.
pub data Task : Type 0 where
  start : Level → Task
  loop : Level → ℤ → Task

pub data Operation : Type 0 where
  second multiply divide modulo plus minus less_equal greater_equal less greater same different both
        either :
      Operation

-- An `actx`; `overflow` says that a result was no `long` or undefined.
pub record Context (Body : Type 0) : Type 0 where
  pub st : State Body
  pub p : Bytes
  pub err : Option Bytes
  pub depth : ℕ
  pub overflow : Bool

abbrev pub max_depth : ℕ
max_depth = 32

abbrev pub below : Level → Level
below comma = assign
below assign = lor
below lor = land
below land = equal
below equal = rel
below rel = sum
below sum = product
below product = unary
below unary = primary
below primary = primary

abbrev pub operations : Level → List (Bytes × Operation)
operations comma = (codes ",", second) ∷ []
operations lor = (codes "||", either) ∷ []
operations land = (codes "&&", both) ∷ []
operations equal = (codes "==", same) ∷ (codes "!=", different) ∷ []
operations rel =
    (codes "<=", less_equal)
    ∷ (codes ">=", greater_equal)
    ∷ (codes "<", less)
    ∷ (codes ">", greater)
    ∷ []
operations sum = (codes "+", plus) ∷ (codes "-", minus) ∷ []
operations product = (codes "*", multiply) ∷ (codes "/", divide) ∷ (codes "%", modulo) ∷ []
operations _ = []

-- the first of the operators that is found, and the text behind it
unfoldable pub find_operation : List (Bytes × Operation) → Bytes → Option (Operation × Bytes)
unfolding behind_op
find_operation [] s = none
find_operation ((text, op) ∷ ops) s = elim (behind_op text s) [
  | none ↦ find_operation ops s
  | some rest ↦ some (op, rest)
]

abbrev pub behind : Bytes → Bytes
behind [] = []
behind (c ∷ s) = s

abbrev pub is_doubled : ℕ → Bytes → Bool
is_doubled c s = peek s == c && peek (behind s) == c

-- What is refused in front of the operators, with its message.
abbrev pub refused : Level → Bytes → Option Bytes
refused product s = if is_doubled b'*' s then some (codes "** not supported") else none
refused sum s =
    if is_doubled b'+' s || is_doubled b'-' s then some (codes "++/-- not supported") else none
refused _ s = none

-- The value of an operation; `none` is a division by zero.
unfoldable pub apply : Operation → ℤ → ℤ → Option ℤ
apply second l r = some r
apply multiply l r = some (times l r)
apply divide l r = if is_zero r then none else some (quotient l r)
apply modulo l r = if is_zero r then none else some (remainder l r)
apply plus l r = some (add l r)
apply minus l r = some (add l (opposite r))
apply less_equal l r = some (truth (at_most l r))
apply greater_equal l r = some (truth (at_most r l))
apply less l r = some (truth (not (at_most r l)))
apply greater l r = some (truth (not (at_most l r)))
apply same l r = some (truth (at_most l r && at_most r l))
apply different l r = some (truth (not (at_most l r && at_most r l)))
apply both l r = some (truth (not (is_zero l) && not (is_zero r)))
apply either l r = some (truth (not (is_zero l) || not (is_zero r)))

-- A remainder is undefined, like its quotient, where that is no `long`.
unfoldable pub is_undefined : Operation → ℤ → ℤ → Bool
is_undefined modulo l r = not (is_zero r) && not (fits (quotient l r))
is_undefined _ l r = false

-- `try_assign_lhs`: the operation of an assignment, in front of which a name stands
abbrev pub assignments : List (Bytes × Operation)
assignments =
    (codes "+=", plus)
    ∷ (codes "-=", minus)
    ∷ (codes "*=", multiply)
    ∷ (codes "/=", divide)
    ∷ (codes "%=", modulo)
    ∷ []

abbrev pub plain_assignment : Bytes → Option (Operation × Bytes)
plain_assignment s =
    if peek s == b'=' && not (peek (behind s) == b'=') then some (second, behind s) else none

abbrev pub or_plain : Bytes → Option (Operation × Bytes) → Option (Operation × Bytes)
or_plain s none = plain_assignment s
or_plain s (some found) = some found

abbrev pub skip_dollar : Bytes → Bytes
skip_dollar s = if peek s == b'$' then behind s else s

abbrev pub name_room : ℕ
name_room = 127

-- The name, the operation, which is `second` for a plain `=`, and the text behind them.
unfoldable pub assign_lhs : Bytes → Option (Bytes × Operation × Bytes)
unfolding skip_ws find_operation read_ident
assign_lhs s =
    let text = skip_dollar (skip_ws s) in
    let (name, rest) = read_ident name_room text in
    let found = or_plain (skip_ws rest) (find_operation assignments (skip_ws rest)) in
    if starts_name (peek text)
    then (elim found [ none ↦ none | some (op, behind_it) ↦ some (name, op, behind_it) ])
    else none

abbrev pub is_plain : Operation → Bool
is_plain second = true
is_plain _ = false
