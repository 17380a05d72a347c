-- ===== src/Shell/Arith/Shorter.antt =====
-- The tokens of src/components/breezybox/shell/sh_arith.c take bytes away: what is left of the text
-- is no longer, and behind an operator it is shorter.
use breezybox.Prelude.{
  ℕ, zero, suc, ◌+◌, ◌*◌, ◌-◌, ◌≤◌, ◌<◌, ◌≡◌, true, ◌==◌, ◌&&◌, ◌||◌, not, Bytes, is_digit, within,
  peek, digits, Option, none, some, List, [], ◌∷◌, length, arith, if_both,
}
use native.Mathlib.Nat.{le_trans}
use breezybox.Shell.Arith.Scan.{
  is_blank, skip_ws, behind_op, starts_name, in_name, read_ident, is_hex, hex_value, hex_digits,
  octal_digits, Constant, constant, bad, hex_constant, octal_constant, decimal_constant,
  behind_zero, parse_number,
}
use breezybox.Shell.Arith.Syntax.{
  Level, comma, assign, lor, land, equal, rel, sum, product, unary, primary, Operation, operations,
  find_operation, behind, assignments, plain_assignment, or_plain, skip_dollar, name_room,
  assign_lhs,
}

-- What is found leaves fewer than `n` bytes.
abbrev pub Shrinks {ℓ} : {A : Type ℓ} → ℕ → Option (A × Bytes) → Type 0
Shrinks n none = Unit
Shrinks n (some (x, rest)) = length rest < n

abbrev pub ShrinksBehind : ℕ → Option (Bytes × Operation × Bytes) → Type 0
ShrinksBehind n none = Unit
ShrinksBehind n (some (name, op, rest)) = length rest < n

pub skip_ws-le : (s : Bytes) → length (skip_ws s) ≤ length s
unfolding skip_ws
skip_ws-le [] = omega arith
skip_ws-le (c ∷ s) =
    if_both (λ (t : Bytes). length t ≤ length (c ∷ s)) (is_blank c) _ _
      (omega (arith, skip_ws-le s)) (omega arith)

pub behind-le : (s : Bytes) → length (behind s) ≤ length s
behind-le [] = omega arith
behind-le (c ∷ s) = omega arith

-- A byte that is not NUL can be taken.
pub behind-lt : (s : Bytes) (c : ℕ) → (peek s == c) ≡ true → 0 < c → length (behind s) < length s
behind-lt [] c h k = absurd (ground arith)
behind-lt (a ∷ s) c h k = omega arith

pub skip_dollar-le : (s : Bytes) → length (skip_dollar s) ≤ length s
skip_dollar-le s =
    if_both (λ (t : Bytes). length t ≤ length s) (peek s == b'$') _ _ (behind-le s) (omega arith)

pub read_ident-le : (room : ℕ) (s : Bytes) → length (read_ident room s).1 ≤ length s
unfolding read_ident
read_ident-le zero s = omega arith
read_ident-le (suc room) [] = omega arith
read_ident-le (suc room) (c ∷ s) =
    if_both (λ (t : Bytes × Bytes). length t.1 ≤ length (c ∷ s)) (in_name c) _ _
      (omega (arith, read_ident-le room s)) (omega arith)

BehindOp : ℕ → Option Bytes → Type 0
BehindOp n none = Unit
BehindOp n (some rest) = length rest < n

-- An operator has a byte at least.
behind_op-le : (n : ℕ) (op s : Bytes) → length s + 1 ≤ n + length op → BehindOp n (behind_op op s)
unfolding behind_op BehindOp
behind_op-le n [] s h = omega arith
behind_op-le n (a ∷ op) [] h = tt
behind_op-le n (a ∷ op) (c ∷ s) h =
    if_both (BehindOp n) (a == c) _ _ (behind_op-le n op s (omega arith)) tt

AllBytes : List (Bytes × Operation) → Type 0
AllBytes [] = Unit
AllBytes ((text, op) ∷ ops) = (0 < length text) × AllBytes ops

find_operation-Shrinks :
    (ops : List (Bytes × Operation)) (s : Bytes)
    → AllBytes ops
    → Shrinks (length s) (find_operation ops s)
unfolding find_operation AllBytes BehindOp
find_operation-Shrinks [] s h = tt
find_operation-Shrinks ((text, op) ∷ ops) s h =
    go (behind_op text s) (behind_op-le (length s) text s (omega (arith, h.0)))
      (find_operation-Shrinks ops s h.1)
  where
    go :
        (o : Option Bytes)
        → BehindOp (length s) o
        → Shrinks (length s) (find_operation ops s)
        → Shrinks (length s) (elim o [ none ↦ find_operation ops s | some rest ↦ some (op, rest) ])
    go none k later = later
    go (some rest) k later = k

pub operations-Shrinks :
    (level : Level) (s : Bytes) → Shrinks (length s) (find_operation (operations level) s)
unfolding AllBytes
operations-Shrinks level s = find_operation-Shrinks (operations level) s (all_bytes level)
  where
    all_bytes : (level : Level) → AllBytes (operations level)
    all_bytes comma = omega arith
    all_bytes lor = omega arith
    all_bytes land = omega arith
    all_bytes equal = omega arith
    all_bytes rel = omega arith
    all_bytes sum = omega arith
    all_bytes product = omega arith
    all_bytes assign = tt
    all_bytes unary = tt
    all_bytes primary = tt

plain_assignment-Shrinks : (s : Bytes) → Shrinks (length s) (plain_assignment s)
plain_assignment-Shrinks [] = tt
plain_assignment-Shrinks (c ∷ s) =
    if_both (Shrinks (length (c ∷ s))) (c == b'=' && not (peek s == b'=')) _ _ (omega arith) tt

or_plain-Shrinks :
    (s : Bytes) (o : Option (Operation × Bytes))
    → Shrinks (length s) o
    → Shrinks (length s) (or_plain s o)
or_plain-Shrinks s none h = plain_assignment-Shrinks s
or_plain-Shrinks s (some x) h = h

-- the text in front of which the operator is looked for
after_name-le :
    (s : Bytes) → length (skip_ws (read_ident name_room (skip_dollar (skip_ws s))).1) ≤ length s
after_name-le s = le_trans (skip_ws-le (read_ident name_room (skip_dollar (skip_ws s))).1) (
    le_trans (read_ident-le name_room (skip_dollar (skip_ws s)))
      (le_trans (skip_dollar-le (skip_ws s)) (skip_ws-le s)))

named-Shrinks :
    (n m : ℕ) (name : Bytes) (o : Option (Operation × Bytes))
    → m ≤ n
    → Shrinks m o
    → ShrinksBehind n (elim o [ none ↦ none | some (op, behind_it) ↦ some (name, op, behind_it) ])
named-Shrinks n m name none h k = tt
named-Shrinks n m name (some (op, rest)) h k = omega (arith, h, k)

pub assign_lhs-Shrinks : (s : Bytes) → ShrinksBehind (length s) (assign_lhs s)
unfolding assign_lhs AllBytes
assign_lhs-Shrinks s =
    let after = skip_ws (read_ident name_room (skip_dollar (skip_ws s))).1 in
    if_both (ShrinksBehind (length s)) (starts_name (peek (skip_dollar (skip_ws s)))) _ _
      (named-Shrinks (length s) (length after) _ (or_plain after (find_operation assignments after))
        (after_name-le s)
        (or_plain-Shrinks after (find_operation assignments after)
          (find_operation-Shrinks assignments after (omega arith))))
      tt

abbrev pub ConstantWithin : ℕ → Constant → Type 0
ConstantWithin n (constant v rest) = length rest ≤ n
ConstantWithin n (bad m) = Unit

digits-le : (n : ℕ) (s : Bytes) → length (digits n s).1 ≤ length s
unfolding digits
digits-le n [] = omega arith
digits-le n (c ∷ s) =
    if_both (λ (t : ℕ × Bytes). length t.1 ≤ length (c ∷ s)) (is_digit c) _ _
      (omega (arith, digits-le (n * 10 + (c - b'0')) s)) (omega arith)

hex_digits-le : (n : ℕ) (s : Bytes) → length (hex_digits n s).1 ≤ length s
unfolding hex_digits
hex_digits-le n [] = omega arith
hex_digits-le n (c ∷ s) =
    if_both (λ (t : ℕ × Bytes). length t.1 ≤ length (c ∷ s)) (is_hex c) _ _
      (omega (arith, hex_digits-le (n * 16 + hex_value c) s)) (omega arith)

octal_digits-le : (n : ℕ) (s : Bytes) → length (octal_digits n s).1 ≤ length s
unfolding octal_digits
octal_digits-le n [] = omega arith
octal_digits-le n (c ∷ s) =
    if_both (λ (t : ℕ × Bytes). length t.1 ≤ length (c ∷ s)) (within b'0' b'7' c) _ _
      (omega (arith, octal_digits-le (n * 8 + (c - b'0')) s)) (omega arith)

hex_constant-Within : (n : ℕ) (s : Bytes) → length s ≤ n → ConstantWithin n (hex_constant s)
hex_constant-Within n s h =
    if_both (ConstantWithin n) (is_hex (peek s)) _ _ (omega (arith, hex_digits-le 0 s)) tt

octal_constant-Within : (n : ℕ) (s : Bytes) → length s ≤ n → ConstantWithin n (octal_constant s)
octal_constant-Within n s h =
    if_both (ConstantWithin n)
      (peek (octal_digits 0 s).1 == b'8' || peek (octal_digits 0 s).1 == b'9') _ _ tt
      (omega (arith, octal_digits-le 0 s))

decimal_constant-Within : (n : ℕ) (s : Bytes) → length s ≤ n → ConstantWithin n (decimal_constant s)
decimal_constant-Within n s h = omega (arith, digits-le 0 s)

behind_zero-Within : (n : ℕ) (s : Bytes) → length s + 1 ≤ n → ConstantWithin n (behind_zero s)
behind_zero-Within n [] h = omega arith
behind_zero-Within n (c ∷ s) h =
    if_both (ConstantWithin n) (c == b'x' || c == b'X') _ _ (hex_constant-Within n s (omega arith))
      (if_both (ConstantWithin n) (is_digit c) _ _ (octal_constant-Within n (c ∷ s) (omega arith))
        (decimal_constant-Within n (b'0' ∷ c ∷ s) (omega arith)))

pub parse_number-Within : (s : Bytes) → ConstantWithin (length s) (parse_number s)
unfolding parse_number
parse_number-Within [] = decimal_constant-Within 0 [] (omega arith)
parse_number-Within (c ∷ s) =
    if_both (ConstantWithin (length (c ∷ s))) (c == b'0') _ _
      (behind_zero-Within (length (c ∷ s)) s (omega arith))
      (decimal_constant-Within (length (c ∷ s)) (c ∷ s) (omega arith))
