-- ===== src/Shell/Arith/Literal.antt =====
-- The evaluator of src/components/breezybox/shell/sh_arith.c on the texts that it stores itself.
use breezybox.Prelude.{
  if_true, if_false, ℕ, zero, suc, ◌+◌, ◌/◌, ◌%◌, ◌^◌, ◌≤◌, ◌<◌, ◌≡◌, refl, Bool, true, false, not,
  leb, ltb, ◌==◌, Bytes, is_digit, peek, ℤ, pos, negsuc, magnitude, int_max, digits, decimal,
  digits-decimal, decimal-digit, Option, none, some, [], ◌∷◌, arith, ap, Bool-cases, inl, inr, ◌∙◌,
}
use native.Mathlib.Nat.{pow-suc}
use breezybox.Shell.State.Vars.{State}
use breezybox.Shell.Arith.Long.{opposite, print_long}
use breezybox.Shell.Arith.Scan.{
  is_blank, starts_name, skip_ws, behind_op, constant, decimal_constant, parse_number,
}
use breezybox.Shell.Arith.Syntax.{
  skip_dollar, Level, assign, lor, land, equal, rel, sum, product, unary, primary, below, Context,
  Task, start, loop, comma, find_operation, assign_lhs,
}
use breezybox.Shell.Arith.Parse.{
  with_value, and_then, assign_at, from_constant, operand_at, primary_at, unary_at, body, parse,
  value, begin, eval_text, outcome_of, arith_eval,
}

-- A number that is not 0 is printed with a first digit that is not 0.
nonzero_first :
    (f n : ℕ) (after : Bytes) → 0 < n → n < 10 ^ f → (peek (decimal f n after) == b'0') ≡ false
unfolding decimal
nonzero_first zero n after h k = absurd (omega arith)
nonzero_first (suc f) n after h k = elim (Bool-cases (ltb n 10)) [
  | inl small ↦ rw small (ground arith)
  | inr large ↦
      let ten : 10 ≤ n = ground arith in
      rw large (
        nonzero_first f (n / 10) ((b'0' + n % 10) ∷ after) (omega arith)
          (omega (arith, pow-suc 10 f)))
]

parse_number-nonzero : (s : Bytes) → (peek s == b'0') ≡ false → parse_number s ≡ decimal_constant s
unfolding parse_number
parse_number-nonzero [] h = refl
parse_number-nonzero (c ∷ s) h = rw h refl

parse_number-decimal : (n : ℕ) → n ≤ int_max → parse_number (decimal 10 n []) ≡ constant n []
unfolding digits
parse_number-decimal zero h = unfold parse_number decimal in refl
parse_number-decimal (suc n) h =
    let e : digits 0 (decimal 10 (suc n) []) ≡ (suc n, []) =
      digits-decimal 10 (suc n) [] (omega arith) in
    parse_number-nonzero (decimal 10 (suc n) [])
      (nonzero_first 10 (suc n) [] (omega arith) (omega arith))
    ∙ rw e refl

skip_ws-digit : (a : ℕ) (t : Bytes) → is_digit a ≡ true → skip_ws (a ∷ t) ≡ a ∷ t
unfolding skip_ws
skip_ws-digit a t h = if_false (is_blank a) _ _ (ground arith)

-- A text that starts with no blank, no `$` and no name has nothing that is assigned to.
assign_lhs-none :
    (a : ℕ) (t : Bytes)
    → is_blank a ≡ false
    → (a == b'$') ≡ false
    → starts_name a ≡ false
    → assign_lhs (a ∷ t) ≡ none
unfolding assign_lhs
assign_lhs-none a t blank dollar name =
    if_false (starts_name (peek (skip_dollar (skip_ws (a ∷ t))))) _ _ (no_name ∙ name)
  where
    at_first : skip_ws (a ∷ t) ≡ a ∷ t
    at_first = unfold skip_ws in if_false (is_blank a) _ _ blank

    text_is : skip_dollar (skip_ws (a ∷ t)) ≡ a ∷ t
    text_is = ap skip_dollar at_first ∙ if_false (a == b'$') _ _ dollar

    no_name : starts_name (peek (skip_dollar (skip_ws (a ∷ t)))) ≡ starts_name a
    no_name = ap (λ x. starts_name (peek x)) text_is

assign_lhs-digit : (a : ℕ) (t : Bytes) → is_digit a ≡ true → assign_lhs (a ∷ t) ≡ none
assign_lhs-digit a t h =
    assign_lhs-none a t (ground (arith, h)) (ground (arith, h)) (ground (arith, h))

-- The levels with a loop.
abbrev has_loop : Level → Bool
has_loop assign = false
has_loop unary = false
has_loop primary = false
has_loop _ = true

module _ {Body : Type 0} where
  -- the context behind a number that is the whole text
  abbrev behind_all : State Body → Bool → Context Body
  behind_all st large = record { st = st; p = []; err = none; depth = 0; overflow = large }

  abbrev behind_literal : State Body → ℕ → Context Body
  behind_literal st n = behind_all st (not (leb n int_max))

  primary_at-digit :
      (k : Task → Context Body → Option (ℤ × Context Body)) (a : ℕ) (t : Bytes) (n : ℕ)
      (c : Context Body)
      → is_digit a ≡ true
      → parse_number (a ∷ t) ≡ constant n []
      → primary_at k (a ∷ t) c ≡ from_constant (record c { p = a ∷ t }) (constant n [])
  primary_at-digit k a t n c h e =
      if_false (a == b'(') _ _ (ground arith)
      ∙ ap (λ x. operand_at k x c) (if_false (a == b'$') _ _ (ground arith))
      ∙ if_true (is_digit a) _ _ h
      ∙ ap (from_constant (record c { p = a ∷ t })) e

  unary_at-digit :
      (k : Task → Context Body → Option (ℤ × Context Body)) (a : ℕ) (t : Bytes) (c : Context Body)
      → is_digit a ≡ true
      → unary_at k (a ∷ t) c ≡ k (start primary) (record c { p = a ∷ t })
  unary_at-digit k a t c h =
      if_false (a == b'+') _ _ (ground arith)
      ∙ if_false (a == b'-') _ _ (ground arith)
      ∙ if_false (a == b'!') _ _ (ground arith)

  unary_literal :
      (f : ℕ) (st : State Body) (a : ℕ) (t : Bytes) (n : ℕ)
      → is_digit a ≡ true
      → parse_number (a ∷ t) ≡ constant n []
      → parse (suc (suc f)) (start unary) (begin st (a ∷ t)) ≡ some (pos n, behind_literal st n)
  unfolding parse body
  unary_literal f st a t n h e =
      ap (λ x. unary_at (parse (suc f)) x (begin st (a ∷ t))) (skip_ws-digit a t h)
      ∙ unary_at-digit (parse (suc f)) a t (begin st (a ∷ t)) h
      ∙ ap (λ x. primary_at (parse f) x (begin st (a ∷ t))) (skip_ws-digit a t h)
      ∙ primary_at-digit (parse f) a t n (begin st (a ∷ t)) h e

  -- Behind a minus; a number that its magnitude fits is a `long`.
  unary_negative :
      (f : ℕ) (st : State Body) (t : Bytes) (n : ℕ)
      → n < int_max
      → is_digit (peek t) ≡ true
      → parse_number t ≡ constant (suc n) []
      → parse (suc (suc (suc f))) (start unary) (begin st (b'-' ∷ t))
        ≡ some (negsuc n, behind_all st false)
  unary_negative f st [] n small h e = absurd (ground (arith, h))
  unary_negative f st (a ∷ t) n small h e =
      let r = parse (suc (suc f)) (start unary) (begin st (a ∷ t)) in
      let minus : parse (suc (suc (suc f))) (start unary) (begin st (b'-' ∷ a ∷ t))
          ≡ and_then r (λ v c. some (with_value (opposite v) c)) =
        unfold parse body skip_ws in refl in
      minus
      ∙ ap (λ x. and_then x (λ v c. some (with_value (opposite v) c)))
          (unary_literal f st a t (suc n) h e)
      ∙ (unfold opposite in ap (λ b. some (negsuc n, behind_all st b)) (ground (arith, small)))

  -- The levels of binary operators, which find none behind the number.
  climb :
      (level : Level) (f : ℕ) (st : State Body) (c : Context Body) (v : ℤ) (large : Bool)
      → has_loop level ≡ true
      → parse (suc f) (start (below level)) c ≡ some (v, behind_all st large)
      → parse (suc (suc f)) (start level) c ≡ some (v, behind_all st large)
  unfolding parse body find_operation behind_op skip_ws
  climb comma f st c v b h e = ap (λ o. and_then o (λ l c'. parse (suc f) (loop comma l) c')) e
  climb lor f st c v b h e = ap (λ o. and_then o (λ l c'. parse (suc f) (loop lor l) c')) e
  climb land f st c v b h e = ap (λ o. and_then o (λ l c'. parse (suc f) (loop land l) c')) e
  climb equal f st c v b h e = ap (λ o. and_then o (λ l c'. parse (suc f) (loop equal l) c')) e
  climb rel f st c v b h e = ap (λ o. and_then o (λ l c'. parse (suc f) (loop rel l) c')) e
  climb sum f st c v b h e = ap (λ o. and_then o (λ l c'. parse (suc f) (loop sum l) c')) e
  climb product f st c v b h e = ap (λ o. and_then o (λ l c'. parse (suc f) (loop product l) c')) e
  climb assign f st c v b h e = cc h
  climb unary f st c v b h e = cc h
  climb primary f st c v b h e = cc h

  assign_literal :
      (f : ℕ) (st : State Body) (s : Bytes) (v : ℤ) (large : Bool)
      → assign_lhs s ≡ none
      → parse (suc f) (start lor) (begin st s) ≡ some (v, behind_all st large)
      → parse (suc (suc f)) (start assign) (begin st s) ≡ some (v, behind_all st large)
  unfolding parse body
  assign_literal f st s v large h e = ap (λ x. assign_at (parse (suc f)) x (begin st s)) h ∙ e

  comma_literal :
      (f : ℕ) (st : State Body) (s : Bytes) (v : ℤ) (large : Bool)
      → assign_lhs s ≡ none
      → parse (suc (suc f)) (start unary) (begin st s) ≡ some (v, behind_all st large)
      → parse
          (suc (suc (suc (suc (suc (suc (suc (suc (suc (suc f))))))))))
          (start comma)
          (begin st s)
        ≡ some (v, behind_all st large)
  comma_literal f st s v b h e =
      let c = begin st s in
      let f₂ = suc (suc f) in
      let f₄ = suc (suc f₂) in
      let f₆ = suc (suc f₄) in
      climb comma (suc (suc f₆)) st c v b refl (
        assign_literal (suc f₆) st s v b h (
          climb lor f₆ st c v b refl (
            climb land (suc f₄) st c v b refl (
              climb equal f₄ st c v b refl (
                climb rel (suc f₂) st c v b refl
                  (climb sum f₂ st c v b refl (climb product (suc f) st c v b refl e)))))))

  -- Eleven calls are enough for the text of a number that a `long` holds but the least, as an
  -- assignment stores it: the evaluator gives the number back, changes nothing and finds no result
  -- too large.
  pub arith_eval-print_long :
      (st : State Body) (v : ℤ)
      → magnitude v ≤ int_max
      → arith_eval 11 st (print_long v) ≡ some (st, value v, false)
  unfolding arith_eval print_long
  arith_eval-print_long st (pos n) h =
      go (decimal 10 n []) (decimal-digit 9 n []) (parse_number-decimal n h)
    where
      fits_n : not (leb n int_max) ≡ false
      fits_n = ground (arith, h)

      go :
          (s : Bytes)
          → is_digit (peek s) ≡ true
          → parse_number s ≡ constant n []
          → eval_text 11 st (skip_ws s) ≡ some (st, value (pos n), false)
      go [] d e = absurd (ground (arith, d))
      go (a ∷ t) d e =
          ap (eval_text 11 st) (skip_ws-digit a t d)
          ∙ ap outcome_of (
              comma_literal 1 st (a ∷ t) (pos n) (not (leb n int_max)) (assign_lhs-digit a t d)
                (unary_literal 1 st a t n d e))
          ∙ ap (λ b. some (st, value (pos n), b)) fits_n
  arith_eval-print_long st (negsuc n) h =
      let t = decimal 10 (suc n) [] in
      let first : skip_ws (b'-' ∷ t) ≡ b'-' ∷ t = unfold skip_ws in refl in
      ap (eval_text 11 st) first
      ∙ ap outcome_of (
          comma_literal 1 st (b'-' ∷ t) (negsuc n) false (assign_lhs-none b'-' t refl refl refl) (
            unary_negative 0 st t n (omega (arith, h)) (decimal-digit 9 (suc n) [])
              (parse_number-decimal (suc n) h)))
