-- ===== src/Shell/Tests.antt =====
-- Runs of the shell's parts in src/components/breezybox/shell, and the theorems at inputs that meet
-- their hypotheses.
use breezybox.Prelude.{
  negsuc, get_elem?, digits, decimal, Bool, ℕ, ◌-◌, ◌≡◌, ◌↔◌, refl, true, false, if◌then◌else◌,
  Bytes, codes, str_eq, pos, Option, none, some, List, [], ◌∷◌, take, drop, arith,
}
use breezybox.Shell.Glob.Bracket.{
  class_match, class_name, take_plain, take_member, members, bracket_match,
}
use breezybox.Shell.Glob.Match.{
  one_byte, star_loop, match_plain, match_fuel, pattern_match, Matches,
}
use breezybox.Shell.Glob.Strip.{
  scan, best_prefix, strip_prefix, best_suffix, strip_suffix, Found, best_prefix-Found,
  best_suffix-Found,
}
use breezybox.Shell.Glob.Paths.{locate, str_le, insert, sort, glob_pathnames}
use breezybox.Shell.Glob.Expansion.{Expanded, glob_pathnames-Expanded}
use breezybox.Shell.Glob.Folder.{under, IsPlain, IsBase, has_meta, IsFolder}
use breezybox.Shell.State.Named.{find, update, IsDistinct}
use breezybox.Shell.State.Vars.{
  Func, State, find_var, get_var, set_var, func_find, func_define, func_unset, shift_positional,
}
use breezybox.Shell.State.Lookup.{HasDistinct}
use breezybox.Shell.State.Scopes.{
  scope_push, restore, scope_pop, declare_local, Commands, assign, local, seq, call, run,
}
use breezybox.Shell.State.Frames.{IsUndeclared, here, left}
use breezybox.Shell.State.Calls.{call_restores, call_keeps}
use breezybox.Shell.Glob.Match.Decides.{pattern_match_iff}
use breezybox.Shell.State.Mirror.{IsSound, run-IsSound}
use breezybox.Shell.State.Startup.{init, init_lem}
use breezybox.Shell.State.Functions.{
  body_of, func_find-define, func_find-unset, shift_positional_lem,
}
use breezybox.Shell.Arith.Long.{add, opposite, times, quotient, remainder, at_most, print_long}
use breezybox.Shell.Arith.Scan.{
  skip_ws, behind_op, read_ident, hex_digits, octal_digits, parse_number,
}
use breezybox.Shell.Arith.Syntax.{assign_lhs, find_operation, apply, is_undefined}
use breezybox.Shell.Arith.Parse.{body, parse, Outcome, value, arith_eval}
use breezybox.Shell.Arith.Literal.{arith_eval-print_long}

match_class : pattern_match (codes "[[:alpha:]]*-[!a-f]?") (codes "x1-zz") ≡ true
unfolding pattern_match match_fuel match_plain star_loop one_byte bracket_match members take_member
    take_plain class_name class_match str_eq
match_class = refl

-- An unterminated bracket is a literal byte.
match_literal_bracket : pattern_match (codes "a[b") (codes "a[b") ≡ true
unfolding pattern_match match_fuel match_plain star_loop one_byte bracket_match members take_member
    take_plain class_name class_match str_eq
match_literal_bracket = refl

strip_longest_suffix : strip_suffix (codes "a.tar.gz") (codes ".*") true ≡ codes "a"
unfolding strip_suffix best_suffix scan pattern_match match_fuel match_plain star_loop one_byte
strip_longest_suffix = refl

strip_shortest_prefix : strip_prefix (codes "/usr/lib") (codes "*/") false ≡ codes "usr/lib"
unfolding strip_prefix best_prefix scan pattern_match match_fuel match_plain star_loop one_byte
strip_shortest_prefix = refl

abbrev listing : Bytes → Option (List Bytes)
listing dir = some (codes ".." ∷ codes "b.c" ∷ codes ".x.c" ∷ codes "a.c" ∷ codes "a.h" ∷ [])

expand_sources : glob_pathnames listing (codes "src/*.c") ≡ codes "src/a.c" ∷ codes "src/b.c" ∷ []
unfolding glob_pathnames locate sort insert str_le pattern_match match_fuel match_plain star_loop
    one_byte
expand_sources = refl

abbrev fresh : State ℕ
fresh = record {
  vars = record { name = codes "x"; value = codes "1"; exported = true } ∷ [];
  environment = λ n. if str_eq (codes "x") n then some (codes "1") else none;
  params = codes "p" ∷ codes "q" ∷ codes "r" ∷ [];
  arg0 = none;
  funcs = record { name = codes "f"; body = 1 } ∷ [];
  scopes = [];
  cwd = codes "/";
}

fresh-HasDistinct : HasDistinct fresh
unfolding IsDistinct find
fresh-HasDistinct = (refl, tt)

-- local x=2; y=3; x=4
abbrev commands : Commands
commands =
    seq (local (codes "x") (some (codes "2")))
      (seq (assign (codes "y") (codes "3")) (assign (codes "x") (codes "4")))

-- Without a value, a local variable keeps the value it has.
bare_local :
    get_var (declare_local (scope_push fresh) (codes "x") none).0 (codes "x") ≡ some (codes "1")
unfolding declare_local scope_push get_var find_var find str_eq
bare_local = refl

run_body : get_var (run (call commands) fresh) (codes "y") ≡ some (codes "3")
unfolding run scope_push scope_pop restore declare_local set_var get_var find_var find update str_eq
run_body = refl

abbrev outcome_at : Option (State ℕ × Outcome × Bool) → Option Outcome
outcome_at none = none
outcome_at (some (st, o, large)) = some o

abbrev x_after : Option (State ℕ × Outcome × Bool) → Option Bytes
unfolding get_var find_var find str_eq
x_after none = none
x_after (some (st, o, large)) = get_var st (codes "x")

abbrev large_of : Option (State ℕ × Outcome × Bool) → Option Bool
large_of none = none
large_of (some (st, o, large)) = some large

eval_precedence :
    outcome_at (arith_eval 40 fresh (codes "2 + 3*-4 <= (x-12)")) ≡ some (value (pos 0))
unfolding arith_eval parse body assign_lhs apply is_undefined find_operation skip_ws parse_number
    read_ident behind_op digits get_var find_var find str_eq add opposite times at_most hex_digits
    octal_digits
eval_precedence = refl

-- The right operand of && is evaluated whatever the left one is, and its assignment is made.
eval_both_sides : x_after (arith_eval 40 fresh (codes "0 && (x = 5)")) ≡ some (codes "5")
unfolding x_after arith_eval parse body assign_lhs apply is_undefined find_operation skip_ws
    parse_number read_ident behind_op digits get_var find_var set_var update find str_eq print_long
    decimal hex_digits octal_digits
eval_both_sides = refl

pattern_match_iff_example :
    (pattern_match (codes "a*[0-9]") (codes "ab7") ≡ true) ↔ Matches (codes "a*[0-9]") (codes "ab7")
pattern_match_iff_example = pattern_match_iff (codes "a*[0-9]") (codes "ab7")

best_prefix-Found_example :
    Found true
      (λ i. pattern_match (codes "*/") (take i (codes "a/b/c")))
      0
      6
      (best_prefix (codes "a/b/c") (codes "*/") true)
best_prefix-Found_example = best_prefix-Found (codes "a/b/c") (codes "*/") true

best_suffix-Found_example :
    Found false
      (λ j. pattern_match (codes ".*") (drop (5 - j) (codes "a.b.c")))
      0
      6
      (best_suffix (codes "a.b.c") (codes ".*") false)
best_suffix-Found_example = best_suffix-Found (codes "a.b.c") (codes ".*") false

source-IsBase : IsBase (codes "*.c")
unfolding IsBase
source-IsBase = (refl, refl, (refl, refl, (refl, refl, tt)))

source-IsFolder : IsFolder (under (codes "src"))
unfolding IsFolder IsPlain
source-IsFolder = ((refl, refl, (refl, refl, (refl, refl, tt))), omega arith)

glob_pathnames-Expanded_example :
    Expanded
      (under (codes "src"))
      (codes "*.c")
      (codes ".." ∷ codes "b.c" ∷ codes ".x.c" ∷ codes "a.c" ∷ codes "a.h" ∷ [])
      (glob_pathnames listing (codes "src/*.c"))
glob_pathnames-Expanded_example =
    glob_pathnames-Expanded listing (under (codes "src")) (codes "*.c")
      (codes ".." ∷ codes "b.c" ∷ codes ".x.c" ∷ codes "a.c" ∷ codes "a.h" ∷ []) source-IsFolder
      source-IsBase (unfold has_meta in refl) refl

call_restores_example : get_var (run (call commands) fresh) (codes "x") ≡ get_var fresh (codes "x")
call_restores_example =
    call_restores commands fresh (codes "x") fresh-HasDistinct (left (here x_is_x))
  where
    x_is_x : str_eq (codes "x") (codes "x") ≡ true
    x_is_x = unfold str_eq in refl

call_keeps_example :
    get_var (run (call commands) fresh) (codes "y")
    ≡ get_var (run commands (scope_push fresh)) (codes "y")
unfolding IsUndeclared str_eq
call_keeps_example = call_keeps commands fresh (codes "y") fresh-HasDistinct (refl, (tt, tt))

abbrev started : State ℕ
unfolding init
started = init (λ p. none) (codes "/root") (λ n. none)

run-IsSound_example : IsSound (run (call commands) started)
unfolding started
run-IsSound_example =
    run-IsSound (call commands) started (init_lem ℕ (λ p. none) (codes "/root") (λ n. none)).0

func_find-define_example :
    body_of (func_find (func_define fresh (codes "g") 2) (codes "f"))
    ≡ (if str_eq (codes "g") (codes "f") then some 2 else body_of (func_find fresh (codes "f")))
func_find-define_example = func_find-define fresh (codes "g") 2 (codes "f")

func_find-unset_example :
    (func_find (func_unset fresh (codes "f")).0 (codes "f")
      ≡ (if str_eq (codes "f") (codes "f") then none else func_find fresh (codes "f")))
    × ((func_unset fresh (codes "f")).1
        ≡ (elim (func_find fresh (codes "f")) [ none ↦ 0 | some _ ↦ 1 ]))
func_find-unset_example = func_find-unset fresh (codes "f") (codes "f") funcs_distinct
  where
    funcs_distinct : IsDistinct (λ (f : Func ℕ). f.name) fresh.funcs
    funcs_distinct = unfold IsDistinct find in (refl, tt)

-- Two parameters are shifted away, and one is left.
shift_positional_lem_example :
    (get_elem? (shift_positional fresh (pos 2)).0.params 0 ≡ get_elem? fresh.params 2)
    × ((shift_positional fresh (pos 2)).0
        ≡ record fresh { params = (shift_positional fresh (pos 2)).0.params })
    × ((shift_positional fresh (pos 2)).1 ≡ 0)
shift_positional_lem_example = shift_positional_lem fresh (pos 2) 0

arith_eval-print_long_example :
    arith_eval 11 fresh (print_long (negsuc 119)) ≡ some (fresh, value (negsuc 119), false)
arith_eval-print_long_example = arith_eval-print_long fresh (negsuc 119) (omega arith)

-- The least number and -1, whose remainder is undefined.
eval_least : large_of (arith_eval 40 fresh (codes "(-2147483647 - 1) % (0 - 1)")) ≡ some true
unfolding arith_eval parse body assign_lhs apply is_undefined find_operation skip_ws parse_number
    read_ident behind_op digits find str_eq add opposite remainder quotient hex_digits octal_digits
eval_least = refl
