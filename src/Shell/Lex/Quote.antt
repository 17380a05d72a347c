-- ===== src/Shell/Lex/Quote.antt =====
-- The scanners of src/components/breezybox/shell/sh_lex.c for what stands in a word as one piece:
-- quotes, command substitutions and parameter expansions. Each gives what it puts into the word and
-- the text that is left. On fuel, `none` is that it ran out.
use breezybox.Prelude.{
  ℕ, zero, suc, Bool, true, false, not, ◌&&◌, ◌||◌, ◌==◌, if◌then◌else◌, Bytes, codes, peek, length,
  Option, none, some, [], ◌∷◌, ◌++◌,
}

abbrev pub Scan : Type 0
Scan = Bytes × Bytes

-- the text behind `src[j]`, where that is no NUL
abbrev pub behind : Bytes → Bytes
behind [] = []
behind (c ∷ s) = s

abbrev pub is_empty : Bytes → Bool
is_empty [] = true
is_empty (c ∷ s) = false

-- More that is put into the word in front.
abbrev pub copy : Bytes → Scan → Scan
copy front (out, rest) = (front ++ out, rest)

abbrev pub copy_some : Bytes → Option Scan → Option Scan
copy_some front none = none
copy_some front (some s) = some (copy front s)

-- The loop up to a byte or to the end of the text.
unfoldable pub up_to : ℕ → Bytes → Scan
up_to q [] = ([], [])
up_to q (c ∷ s) = let more = copy (c ∷ []) (up_to q s) in if c == q then ([], c ∷ s) else more

-- That byte, if it is there.
abbrev pub with_quote : Scan → Scan
with_quote (out, []) = (out, [])
with_quote (out, c ∷ rest) = (out ++ c ∷ [], rest)

-- Behind a single quote.
unfoldable pub single : Bytes → Scan
unfolding up_to
single s = with_quote (up_to b'\'' s)

-- Behind a double quote in `${...}`, where a backslash keeps the byte behind it.
unfoldable pub double : Bytes → Scan
double [] = ([], [])
double (c ∷ []) = (c ∷ [], [])
double (c ∷ d ∷ s) =
    let escaped = copy (c ∷ d ∷ []) (double s) in
    let more = copy (c ∷ []) (double (d ∷ s)) in
    if c == b'"' then (c ∷ [], d ∷ s) else if c == b'\\' then escaped else more

-- Where `scan_cmdsub` is: among parentheses, so many of which are open, or in double quotes there.
pub data Mode : Type 0 where
  parens quoted : ℕ → Mode

abbrev pub depth_after : ℕ → ℕ → ℕ
depth_after c d = if c == b'(' then suc (suc d) else if c == b')' then d else suc d

-- A substitution that was scanned behind `front`, and what follows.
abbrev pub substituted : Bytes → Option Scan → (Bytes → Option Scan) → Option Scan
substituted front none later = none
substituted front (some (out, rest)) later = copy_some (front ++ out) (later rest)

unfoldable pub cmdsub_loop : ℕ → Mode → Bytes → Option Scan
unfolding single
cmdsub_loop zero mode s = none
cmdsub_loop (suc f) (parens zero) s = some ([], s)
cmdsub_loop (suc f) (parens (suc d)) [] = some ([], [])
cmdsub_loop (suc f) (parens (suc d)) (c ∷ s) =
    let quote = single s in
    let behind_single = copy_some (c ∷ quote.0) (cmdsub_loop f (parens (suc d)) quote.1) in
    let in_double = copy_some (c ∷ []) (cmdsub_loop f (quoted (suc d)) s) in
    let escaped = copy_some (c ∷ peek s ∷ []) (cmdsub_loop f (parens (suc d)) (behind s)) in
    let other = copy_some (c ∷ []) (cmdsub_loop f (parens (depth_after c d)) s) in
    if c == b'\''
    then behind_single
    else if c == b'"'
    then in_double
    else if c == b'\\' && not (is_empty s)
    then escaped
    else other
cmdsub_loop (suc f) (quoted d) [] = some ([], [])
cmdsub_loop (suc f) (quoted d) (c ∷ s) =
    let closed = copy_some (c ∷ []) (cmdsub_loop f (parens d) s) in
    let inner =
      substituted (codes "$(") (cmdsub_loop f (parens 1) (behind s)) (cmdsub_loop f (quoted d)) in
    let escaped = copy_some (c ∷ peek s ∷ []) (cmdsub_loop f (quoted d) (behind s)) in
    let other = copy_some (c ∷ []) (cmdsub_loop f (quoted d) s) in
    if c == b'"'
    then closed
    else if c == b'$' && (peek s == b'(')
    then inner
    else if c == b'\\' && not (is_empty s)
    then escaped
    else other

-- behind `$(`
unfoldable pub scan_cmdsub : Bytes → Option Scan
unfolding cmdsub_loop
scan_cmdsub s = copy_some (codes "$(") (cmdsub_loop (suc (length s)) (parens 1) s)

-- The escapes in backticks.
abbrev pub drops : ℕ → Bool
drops c = c == b'`' || (c == b'\\' || c == b'$')

-- The text up to the closing backtick, which is passed over.
unfoldable pub backtick_loop : Bytes → Scan
backtick_loop [] = ([], [])
backtick_loop (c ∷ []) = if c == b'`' then ([], []) else (c ∷ [], [])
backtick_loop (c ∷ d ∷ s) =
    let escaped = copy (d ∷ []) (backtick_loop s) in
    let more = copy (c ∷ []) (backtick_loop (d ∷ s)) in
    if c == b'`' then ([], d ∷ s) else if c == b'\\' && drops d then escaped else more

-- The same command as `$(...)`, with a space in front of a parenthesis.
abbrev pub as_cmdsub : Bool → Scan → Scan
as_cmdsub spaced (out, rest) =
    (codes "$(" ++ (if spaced then b' ' ∷ out else out) ++ codes ")", rest)

-- behind a backtick
unfoldable pub scan_backtick : Bytes → Scan
unfolding backtick_loop
scan_backtick s = as_cmdsub (peek s == b'(') (backtick_loop s)

abbrev pub brace_depth : ℕ → ℕ → ℕ
brace_depth c d = if c == b'{' then suc (suc d) else if c == b'}' then d else suc d

unfoldable pub brace_loop : ℕ → ℕ → Bytes → Option Scan
unfolding single double scan_cmdsub
brace_loop zero d s = none
brace_loop (suc f) zero s = some ([], s)
brace_loop (suc f) (suc d) [] = some ([], [])
brace_loop (suc f) (suc d) (c ∷ s) =
    let escaped = copy_some (c ∷ peek s ∷ []) (brace_loop f (suc d) (behind s)) in
    let quote = single s in
    let behind_single = copy_some (c ∷ quote.0) (brace_loop f (suc d) quote.1) in
    let quote₂ = double s in
    let behind_double = copy_some (c ∷ quote₂.0) (brace_loop f (suc d) quote₂.1) in
    let command = substituted [] (scan_cmdsub (behind s)) (brace_loop f (suc d)) in
    let inner = copy_some (c ∷ peek s ∷ []) (brace_loop f (suc (suc d)) (behind s)) in
    let other = copy_some (c ∷ []) (brace_loop f (brace_depth c d) s) in
    if c == b'\\' && not (is_empty s)
    then escaped
    else if c == b'\''
    then behind_single
    else if c == b'"'
    then behind_double
    else if c == b'$' && (peek s == b'(')
    then command
    else if c == b'$' && (peek s == b'{')
    then inner
    else other

-- behind `${`
unfoldable pub scan_braceparam : Bytes → Option Scan
unfolding brace_loop
scan_braceparam s = copy_some (codes "${") (brace_loop (suc (length s)) 1 s)
