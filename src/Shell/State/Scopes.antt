-- ===== src/Shell/State/Scopes.antt =====
-- The scopes of local variables in src/components/breezybox/shell/sh_state.c, and what a call of a
-- function, which runs its body between `sh_scope_push` and `sh_scope_pop`, does to variables.
use breezybox.Prelude.{ℕ, Bytes, Option, none, some, List, [], ◌∷◌}
use breezybox.Shell.State.Vars.{State, Saved, get_var, set_var, unset_var, export_var}

module _ {Body : Type 0} where
  unfoldable pub scope_push : State Body → State Body
  scope_push st = record st { scopes = [] ∷ st.scopes }

  abbrev pub put_back : State Body → Bytes → Option Bytes → State Body
  put_back st n none = unset_var st n
  put_back st n (some v) = set_var st n v

  -- the loop, in the order of the list
  unfoldable pub restore : List Saved → State Body → State Body
  restore [] st = st
  restore (sv ∷ saved) st = restore saved (put_back st sv.name sv.prior)

  abbrev pub pop_from : State Body → List (List Saved) → State Body
  pop_from st [] = st
  pop_from st (saved ∷ scopes) = restore saved (record st { scopes = scopes })

  unfoldable pub scope_pop : State Body → State Body
  unfolding restore
  scope_pop st = pop_from st st.scopes

  abbrev pub set_given : State Body → Bytes → Option Bytes → State Body
  set_given st n none = st
  set_given st n (some v) = set_var st n v

  abbrev pub local_in : State Body → Bytes → Option Bytes → List (List Saved) → State Body × ℕ
  local_in st n v [] = (st, 1)
  local_in st n v (saved ∷ scopes) = (
    set_given (record st { scopes = (record { name = n; prior = get_var st n } ∷ saved) ∷ scopes })
        n v,
    0,
  )

  -- 1 outside a function; without a value the variable keeps the one it has.
  unfoldable pub declare_local : State Body → Bytes → Option Bytes → State Body × ℕ
  declare_local st n v = local_in st n v st.scopes

-- What the commands of a function's body may do to variables.
pub data Commands : Type 0 where
  skip : Commands
  assign : Bytes → Bytes → Commands
  export unset : Bytes → Commands
  local : Bytes → Option Bytes → Commands
  seq : Commands → Commands → Commands
  call : Commands → Commands

module _ {Body : Type 0} where
  unfoldable pub run : Commands → State Body → State Body
  unfolding scope_push scope_pop declare_local
  run skip st = st
  run (assign n v) st = set_var st n v
  run (export n) st = export_var st n
  run (unset n) st = unset_var st n
  run (local n v) st = (declare_local st n v).0
  run (seq a b) st = run b (run a st)
  run (call b) st = scope_pop (run b (scope_push st))
