-- ===== src/Shell/State/Vars.antt =====
-- The state of the shell, its variables, functions and positional parameters: `sh_state` of
-- src/components/breezybox/shell/sh.h and the operations on it in sh_state.c. `Body` is the type
-- of a function's syntax tree.
use breezybox.Prelude.{
  ℕ, Bool, true, false, if◌then◌else◌, ltb, Bytes, str_eq, ℤ, pos, negsuc, Option, none, some, List,
  [], ◌∷◌, length, drop,
}
use breezybox.Shell.State.Named.{find, update, remove}

pub record Var : Type 0 where
  pub name : Bytes
  pub value : Bytes
  pub exported : Bool

pub record Func (Body : Type 0) : Type 0 where
  pub name : Bytes
  pub body : Body

-- `sh_saved_var`: a name and its prior value, which `none` says was unset
pub record Saved : Type 0 where
  pub name : Bytes
  pub prior : Option Bytes

abbrev pub Environment : Type 0
Environment = Bytes → Option Bytes

abbrev pub setenv : Bytes → Bytes → Environment → Environment
setenv name value env n = if str_eq name n then some value else env n

abbrev pub unsetenv : Bytes → Environment → Environment
unsetenv name env n = if str_eq name n then none else env n

-- The fields that sh_state.c reads or changes after the start, and the environment; a frame is the
-- list of what it saved.
pub record State (Body : Type 0) : Type 0 where
  pub vars : List Var
  pub environment : Environment
  pub params : List Bytes
  pub arg0 : Option Bytes
  pub funcs : List (Func Body)
  pub scopes : List (List Saved)
  pub cwd : Bytes

abbrev pub value_of : Option Var → Option Bytes
value_of none = none
value_of (some v) = some v.value

abbrev pub mark_exported : Bytes → List Var → List Var
mark_exported n vars = update (λ (x : Var). x.name) n (λ x. record x { exported = true }) vars

module _ {Body : Type 0} where
  unfoldable pub find_var : State Body → Bytes → Option Var
  unfolding find
  find_var st name = find (λ (v : Var). v.name) name st.vars

  unfoldable pub get_var : State Body → Bytes → Option Bytes
  unfolding find_var
  get_var st name = value_of (find_var st name)

  -- the assignment once the variable was looked up
  abbrev pub set_found : State Body → Bytes → Bytes → Option Var → State Body
  set_found st n v none = record st {
    vars = record { name = n; value = v; exported = false } ∷ st.vars;
  }
  set_found st n v (some old) = record st {
    vars = update (λ (x : Var). x.name) n (λ x. record x { value = v }) st.vars;
    environment = if old.exported then setenv n v st.environment else st.environment;
  }

  unfoldable pub set_var : State Body → Bytes → Bytes → State Body
  unfolding find_var
  set_var st n v = set_found st n v (find_var st n)

  abbrev pub export_found : State Body → Bytes → Option Var → State Body
  export_found st n none =
      let made = set_var st n [] in record made { vars = mark_exported n made.vars }
  export_found st n (some old) = record st {
    vars = mark_exported n st.vars;
    environment = setenv n old.value st.environment;
  }

  unfoldable pub export_var : State Body → Bytes → State Body
  unfolding find_var set_var
  export_var st n = export_found st n (find_var st n)

  abbrev pub unset_found : State Body → Bytes → Option Var → State Body
  unset_found st n none = st
  unset_found st n (some dead) = record st {
    vars = remove (λ (x : Var). x.name) n st.vars;
    environment = if dead.exported then unsetenv n st.environment else st.environment;
  }

  unfoldable pub unset_var : State Body → Bytes → State Body
  unfolding find_var
  unset_var st n = unset_found st n (find_var st n)

  unfoldable pub func_find : State Body → Bytes → Option (Func Body)
  unfolding find
  func_find st n = find (λ (f : Func Body). f.name) n st.funcs

  abbrev pub define_found : State Body → Bytes → Body → Option (Func Body) → State Body
  define_found st n b none = record st { funcs = record { name = n; body = b } ∷ st.funcs }
  define_found st n b (some old) = record st {
    funcs = update (λ (f : Func Body). f.name) n (λ f. record f { body = b }) st.funcs;
  }

  unfoldable pub func_define : State Body → Bytes → Body → State Body
  unfolding func_find
  func_define st n b = define_found st n b (func_find st n)

  abbrev pub func_removed : State Body → Bytes → Option (Func Body) → State Body × ℕ
  func_removed st n none = (st, 0)
  func_removed st n (some dead) =
      (record st { funcs = remove (λ (f : Func Body). f.name) n st.funcs }, 1)

  -- 1 if the function was there
  unfoldable pub func_unset : State Body → Bytes → State Body × ℕ
  unfolding func_find
  func_unset st n = func_removed st n (func_find st n)

  -- A name for $0 that is not given leaves it.
  unfoldable pub set_positional : State Body → Option Bytes → List Bytes → State Body
  set_positional st none params = record st { params = params }
  set_positional st (some name) params = record st { params = params; arg0 = some name }

  abbrev pub shift_by : State Body → ℕ → State Body × ℕ
  shift_by st n =
      if ltb (length st.params) n then (st, 1) else (record st { params = drop n st.params }, 0)

  -- 1 where there are too few parameters; a negative number counts as none.
  unfoldable pub shift_positional : State Body → ℤ → State Body × ℕ
  shift_positional st (negsuc n) = shift_by st 0
  shift_positional st (pos n) = shift_by st n
