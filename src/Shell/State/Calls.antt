-- ===== src/Shell/State/Calls.antt =====
-- What a call of a function leaves of its local and other variables.
use breezybox.Prelude.{◌≡◌, refl, Bytes, [], ◌∙◌}
use breezybox.Shell.State.Vars.{State, get_var}
use breezybox.Shell.State.Lookup.{HasDistinct}
use breezybox.Shell.State.Scopes.{scope_push, Commands, call, run}
use breezybox.Shell.State.Frames.{
  IsUndeclared, IsLocalFirst, get_var-call, get_var-scope_push, run-Frame,
}

module _ {Body : Type 0} where
  -- A call gives a variable that the first command to name it makes local its former value back,
  -- or unsets it again, whatever the function and the functions it calls do to it afterwards.
  pub call_restores :
      (b : Commands) (st : State Body) (m : Bytes)
      → HasDistinct st
      → IsLocalFirst m b
      → get_var (run (call b) st) m ≡ get_var st m
  unfolding scope_push
  call_restores b st m d h =
      let fb = run-Frame b (scope_push st) [] st.scopes d refl in
      get_var-call b st m fb ∙ fb.local_first m h _ ∙ get_var-scope_push st m

  -- A variable that a function does not make local has after the call the value that its commands
  -- leave it.
  pub call_keeps :
      (b : Commands) (st : State Body) (m : Bytes)
      → HasDistinct st
      → IsUndeclared m b
      → get_var (run (call b) st) m ≡ get_var (run b (scope_push st)) m
  unfolding scope_push
  call_keeps b st m d h =
      let fb = run-Frame b (scope_push st) [] st.scopes d refl in
      get_var-call b st m fb ∙ fb.undeclared m h _
