-- ===== src/Shell/State/Frames.antt =====
-- What the commands of a function make of the frame of its call, in terms of
-- src/components/breezybox/shell/sh_state.c.
use breezybox.Prelude.{
  if_false, ◌≡◌, refl, sym, true, false, if◌then◌else◌, Bytes, str_eq, str_eq_iff, Option, none,
  some, List, [], ◌∷◌, ◌++◌, append-nil, append_assoc, ap, subst, ◌∙◌,
}
use breezybox.Shell.State.Vars.{State, Saved, get_var, find_var}
use breezybox.Shell.State.Lookup.{
  HasDistinct, get_var-set_var, get_var-unset_var, get_var-export_var, set_var-HasDistinct,
  unset_var-HasDistinct, export_var-HasDistinct,
}
use breezybox.Shell.State.Scopes.{
  scope_push, restore, pop_from, scope_pop, set_given, local_in, declare_local, Commands, skip,
  assign, export, unset, local, seq, call, run,
}
use breezybox.Shell.State.Restore.{
  oldest, oldest-append, scopes-set_var, scopes-unset_var, scopes-export_var, scopes-restore,
  restore-HasDistinct, get_var-restore,
}

-- The commands that are run do not name the variable at all.
unfoldable pub IsUntouched : Bytes → Commands → Type 0
IsUntouched m skip = Unit
IsUntouched m (assign n v) = str_eq n m ≡ false
IsUntouched m (export n) = str_eq n m ≡ false
IsUntouched m (unset n) = str_eq n m ≡ false
IsUntouched m (local n v) = str_eq n m ≡ false
IsUntouched m (seq a b) = IsUntouched m a × IsUntouched m b
IsUntouched m (call b) = IsUntouched m b

-- They do not make it local, the calls in them apart.
unfoldable pub IsUndeclared : Bytes → Commands → Type 0
IsUndeclared m (local n v) = str_eq n m ≡ false
IsUndeclared m (seq a b) = IsUndeclared m a × IsUndeclared m b
IsUndeclared m _ = Unit

-- The first of them that names it makes it local.
pub data IsLocalFirst (m : Bytes) : Commands → Type 0 where
  here : {n : Bytes} {v : Option Bytes} → str_eq n m ≡ true → IsLocalFirst m (local n v)
  left : {a b : Commands} → IsLocalFirst m a → IsLocalFirst m (seq a b)
  right : {a b : Commands} → IsUntouched m a → IsLocalFirst m b → IsLocalFirst m (seq a b)

untouched-IsUndeclared : (m : Bytes) (b : Commands) → IsUntouched m b → IsUndeclared m b
unfolding IsUntouched IsUndeclared
untouched-IsUndeclared m (local n v) h = h
untouched-IsUndeclared m (seq a b) h =
    (untouched-IsUndeclared m a h.0, untouched-IsUndeclared m b h.1)
untouched-IsUndeclared m skip h = tt
untouched-IsUndeclared m (assign n v) h = tt
untouched-IsUndeclared m (export n) h = tt
untouched-IsUndeclared m (unset n) h = tt
untouched-IsUndeclared m (call b) h = tt

module _ {Body : Type 0} where
  -- What commands in a function make of its frame.
  pub record Frame (b : Commands) (st : State Body) (saved : List Saved) (rest : List (List Saved))
      : Type 0 where
    pub added : List Saved
    pub scopes_are : (run b st).scopes ≡ (added ++ saved) ∷ rest
    pub distinct : HasDistinct (run b st)
    pub undeclared : (m : Bytes) → IsUndeclared m b → (d : Option Bytes) → oldest added m d ≡ d
    pub local_first :
        (m : Bytes) → IsLocalFirst m b → (d : Option Bytes) → oldest added m d ≡ get_var st m
    pub untouched : (m : Bytes) → IsUntouched m b → get_var (run b st) m ≡ get_var st m

  -- A command that adds nothing to the frame.
  plain-Frame :
      (b : Commands) (st : State Body) (saved : List Saved) (rest : List (List Saved))
      → st.scopes ≡ saved ∷ rest
      → (run b st).scopes ≡ st.scopes
      → HasDistinct (run b st)
      → ((m : Bytes) → IsLocalFirst m b → false ≡ true)
      → ((m : Bytes) → IsUntouched m b → get_var (run b st) m ≡ get_var st m)
      → Frame b st saved rest
  unfolding oldest
  plain-Frame b st saved rest e same d first same_value = record {
    added = [];
    scopes_are = same ∙ e;
    distinct = d;
    undeclared = λ m h o. refl;
    local_first = λ m h o. cc (first m h);
    untouched = same_value;
  }

  set_given-scopes :
      (st : State Body) (n : Bytes) (v : Option Bytes) → (set_given st n v).scopes ≡ st.scopes
  set_given-scopes st n none = refl
  set_given-scopes st n (some v) = scopes-set_var st n v

  set_given-HasDistinct :
      (st : State Body) (n : Bytes) (v : Option Bytes)
      → HasDistinct st
      → HasDistinct (set_given st n v)
  set_given-HasDistinct st n none d = d
  set_given-HasDistinct st n (some v) d = set_var-HasDistinct st n v d

  get_var-set_given :
      (st : State Body) (n : Bytes) (v : Option Bytes) (m : Bytes)
      → str_eq n m ≡ false
      → get_var (set_given st n v) m ≡ get_var st m
  get_var-set_given st n none m h = refl
  get_var-set_given st n (some v) m h = get_var-set_var st n v m ∙ if_false (str_eq n m) _ _ h

  abbrev noted : State Body → Bytes → List Saved → List (List Saved) → State Body
  noted st n saved rest = record st {
    scopes = (record { name = n; prior = get_var st n } ∷ saved) ∷ rest;
  }

  run-local :
      (st : State Body) (n : Bytes) (v : Option Bytes) (saved : List Saved)
      (rest : List (List Saved))
      → st.scopes ≡ saved ∷ rest
      → run (local n v) st ≡ set_given (noted st n saved rest) n v
  unfolding run declare_local
  run-local st n v saved rest e = ap (λ sc. (local_in st n v sc).0) e

  get_var-noted :
      (st : State Body) (n m : Bytes) (saved : List Saved) (rest : List (List Saved))
      → get_var (noted st n saved rest) m ≡ get_var st m
  unfolding get_var find_var
  get_var-noted st n m saved rest = refl

  local-Frame :
      (st : State Body) (n : Bytes) (v : Option Bytes) (saved : List Saved)
      (rest : List (List Saved))
      → HasDistinct st
      → st.scopes ≡ saved ∷ rest
      → Frame (local n v) st saved rest
  unfolding oldest IsUntouched IsUndeclared
  local-Frame st n v saved rest d e = record {
    added = record { name = n; prior = get_var st n } ∷ [];
    scopes_are =
        ap (λ (x : State Body). x.scopes) is ∙ set_given-scopes (noted st n saved rest) n v;
    distinct = subst HasDistinct (sym is) (set_given-HasDistinct (noted st n saved rest) n v d);
    undeclared = λ m h o. rw h;
    local_first = λ m h o. first m h o;
    untouched = λ m h.
        ap (λ x. get_var x m) is
        ∙ get_var-set_given (noted st n saved rest) n v m h
        ∙ get_var-noted st n m saved rest;
  }
    where
      is : run (local n v) st ≡ set_given (noted st n saved rest) n v
      is = run-local st n v saved rest e

      first :
          (m : Bytes)
          → IsLocalFirst m (local n v)
          → (o : Option Bytes) → (if str_eq n m then get_var st n else o) ≡ get_var st m
      first m (here h) o = rw h (ap (get_var st) ((str_eq_iff n m).0 h))

  seq-Frame :
      (a b : Commands) (st : State Body) (saved : List Saved) (rest : List (List Saved))
      → (fa : Frame a st saved rest) → Frame b (run a st) (fa.added ++ saved) rest
      → Frame (seq a b) st saved rest
  unfolding run IsUntouched IsUndeclared
  seq-Frame a b st saved rest fa fb = record {
    added = fb.added ++ fa.added;
    scopes_are = fb.scopes_are ∙ ap (λ x. x ∷ rest) (sym (append_assoc fb.added fa.added saved));
    distinct = fb.distinct;
    undeclared = λ m h o.
        oldest-append fb.added fa.added m o
        ∙ ap (oldest fa.added m) (fb.undeclared m h.1 o)
        ∙ fa.undeclared m h.0 o;
    local_first = λ m h o. oldest-append fb.added fa.added m o ∙ first m h o;
    untouched = λ m h. fb.untouched m h.1 ∙ fa.untouched m h.0;
  }
    where
      first :
          (m : Bytes)
          → IsLocalFirst m (seq a b)
          → (o : Option Bytes) → oldest fa.added m (oldest fb.added m o) ≡ get_var st m
      first m (left h) o = fa.local_first m h (oldest fb.added m o)
      first m (right u h) o =
          fa.undeclared m (untouched-IsUndeclared m a u) (oldest fb.added m o)
          ∙ fb.local_first m h o
          ∙ fa.untouched m u

  -- What a call makes of the state, given the frame of its body.
  run-call :
      (b : Commands) (st : State Body)
      → (fb : Frame b (scope_push st) [] st.scopes)
      → run (call b) st ≡ restore fb.added (record (run b (scope_push st)) { scopes = st.scopes })
  unfolding run scope_pop
  run-call b st fb =
      ap (pop_from (run b (scope_push st)))
        (fb.scopes_are ∙ ap (λ x. x ∷ st.scopes) (append-nil fb.added))

  get_var-popped :
      (st : State Body) (scopes : List (List Saved)) (m : Bytes)
      → get_var (record st { scopes = scopes }) m ≡ get_var st m
  unfolding get_var find_var
  get_var-popped st scopes m = refl

  pub get_var-call :
      (b : Commands) (st : State Body) (m : Bytes)
      → (fb : Frame b (scope_push st) [] st.scopes)
      → get_var (run (call b) st) m ≡ oldest fb.added m (get_var (run b (scope_push st)) m)
  get_var-call b st m fb =
      ap (λ x. get_var x m) (run-call b st fb)
      ∙ get_var-restore fb.added (record (run b (scope_push st)) { scopes = st.scopes }) m
          fb.distinct
      ∙ ap (oldest fb.added m) (get_var-popped (run b (scope_push st)) st.scopes m)

  pub get_var-scope_push : (st : State Body) (m : Bytes) → get_var (scope_push st) m ≡ get_var st m
  unfolding scope_push get_var find_var
  get_var-scope_push st m = refl

  call-Frame :
      (b : Commands) (st : State Body) (saved : List Saved) (rest : List (List Saved))
      → st.scopes ≡ saved ∷ rest
      → Frame b (scope_push st) [] st.scopes
      → Frame (call b) st saved rest
  unfolding IsUntouched
  call-Frame b st saved rest e fb =
      plain-Frame (call b) st saved rest e
        (ap (λ (x : State Body). x.scopes) (run-call b st fb) ∙ scopes-restore fb.added _)
        (subst HasDistinct (sym (run-call b st fb)) (restore-HasDistinct fb.added _ fb.distinct))
        (λ m h. elim h [ ])
        (λ m h.
          get_var-call b st m fb
          ∙ fb.undeclared m (untouched-IsUndeclared m b h) _
          ∙ fb.untouched m h
          ∙ get_var-scope_push st m)

  pub run-Frame :
      (b : Commands) (st : State Body) (saved : List Saved) (rest : List (List Saved))
      → HasDistinct st
      → st.scopes ≡ saved ∷ rest
      → Frame b st saved rest
  unfolding run IsUntouched scope_push
  run-Frame skip st saved rest d e =
      plain-Frame skip st saved rest e refl d (λ m h. elim h [ ]) (λ m h. refl)
  run-Frame (assign n v) st saved rest d e =
      plain-Frame (assign n v) st saved rest e (scopes-set_var st n v)
        (set_var-HasDistinct st n v d) (λ m h. elim h [ ])
        (λ m h. get_var-set_var st n v m ∙ if_false (str_eq n m) _ _ h)
  run-Frame (export n) st saved rest d e =
      plain-Frame (export n) st saved rest e (scopes-export_var st n)
        (export_var-HasDistinct st n d) (λ m h. elim h [ ])
        (λ m h. get_var-export_var st n m ∙ if_false (str_eq n m) _ _ h)
  run-Frame (unset n) st saved rest d e =
      plain-Frame (unset n) st saved rest e (scopes-unset_var st n) (unset_var-HasDistinct st n d)
        (λ m h. elim h [ ]) (λ m h. get_var-unset_var st n m d ∙ if_false (str_eq n m) _ _ h)
  run-Frame (local n v) st saved rest d e = local-Frame st n v saved rest d e
  run-Frame (seq a b) st saved rest d e =
      let fa = run-Frame a st saved rest d e in
      seq-Frame a b st saved rest fa
        (run-Frame b (run a st) (fa.added ++ saved) rest fa.distinct fa.scopes_are)
  run-Frame (call b) st saved rest d e =
      call-Frame b st saved rest e (run-Frame b (scope_push st) [] st.scopes d refl)
