-- ===== src/Vterm/Switching.antt =====
-- The terminals of src/components/breezy_term/vterm.c keep their contents across a switch and a
-- write to another terminal.
use breezybox.Prelude.{
  ℕ, ◌<◌, ◌≡◌, ◌≢◌, refl, Bool, true, false, ltb, ◌==◌, if◌then◌else◌, Bytes, ℤ, pos, negsuc,
  Option, none, some, List, [], ◌∷◌, ◌++◌, ap, arith, Bool-cases, inl, inr, ==_iff, lt→ltb, map,
  append-nil, append_assoc, sym, ◌∙◌, take, if_false, if_true, if_both, zero, suc, ◌&&◌, ◌-◌,
}
use breezybox.Vterm.Screen.{Geometry, Term}
use breezybox.Vterm.Write.{write}
use breezybox.Vterm.Manager.{
  Place, hot, stored, Manager, checked_id, term_of, put_term, swap_in, switch_to, switch, queued,
  send_input, send_all, finish_write, write_to,
}
use breezybox.Vterm.Step.{AllSome}

abbrev pub is_hot : Place → Bool
is_hot hot = true
is_hot stored = false

-- The active terminal exists, and is the only one whose cells are the hot buffer.
pub record IsManaged (count : ℕ) (m : Manager) : Type 0 where
  pub active_in : m.active < count
  pub only_hot : (i : ℕ) → is_hot (m.slots i).place ≡ (m.active == i)

swap_in-IsManaged :
    (count new : ℕ) (m : Manager)
    → IsManaged count m
    → new < count
    → new ≢ m.active
    → IsManaged count (swap_in new m)
swap_in-IsManaged count new m v h ne = record {
  active_in = h;
  only_hot = λ i. ground (arith, v.only_hot i, v.only_hot new);
}

swap_in-term_of :
    (count new : ℕ) (m : Manager) (i : ℕ)
    → IsManaged count m
    → new ≢ m.active
    → term_of (swap_in new m) i ≡ term_of m i
unfolding term_of
swap_in-term_of count new m i v ne =
    ground (arith, v.only_hot i, v.only_hot new, v.only_hot m.active)

-- `m'` is `m` with terminal `new` active: the display shows its contents, and the contents of every
-- terminal are what they were.
pub record Switched (count new : ℕ) (m m' : Manager) : Type 0 where
  pub managed : IsManaged count m'
  pub active_is : m'.active ≡ new
  pub shown : m'.iram ≡ (term_of m new).cells
  pub contents : (i : ℕ) → term_of m' i ≡ term_of m i

Switched-active : (count : ℕ) (m : Manager) → IsManaged count m → Switched count m.active m m
unfolding term_of
Switched-active count m v = record {
  managed = v;
  active_is = refl;
  shown = ground (arith, v.only_hot m.active);
  contents = λ i. refl;
}

switch_to-Switched :
    (count new : ℕ) (m : Manager)
    → IsManaged count m
    → new < count
    → Switched count new m (switch_to new m)
switch_to-Switched count new m v h = elim (Bool-cases (new == m.active)) [
  | inl same ↦
      let e : new ≡ m.active = (==_iff new m.active).0 same in
      rw same (rw e (Switched-active count m v))
  | inr other ↦
      let ne : new ≢ m.active = ground arith in
      rw other (record {
        managed = swap_in-IsManaged count new m v h ne;
        active_is = refl;
        shown = unfold term_of in ground (arith, v.only_hot new, v.only_hot m.active);
        contents = λ i. swap_in-term_of count new m i v ne;
      })
]

checked_id-lt : (count : ℕ) (id : ℤ) → AllSome (λ (i : ℕ). i < count) (checked_id count id)
checked_id-lt count (negsuc n) = tt
checked_id-lt count (pos n) = ground arith

-- The terminal that a call with this number leaves active: the number's, where it is in range and
-- there are several terminals.
abbrev pub target : ℕ → ℤ → Manager → ℕ
target count id m =
    if ltb 1 count then (elim (checked_id count id) [ none ↦ m.active | some i ↦ i ]) else m.active

-- A switch to any number, in range or not, keeps every terminal's contents, leaves the asked
-- terminal active where there is one and otherwise the terminal that was, and shows its contents.
pub switch-Switched :
    (count : ℕ) (id : ℤ) (m : Manager)
    → IsManaged count m
    → Switched count (target count id m) m (switch count id m)
unfolding switch
switch-Switched count id m v = elim (Bool-cases (ltb 1 count)) [
  | inl several ↦ rw several (chosen (checked_id count id) (checked_id-lt count id))
  | inr single ↦ rw single (Switched-active count m v)
]
  where
    chosen :
        (o : Option ℕ)
        → AllSome (λ (i : ℕ). i < count) o
        → Switched count
            (elim o [ none ↦ m.active | some i ↦ i ])
            m
            (elim o [ none ↦ m | some new ↦ switch_to new m ])
    chosen none h = Switched-active count m v
    chosen (some new) h = switch_to-Switched count new m v h

-- Terminal `i` has become `t`, and nothing else has changed: neither another terminal, nor, where
-- terminal `i` is in the background, what the display shows.
pub record Replaced (count i : ℕ) (t : Term) (m m' : Manager) : Type 0 where
  pub managed : IsManaged count m'
  pub active_is : m'.active ≡ m.active
  pub done : term_of m' i ≡ t
  pub others : (j : ℕ) → j ≢ i → term_of m' j ≡ term_of m j
  pub background : i ≢ m.active → m'.iram ≡ m.iram

put_term-IsManaged :
    (count i : ℕ) (t : Term) (m : Manager) → IsManaged count m → IsManaged count (put_term m i t)
unfolding put_term
put_term-IsManaged count i t m v = record {
  active_in = ground arith;
  only_hot = λ j. ground (arith, v.only_hot i, v.only_hot j);
}

put_term-others :
    (count i j : ℕ) (t : Term) (m : Manager)
    → IsManaged count m
    → j ≢ i
    → term_of (put_term m i t) j ≡ term_of m j
unfolding put_term term_of
put_term-others count i j t m v ne = ground (arith, v.only_hot i, v.only_hot j)

put_term-Replaced :
    (count i : ℕ) (t : Term) (m : Manager)
    → IsManaged count m
    → Replaced count i t m (put_term m i t)
put_term-Replaced count i t m v = record {
  managed = put_term-IsManaged count i t m v;
  active_is = unfold put_term in ground arith;
  done = unfold put_term term_of in ground arith;
  others = λ j ne. put_term-others count i j t m v ne;
  background = λ ne. unfold put_term in ground (arith, v.only_hot i);
}

-- The bytes that a queue takes of those it is sent: as many as it has room for, in order.
abbrev pub taken : Manager → ℕ → Bytes → List (ℕ × ℕ)
taken m id cs = map (λ (c : ℕ). (id, c)) (take (m.room id) cs)

send_input-full : (count id c : ℕ) (m : Manager) → m.room id ≡ 0 → send_input count id c m ≡ m
unfolding send_input
send_input-full count id c m h =
    if_false (ltb id count && ltb 0 (m.room id)) _ _ (ground (arith, h))

send_input-queued :
    (count id c n : ℕ) (m : Manager)
    → id < count
    → m.room id ≡ suc n
    → send_input count id c m ≡ queued id c m
unfolding send_input
send_input-queued count id c n m k h =
    if_true (ltb id count && ltb 0 (m.room id)) _ _ (ground (arith, h, k))

send_all_from :
    (count id : ℕ) (cs : Bytes) (m : Manager) (n : ℕ)
    → id < count
    → m.room id ≡ n
    → (send_all count id cs m).sent ≡ m.sent ++ map (λ (c : ℕ). (id, c)) (take n cs)
send_all_from count id [] m zero h e = sym (append-nil m.sent)
send_all_from count id [] m (suc n) h e = sym (append-nil m.sent)
send_all_from count id (c ∷ cs) m zero h e =
    ap (λ (x : Manager). (send_all count id cs x).sent) (send_input-full count id c m e)
    ∙ send_all_from count id cs m zero h e
send_all_from count id (c ∷ cs) m (suc n) h e =
    ap (λ (x : Manager). (send_all count id cs x).sent) (send_input-queued count id c n m h e)
    ∙ send_all_from count id cs (queued id c m) n h (less (id == id) refl)
    ∙ append_assoc m.sent ((id, c) ∷ []) (map (λ (c : ℕ). (id, c)) (take n cs))
  where
    less : (b : Bool) → (id == id) ≡ b → (if b then m.room id - 1 else m.room id) ≡ n
    less true k = omega (arith, e)
    less false k = absurd (ground (arith, k))

pub send_all_lem :
    (count id : ℕ) (cs : Bytes) (m : Manager)
    → id < count
    → (send_all count id cs m).sent ≡ m.sent ++ taken m id cs
send_all_lem count id cs m h = send_all_from count id cs m (m.room id) h refl

-- `m` with another log and other queues.
abbrev with_queues : Manager → Manager → Manager
with_queues m m' = record m { sent = m'.sent; room = m'.room }

send_input-same :
    (count id c : ℕ) (m : Manager)
    → send_input count id c m ≡ with_queues m (send_input count id c m)
unfolding send_input
send_input-same count id c m =
    if_both (λ (m' : Manager). m' ≡ with_queues m m') (ltb id count && ltb 0 (m.room id)) _ _ refl
      refl

-- Nothing else changes.
pub send_all-same :
    (count id : ℕ) (cs : Bytes) (m : Manager)
    → send_all count id cs m ≡ with_queues m (send_all count id cs m)
send_all-same count id [] m = refl
send_all-same count id (c ∷ cs) m =
    let m₁ = send_input count id c m in
    let m₂ = send_all count id cs m₁ in
    send_all-same count id cs m₁ ∙ ap (λ x. with_queues x m₂) (send_input-same count id c m)

-- What is in the queues of an invariant-keeping manager does not matter to its terminals.
queues-Replaced :
    (count i : ℕ) (t : Term) (m m' q : Manager)
    → Replaced count i t m m'
    → Replaced count i t m (with_queues m' q)
queues-Replaced count i t m m' q r = record {
  managed = record { active_in = r.managed.active_in; only_hot = r.managed.only_hot };
  active_is = r.active_is;
  done = unfold term_of in r.done;
  others = unfold term_of in r.others;
  background = r.background;
}

-- Where the run of the bytes on terminal `i` returns `t`, a write makes `t` of the terminal and
-- touches nothing else, and of the replies of the run as many as there is room for, in order, go to
-- the input queue of the terminal that is active, which need not be `i`.
pub write_to_lem :
    (g : Geometry) (count i : ℕ) (bytes : Bytes) (m : Manager) {t : Term}
    → IsManaged count m
    → i < count
    → write g bytes (record (term_of m i) { replies = [] }) ≡ some t
    → (m' : Manager) × (write_to g count (pos i) bytes m ≡ some m')
      × Replaced count i t m m'
      × (m'.sent ≡ m.sent ++ map (λ (c : ℕ). (m.active, c)) (take (m.room m.active) t.replies))
unfolding write_to
write_to_lem g count i bytes m {t} v h e =
    let put = put_term m i t in
    let all = finish_write count i t m in
    let kept : put.sent ≡ m.sent = unfold put_term in ground arith in
    let room : put.room m.active ≡ m.room m.active = unfold put_term in ground arith in
    (
      all,
      rw (lt→ltb i count h, write_to) (rw (e, write_to) refl),
      rw (send_all-same count m.active t.replies put)
          (queues-Replaced count i t m put all (put_term-Replaced count i t m v)),
      send_all_from count m.active t.replies put (m.room m.active) v.active_in room
          ∙ ap (λ l. l ++ map (λ (c : ℕ). (m.active, c)) (take (m.room m.active) t.replies)) kept,
    )
