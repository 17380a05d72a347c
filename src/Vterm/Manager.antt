-- ===== src/Vterm/Manager.antt =====
-- src/components/breezy_term/vterm.c: the terminals together. The active one's cells are the hot
-- buffer that the display reads, the others' are their own storage; a switch copies both ways.
-- Mutexes are left out, since each call here runs alone.
use breezybox.Prelude.{
  ℕ, zero, suc, ◌+◌, ◌-◌, Bool, true, false, not, ◌&&◌, ltb, ◌==◌, if◌then◌else◌, Bytes, ℤ, pos,
  negsuc, Option, none, some, List, [], ◌∷◌, ◌++◌,
}
use breezybox.Vterm.Screen.{Geometry, Cell, Cells, idle, Term, clear_internal}
use breezybox.Vterm.Write.{write}

-- Where a terminal's `cells` pointer points: to `s_iram_buffer` or to its own `storage_cells`.
pub data Place : Type 0 where
  hot stored : Place

-- A `vterm_t`. The cells of `body` are not read: they stand in one of the two buffers.
pub record Slot : Type 0 where
  pub place : Place
  pub storage : Cells
  pub body : Term

-- INPUT_QUEUE_SIZE
abbrev pub input_queue_size : ℕ
input_queue_size = 64

-- The static variables. `sent` logs the bytes that the input queues have taken, with their terminal,
-- `room` has the free places of each queue, and `notified` the calls of the switch callback.
pub record Manager : Type 0 where
  pub iram : Cells
  pub slots : ℕ → Slot
  pub active : ℕ
  pub has_callback : Bool
  pub notified : List ℕ
  pub sent : List (ℕ × ℕ)
  pub room : ℕ → ℕ
  pub graphics_active : Bool
  pub saved_active : Option ℕ

abbrev pub set_slot : ℕ → Slot → (ℕ → Slot) → ℕ → Slot
set_slot i s f j = if i == j then s else f j

-- `vt_id < 0 || vt_id >= VTERM_COUNT` is refused.
abbrev pub checked_id : ℕ → ℤ → Option ℕ
checked_id count (negsuc n) = none
checked_id count (pos n) = if ltb n count then some n else none

-- The buffer that the `cells` pointer of a terminal leads to.
abbrev pub cells_of : Manager → Slot → Cells
cells_of m s = elim s.place [ hot ↦ m.iram | stored ↦ s.storage ]

-- A terminal as the operations on it see it.
unfoldable pub term_of : Manager → ℕ → Term
term_of m i = record ((m.slots i).body) { cells = cells_of m (m.slots i) }

-- What an operation on terminal `i` has made of it, written through its pointer.
unfoldable pub put_term : Manager → ℕ → Term → Manager
put_term m i t = elim (m.slots i).place [
  | hot ↦ record m { iram = t.cells; slots = set_slot i (record (m.slots i) { body = t }) m.slots }
  | stored ↦ record m {
    slots = set_slot i (record (m.slots i) { body = t; storage = t.cells }) m.slots;
  }
]

-- The exchange of `vterm_switch`, between two different terminals.
abbrev pub swap_in : ℕ → Manager → Manager
swap_in new m =
    let old = m.active in
    let saved = record (m.slots old) { storage = m.iram; place = stored } in
    let slots₁ = set_slot old saved m.slots in
    let loaded = record (slots₁ new) { place = hot } in
    record m {
      iram = (slots₁ new).storage;
      slots = set_slot new loaded slots₁;
      active = new;
      notified = if m.has_callback then m.notified ++ new ∷ [] else m.notified;
    }

abbrev pub switch_to : ℕ → Manager → Manager
switch_to new m = if new == m.active then m else swap_in new m

-- With one terminal, switching is disabled.
unfoldable pub switch : ℕ → ℤ → Manager → Manager
switch count id m =
    if ltb 1 count
    then (elim (checked_id count id) [ none ↦ m | some new ↦ switch_to new m ])
    else m

-- A byte that a queue takes, which has room for it.
abbrev pub queued : ℕ → ℕ → Manager → Manager
queued id c m = record m {
  sent = m.sent ++ (id, c) ∷ [];
  room = λ j. if id == j then m.room j - 1 else m.room j;
}

-- `vterm_send_input`, which does not wait: xQueueSend refuses the byte where the queue is full, and
-- its answer is ignored.
unfoldable pub send_input : ℕ → ℕ → ℕ → Manager → Manager
send_input count id c m = if ltb id count && ltb 0 (m.room id) then queued id c m else m

abbrev pub send_all : ℕ → ℕ → Bytes → Manager → Manager
send_all count id [] m = m
send_all count id (c ∷ cs) m = send_all count id cs (send_input count id c m)

-- The replies of a run go to the input of the terminal that is active.
abbrev pub finish_write : ℕ → ℕ → Term → Manager → Manager
finish_write count i t m = send_all count m.active t.replies (put_term m i t)

unfoldable pub write_to : Geometry → ℕ → ℤ → Bytes → Manager → Option Manager
write_to g count id bytes m = elim (checked_id count id) [
  | none ↦ some m
  | some i ↦ elim (write g bytes (record (term_of m i) { replies = [] })) [
    | none ↦ none
    | some t ↦ some (finish_write count i t m)
  ]
]

-- The copy of the hot buffer into the active terminal's storage. The pointer stays.
abbrev pub save_active : Manager → Manager
save_active m = record m {
  slots = set_slot m.active (record (m.slots m.active) { storage = m.iram }) m.slots;
}

unfoldable pub enter_graphics_mode : ℕ → Manager → Manager
enter_graphics_mode count m =
    if m.graphics_active then m else record (if ltb 1 count then save_active m else m) {
      saved_active = some m.active;
      graphics_active = true;
    }

abbrev pub restore : ℕ → ℕ → Manager → Manager
restore count i m =
    if ltb i count
    then record m {
      iram = (m.slots i).storage;
      slots = set_slot i (record (m.slots i) { place = hot }) m.slots;
      active = i;
    }
    else m

abbrev pub restore_saved : ℕ → Option ℕ → Manager → Manager
restore_saved count none m = m
restore_saved count (some i) m = restore count i m

unfoldable pub exit_graphics_mode : ℕ → Manager → Manager
exit_graphics_mode count m =
    if m.graphics_active
    then record (if ltb 1 count then restore_saved count m.saved_active m else m) {
      graphics_active = false;
      saved_active = none;
    }
    else m

-- The `for` loop of `vterm_init`: terminals from `i` on, `n` of them. `alloc` answers the heap's
-- requests for storage, and `junk` is what such memory holds at first.
unfoldable pub init_slots :
    Geometry → Bool → (ℕ → Bool) → Cells → ℕ → ℕ → (ℕ → Slot) → Option (ℕ → Slot)
init_slots g several alloc junk zero i f = some f
init_slots g several alloc junk (suc n) i f =
    let fresh : Term = clear_internal g (record {
      cells = junk;
      cursor_x = 0;
      cursor_y = 0;
      cursor_visible = false;
      current_attr = 0;
      escape_state = idle;
      escape_buf = [];
      replies = [];
      out_of_bounds = false;
      overflow = false;
    }) in
    let slot : Slot = record {
      place = if several then stored else hot;
      storage = fresh.cells;
      body = fresh;
    } in
    let rest = init_slots g several alloc junk n (i + 1) (set_slot i slot f) in
    if several && not (alloc i) then none else rest

abbrev pub zero_cell : Cell
zero_cell = record { ch = 0; attr = 0 }

-- With several terminals the first is loaded into the hot buffer; a single one has no storage and
-- is cleared in the hot buffer itself.
abbrev pub init_active : Bool → (ℕ → Slot) → Manager → Manager
init_active several f m =
    if several
    then record m { iram = (f 0).storage; slots = set_slot 0 (record (f 0) { place = hot }) f }
    else record m { iram = (f 0).storage; slots = f }

-- `vterm_init`; `none` is ESP_ERR_NO_MEM. The first two requests are for the hot buffer and for the
-- array of terminals.
unfoldable pub init : Geometry → ℕ → Bool → Bool → (ℕ → Bool) → Cells → Manager → Option Manager
init g count hot_ok array_ok alloc junk m =
    if hot_ok && array_ok
    then (elim (init_slots g (ltb 1 count) alloc junk count 0 m.slots) [
      | none ↦ none
      | some f ↦
          some (init_active (ltb 1 count) f (record m { active = 0; room = λ i. input_queue_size }))
    ])
    else none

-- `vterm_get_cursor`
unfoldable pub get_cursor : ℕ → ℤ → Manager → Option (ℕ × ℕ × Bool)
get_cursor count id m = elim (checked_id count id) [
  | none ↦ none
  | some i ↦
      some ((m.slots i).body.cursor_x, (m.slots i).body.cursor_y, (m.slots i).body.cursor_visible)
]
