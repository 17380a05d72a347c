-- ===== src/Vterm/Graphics.antt =====
-- Graphics mode of src/components/breezy_term/vterm.c, in which a program draws into the hot buffer.
use breezybox.Prelude.{ℕ, ◌<◌, ◌≡◌, ◌≢◌, refl, true, false, pos, none, some, arith}
use breezybox.Vterm.Screen.{Cells}
use breezybox.Vterm.Manager.{
  hot, Manager, set_slot, term_of, swap_in, switch, save_active, enter_graphics_mode,
  exit_graphics_mode,
}
use breezybox.Vterm.Switching.{IsManaged, Switched}

entered :
    (count : ℕ) (m : Manager)
    → 1 < count
    → m.graphics_active ≡ false
    → enter_graphics_mode count m
      ≡ record (save_active m) { saved_active = some m.active; graphics_active = true }
unfolding enter_graphics_mode
entered count m h e = ground arith

left :
    (count : ℕ) (m : Manager) (i : ℕ)
    → i < count
    → 1 < count
    → m.graphics_active ≡ true
    → m.saved_active ≡ some i
    → exit_graphics_mode count m ≡ record m {
      iram = (m.slots i).storage;
      slots = set_slot i (record (m.slots i) { place = hot }) m.slots;
      active = i;
      graphics_active = false;
      saved_active = none;
    }
unfolding exit_graphics_mode
left count m i h k e d = ground arith

-- Graphics mode with more than one terminal: where nothing but drawing into the hot buffer comes
-- between entering the mode and leaving it, leaving it brings every terminal's contents back,
-- whatever was drawn, with the terminal active that was.
pub graphics_round_trip :
    (count : ℕ) (m : Manager) (drawn : Cells)
    → IsManaged count m
    → 1 < count
    → m.graphics_active ≡ false
    → Switched count m.active m
        (exit_graphics_mode count (record (enter_graphics_mode count m) { iram = drawn }))
graphics_round_trip count m drawn v h e =
    let inside = record (save_active m) {
      saved_active = some m.active;
      graphics_active = true;
      iram = drawn;
    } in
    rw (entered count m h e) (
      rw (left count inside m.active v.active_in h refl refl) (record {
        managed = record { active_in = v.active_in; only_hot = λ i. ground (arith, v.only_hot i) };
        active_is = refl;
        shown = unfold term_of in ground (arith, v.only_hot m.active);
        contents = λ i. unfold term_of in ground (arith, v.only_hot i, v.only_hot m.active);
      }))

-- A switch while graphics mode is on leaves two terminals with the hot buffer for their cells, once
-- the mode is left.
pub graphics_switch :
    (count new : ℕ) (m : Manager)
    → IsManaged count m
    → new < count
    → new ≢ m.active
    → m.graphics_active ≡ false
    → let m' = exit_graphics_mode count (switch count (pos new) (enter_graphics_mode count m)) in
      ((m'.slots m.active).place ≡ hot) × ((m'.slots new).place ≡ hot)
graphics_switch count new m v h ne e =
    let several : 1 < count = omega (arith, v.active_in) in
    let inside = record (save_active m) { saved_active = some m.active; graphics_active = true } in
    let swapped : switch count (pos new) inside ≡ swap_in new inside =
      unfold switch in ground arith in
    rw (entered count m several e) (
      rw swapped (
        rw (left count (swap_in new inside) m.active v.active_in several refl refl) (ground arith)))
