-- ===== src/Vterm/Keyboard.antt =====
-- `vterm_input_feed` of src/components/breezy_term/vterm.c: keys that are no hotkey are all sent
-- to the active terminal, in order, and the hotkeys switch terminals.
use breezybox.Prelude.{ℕ, ◌≤◌, ◌≡◌, Bool, true, false, Bytes, [], ◌∷◌, ◌++◌, map, length, take}
use breezybox.Vterm.Manager.{Manager, send_all}
use breezybox.Vterm.Hotkey.{Pending}

-- No byte was lost and none was made by the filter: the bytes that it sent to the active terminal,
-- one by one and in order, followed by those held back, are what was held back before, followed by
-- the new byte. The terminal's queue has taken as many of them as it had room for. At most ten bytes
-- are held back.
pub record Passed (count : ℕ) (m : Manager) (p : Pending) (c : ℕ) (p' : Pending) (m' : Manager)
    : Type 0 where
  pub flushed : Bytes
  pub same : flushed ++ p'.buf ≡ p.buf ++ c ∷ []
  pub delivered : m' ≡ send_all count m.active flushed m
  pub arrived : m'.sent ≡ m.sent ++ map (λ (b : ℕ). (m.active, b)) (take (m.room m.active) flushed)
  pub small : length p'.buf ≤ 10

-- A byte that completes a hotkey is not passed on.
abbrev pub Feeds : ℕ → Manager → Pending → ℕ → Bool × Pending × Manager → Type 0
Feeds count m p c (true, p', m') = p'.buf ≡ []
Feeds count m p c (false, p', m') = Passed count m p c p' m'
