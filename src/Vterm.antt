-- ===== src/Vterm.antt =====
-- src/components/breezy_term/vterm.c: the virtual terminals.
pub mod Screen
pub mod Sgr
pub mod Escape
pub mod Write
pub mod Layout
pub mod Valid
pub mod SgrLoop
pub mod Lines
pub mod Commands
pub mod Step
pub mod Fast
pub mod Cursor
pub mod Manager
pub mod Switching
pub mod Graphics
pub mod Hotkey
pub mod Keyboard
mod Tests
