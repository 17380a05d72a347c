-- ===== src/Shell/State.antt =====
-- src/components/breezybox/shell/sh_state.c: what the shell remembers between commands. The linked
-- lists are lists in their order, `getenv`, `setenv` and `unsetenv` read and change a function from
-- names to values.
pub mod Named
pub mod Vars
pub mod Lookup
pub mod Scopes
pub mod Restore
pub mod Frames
pub mod Calls
pub mod Mirror
pub mod Startup
pub mod Functions
