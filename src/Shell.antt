-- ===== src/Shell.antt =====
-- src/components/breezybox/shell: the shell.
pub mod Glob
pub mod State
pub mod Arith
pub mod Lex
pub mod Redir
pub mod Parse
mod Tests
