-- ===== src/Shell/Parse.antt =====
-- src/components/breezybox/shell/sh_parse.c and sh_parse.h: the parser of the shell.
pub mod Node
pub mod Cursor
pub mod Redirect
pub mod Simple
pub mod Grammar
pub mod Consumed
pub mod Commands
pub mod Lists
pub mod Ends
mod Tests
