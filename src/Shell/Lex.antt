-- ===== src/Shell/Lex.antt =====
-- src/components/breezybox/shell/sh_lex.c: the tokens of a script.
pub mod Quote
pub mod Word
pub mod Token
pub mod Verbatim
pub mod Shorter
pub mod Bodies
pub mod Ends
pub mod Quoted
pub mod Letters
pub mod Steps
pub mod HereDoc
pub mod NoDelimiter
mod Tests
