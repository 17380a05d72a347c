-- ===== src/Shell/Arith.antt =====
-- src/components/breezybox/shell/sh_arith.c: the evaluator of $(( )).
pub mod Long
pub mod Scan
pub mod Syntax
pub mod Parse
pub mod Literal
pub mod Shorter
pub mod Settles
pub mod Ends
mod Tests
