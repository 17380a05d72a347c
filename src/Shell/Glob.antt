-- ===== src/Shell/Glob.antt =====
-- src/components/breezybox/shell/sh_glob.c: the pattern matcher of the shell, the strip operators
-- and pathname expansion. A C string is the list of its bytes, and a pointer into it the rest of
-- that list. The classes are those of the C locale.
pub mod Bracket
pub mod Match
pub mod Strip
pub mod Paths
pub mod Folder
pub mod Expansion
