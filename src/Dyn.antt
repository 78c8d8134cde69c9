-- ===== src/Dyn.antt =====
-- src/uld_dyn.c, the dynamic linker: symbol lookup, the order of dependencies, the resolution of
-- relocations and the linking of a list of files.
pub mod Symbols
pub mod Deps
pub mod Resolve
pub mod Link
pub mod Loading
pub mod ExecFse
