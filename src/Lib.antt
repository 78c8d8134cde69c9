-- ===== src/Lib.antt =====
-- uld-fdpic: a dynamic loader for FDPIC ELF files that stay in flash. A store in flash holds the
-- files; the loader reads their section headers in place, gives each file an area of memory for
-- its writable sections, copies those there, and links the files by their dynamic symbols.
--
-- Memory is the function `Mem` from addresses to bytes. A pointer is its address modulo 2 ^ 32,
-- NULL is 0, half words and words are little-endian, as on the target. A C struct in the image is
-- read by its offsets (Elf/Fields); a struct that the loader builds is a record, and what a
-- function stores behind a pointer is returned beside its result. `int` results are the integers
-- `ℤ` of Common/Int, error codes being negative.
--
-- Common (with Common/Tests, Common/Lists, Common/Int): shared names; Bits: laws of `&` and `^`.
-- Mem: the address space, include/uld_def.h; Mem/Laws: reads after writes, texts.
-- Libc: src/libc.c, the memory and string functions; Libc/Copy, Libc/Strings: what they do.
--   Libc/Stdio, Libc/Stdio/Format: its output functions and `_uld_vfprintf`, over the two
--   functions of a FILE; Libc/Stdio/Count, Libc/Stdio/Count/Formats: how many they write.
-- Util: src/util.c, CRC-32; Util/Crc: its laws. Util/Number: the number printers;
--   Util/Number/Decimal: the number that a text stands for.
-- Elf, Elf/Fields: src/elf.c and include/elf.h; Elf/Lookup, Elf/Segment: what its searches find.
-- Fs: src/uld_fs.c; Fs/Sorted, Fs/Space: the search for free space.
-- Sal: src/uld_sal.c and the string lists of src/util.c; Sal/Find, Sal/FirstMatch, Sal/Adjust,
--   Sal/Names.
--   Sal/Crc: the CRCs of files and of their table; Sal/Crc/Verify: checks after updates.
-- File: src/uld_file.c; File/Translate: where addresses move; File/CopySec: copies of a section.
-- Load: src/uld_load.c; Load/Membase, Load/Laid, Load/Place: where sections go; Load/Unused:
--   the bytes between them. Load/LoadFile: uld_load_file; Load/LoadFile/Frame: the memory that it
--   leaves alone.
-- Dyn/Symbols: the symbol lookup of src/uld_dyn.c; Dyn/Symbols/Hash, Dyn/Symbols/Chain.
-- Dyn/Deps: its dependency list; Dyn/Deps/Needs, Dyn/Deps/Order, Dyn/Deps/Cycle; Dyn/Deps/Exact:
--   the search with exact room.
-- Dyn/Loading: uld_dyn_load_fse_dep_list; Dyn/Loading/OneFile, Dyn/Loading/Areas: the memory of
--   the files; Dyn/Loading/Entries: their entries.
-- Dyn/Resolve: uld_dyn_resolve_rel; Dyn/Resolve/Provided, Dyn/Resolve/Checked,
--   Dyn/Resolve/Sound: where a resolution comes from.
-- Dyn/Link: the writes and uld_dyn_link_file_list; Dyn/Link/Write, Dyn/Link/Pool,
--   Dyn/Link/Touched, Dyn/Link/Reached, Dyn/Link/Walk: what it may write.
-- Dyn/ExecFse: uld_dyn_exec_fse, which composes the above with Exec; Dyn/ExecFse/Runs: a whole run;
--   Dyn/ExecFse/Order: the order of the init functions.
-- Rofixup: src/uld_rofixup.c; Rofixup/Frame, Rofixup/Cases: what fixups write and leave alone.
-- Cpu: the flash of src/cpu.c; Cpu/Trace: sequences of its operations.
-- Reloc: src/uld_reloc.c, the move of a file in flash; Reloc/Steps, Reloc/Moved: the store
--   after it.
-- Exec: src/uld_exec.c, the calls into loaded code; Exec/Inits: as a list of calls. Main:
--   src/uld.c, the boot actions.
-- Init: src/uld_init.c, the constructors that run before.
-- Print, Print/Gdb, Print/Tables, Print/Names: the dumps of src/uld_print.c; Print/Returns: that
--   they end.
-- Base64: src/base64.c, and Base64/Calls, its callbacks; Base64/Text, the reference encoder and a
--   decoder; Base64/Digits, Base64/Bytes, Base64/Line, Base64/Holds, Base64/Open, Base64/Buffer,
--   Base64/Lines, Base64/Final, Base64/Message: a message in calls and lines.
-- Swi: src/swi.c, output through the debugger; Swi/Outcome: its answers.
-- Example: the programs of src/example. Example/World: their variables; Example/Print: the library
--   ex_lib_print.c (Example/Print/Returns, Example/Print/Shows, Example/Print/Box: what it draws);
--   Example/Garage, Example/Ftable: ex_lib_garage.c and ex_lib_ftable.c (Example/Garage/Counts);
--   Example/DynTest: ex_app_dyn_test.c (Example/DynTest/Leads, Example/DynTest/Steps,
--   Example/DynTest/Passes: its test of the garage, Example/DynTest/Tables: that of the table,
--   Example/DynTest/Whole: its run); Example/HelloWorld: ex_app_hello_world.c.
-- Tests: concrete images, stores, files, lines and formats.
--
-- The parts depend on each other as in the code: Load creates the section records of Sal from the
-- headers that Elf finds, and keeps them in the UldFile of File; File searches them by Sal; Dyn
-- finds files in Fs and symbols in the sections of a File; Reloc writes a file by Cpu and fixes it
-- by Rofixup; Main moves and starts files by Reloc and Dyn.
--
-- Fuel and bounds: `cstr` and the walks over the hash chains and the dynamic table stop after 2 ^
-- 32 steps, more than the address space has bytes, so that only a walk that has no end in C is
-- cut off; so does the walk over the table of files in Main. `strlen`, `strcmp` and `strcpy` take
-- fuel and return `none` without enough; the theorems name what is enough. The loops over the
-- relocations and over the fixups read the size of their table each time and stop after 2 ^ 29
-- entries of 8 bytes and 2 ^ 30 of 4, as many as the address space holds; so do the calls of an
-- array of init functions, after 2 ^ 30. The dumps have the same bounds. The dependency search
-- takes the depth of its recursion. The Base64 encoder sends as many lines as it is given bytes,
-- at most; a decimal has ten digits; a padding takes one round for each character, against a
-- device that takes one at least. The loops of Swi over the clock, and of Example/Print over the
-- characters of a line, take a number of rounds as an argument; the theorems name what is enough.
--
-- Not modelled: assembly, the host scripts and the build. The semihosting traps of src/swi.c, which
-- the debugger answers, are functions of a host; cpu_get_pc and the addresses that the examples
-- print are parameters. The programs of src/example run to the loop at their end. What a called
-- function of a loaded file does to memory, the callbacks of Base64, and the functions of a FILE
-- are parameters. Breakpoints have no effect; Example/World counts them.
pub mod Common
pub mod Mem
pub mod Libc
pub mod Elf
pub mod Fs
pub mod Sal
pub mod File
pub mod Cpu
pub mod Print
pub mod Reloc
pub mod Exec
pub mod Main
pub mod Init
pub mod Base64
pub mod Bits
pub mod Util
pub mod Example
pub mod Swi
pub mod Load
pub mod Dyn
pub mod Rofixup
pub mod Tests
