-- ===== src/Tests.antt =====
-- Concrete images, files and stores, at which the theorems and the code run.
mod Text
mod Store
mod Image
mod Gap
mod Needs
mod Symbols
mod Link
mod Resolved
mod Header
mod Rofixup
mod GotBase
mod Flash
mod Reloc
mod Loaded
mod Encoded
mod Printed
mod Dumps
mod Debugger
mod Inits
mod Started
mod Examples
use uld_fdpic.Common.{ℕ, ◌+◌, List, [], ◌∷◌, pos}
use uld_fdpic.Mem.{Mem, write32, writes}
use uld_fdpic.Sal.{Section, flag_type_mem}
use uld_fdpic.Fs.{FsEntry}
use uld_fdpic.File.{UldFile}

abbrev pub blank_memory : Mem
blank_memory = λ a. 0

-- "got" at 64 and "go" at 80.
abbrev pub text_memory : Mem
text_memory = writes (writes blank_memory 64 (103 ∷ 111 ∷ 116 ∷ [])) 80 (103 ∷ 111 ∷ [])

-- A section header of 16 bytes of data at 0x200, and eight bytes of 7 in flash at 0x400.
abbrev pub section_memory : Mem
section_memory =
    writes (write32 blank_memory (0x200 + 20) 8) 0x400 (7 ∷ 7 ∷ 7 ∷ 7 ∷ 7 ∷ 7 ∷ 7 ∷ 7 ∷ [])

abbrev pub data_section : Section
data_section = record {
  ehdr = 0x100;
  phdr = 0x180;
  shdr = 0x200;
  name = 0x300;
  lma = 0x8000;
  adjusted_lma = 0x400;
  faddr = 0x400;
  adjusted_vma = 0x2000;
  flags = flag_type_mem;
  phidx = pos 0;
  shidx = pos 1;
}

-- Two files, "a" and "b".
abbrev pub file_a : FsEntry
file_a = record { at = 1; base = 0x1000; size = 100; crc = 0; flags = 0; name = 97 ∷ [] }

abbrev pub file_b : FsEntry
file_b = record { at = 2; base = 0x1200; size = 50; crc = 0; flags = 0; name = 98 ∷ [] }

-- A file with that one section.
abbrev pub loaded : UldFile
loaded = record {
  fse = file_a;
  flash = [];
  mem = data_section ∷ [];
  other = [];
  adjusted_entry = 0;
  membase = 0;
  memsz = 0;
  flags = 0;
}
