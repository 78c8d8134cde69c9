-- ===== src/Tests/Resolved.antt =====
-- A relocation that another one of the file has resolved already.
use uld_fdpic.Common.{◌+◌, ◌≡◌, refl, [], ◌∷◌, pos}
use uld_fdpic.Mem.{Mem, read16, read32, write32, writes, cstr, cstr_scan}
use uld_fdpic.Elf.Fields.{
  r_offset, r_info, r_sym, r_type, sh_size, sh_type, st_shndx, st_info, st_type,
  elf32_sym_has_section_index,
}
use uld_fdpic.Sal.{
  Section, flag_type_flash, sec_hit, find_from, uld_section_find_in_list,
  uld_section_find_in_list_by_lma, uld_section_lma_to_adjusted_ma, uld_section_lma_to_adjusted_vma,
}
use uld_fdpic.File.{UldFile, find_by, find_typed, uld_file_get_sec_by_name}
use uld_fdpic.Dyn.Resolve.{
  Resolution, check_type, note_symbol, skips, take_rel, find_rel, matching, try_file, search_files,
  uld_dyn_resolve_rel,
}
use uld_fdpic.Tests.{section_memory, data_section, loaded}

-- The names ".rel.dyn" and ".dynsym"; two ABS32 relocations against symbol 1, an undefined one;
-- and the word that the first has stored.
abbrev m : Mem
m =
    write32
      (write32
        (write32
          (write32
            (write32
              (write32
                (writes
                  (writes section_memory 0x600
                    (0x2e ∷ 0x72 ∷ 0x65 ∷ 0x6c ∷ 0x2e ∷ 0x64 ∷ 0x79 ∷ 0x6e ∷ []))
                  0x620 (0x2e ∷ 0x64 ∷ 0x79 ∷ 0x6e ∷ 0x73 ∷ 0x79 ∷ 0x6d ∷ []))
                0x700 0x8000)
              0x704 0x102)
            0x708 0x8004)
          0x70c 0x102)
        (0x680 + 20) 16)
      0x2000 0x1234

abbrev rel_section : Section
rel_section = record data_section {
  shdr = 0x680;
  name = 0x600;
  lma = 0x9000;
  adjusted_lma = 0x700;
  flags = flag_type_flash;
}

abbrev sym_section : Section
sym_section = record rel_section { name = 0x620; lma = 0x9100; adjusted_lma = 0x800 }

abbrev file : UldFile
file = record loaded { flash = rel_section ∷ sym_section ∷ [] }

abbrev before : Resolution
before = record { ptr = 0; membase = 0x2000; match_sym = 0; file_idx = 0 }

resolved :
    uld_dyn_resolve_rel m (file ∷ []) 0x708 0 1 before
    ≡ (pos 0, record { ptr = 0x1234; membase = 0; match_sym = 0; file_idx = 0 })
unfolding read16 read32 write32 cstr cstr_scan r_offset r_info r_sym r_type sh_size sh_type st_shndx
    st_info st_type elf32_sym_has_section_index sec_hit find_from uld_section_find_in_list
    uld_section_find_in_list_by_lma uld_section_lma_to_adjusted_ma uld_section_lma_to_adjusted_vma
    find_by find_typed uld_file_get_sec_by_name check_type note_symbol skips take_rel find_rel
    matching try_file search_files uld_dyn_resolve_rel
resolved = refl
