-- ===== src/Tests/Loaded.antt =====
-- The loading of that file: its sections, and its area of memory.
use uld_fdpic.Common.{
  ℕ, ◌+◌, ◌<◌, ◌≡◌, refl, arith, inl, true, some, none, List, [], ◌∷◌, pos, negsuc,
}
use uld_fdpic.Mem.{read16, read32, cstr}
use uld_fdpic.Libc.{memcpy}
use uld_fdpic.Elf.{
  elf32_get_section_by_index, find_shdr, elf32_get_shidx_by_section, elf32_get_section_flash_addr,
  elf32_adjust_lma, elf32_adjust_vma, find_segment, elf32_get_segment_by_section,
  elf32_get_section_lma, elf32_get_section_name_shstrtab_faddr, elf32_get_section_name,
  elf32_get_section_by_name,
}
use uld_fdpic.Elf.Fields.{
  e_type, e_shoff, e_phnum, e_shentsize, e_shnum, e_shstrndx, sh_name, sh_type, sh_flags, sh_addr,
  sh_offset, sh_size, is_alloc,
}
use uld_fdpic.Sal.{
  get_str_idx_in_list, str_in_list, uld_section_mem_name_list, uld_section_mem_name_fixup_list,
  uld_section_is_mem_sec_by_name, uld_section_is_mem_sec_fixup_by_name, uld_section_get_type,
  sec_hit, find_from, uld_section_find_in_list, uld_section_find_in_list_by_lma_flag,
  uld_section_find_in_list_by_lma,
}
use uld_fdpic.Load.{
  uld_load_create_section, insert_section, fill_list, mark_last, uld_load_create_sec_list,
  uld_load_create_file, uld_load_get_next_membase, gap_before, place_bytes, alloc_loop,
  uld_load_alloc_mem_sections,
}
use uld_fdpic.Rofixup.{
  fixup_limits, fixup_entry, fixup_loop, uld_rofixup_apply_fixups, uld_rofixup_do_mem_fixup,
  uld_rofixup_apply_mem_fixups,
}
use uld_fdpic.Mem.{Mem}
use uld_fdpic.Sal.{Section}
use uld_fdpic.Fs.{FsEntry}
use uld_fdpic.File.{UldFile}
use uld_fdpic.Load.Laid.{total, gaps}
use uld_fdpic.Load.LoadFile.{load_mem, uld_load_file}
use uld_fdpic.File.{uld_file_get_sec_count}
use uld_fdpic.Dyn.Loading.{Loaded, load_deps, uld_dyn_load_fse_dep_list}
use uld_fdpic.Dyn.Loading.Areas.{Ascending, load_fse_dep_list-Ascending}
use uld_fdpic.Mem.{w32}
use uld_fdpic.Common.{sym, All}
use mathlib.Core.Path.{subst}
use uld_fdpic.Load.LoadFile.Frame.{IsLoaded, load_file-IsLoaded}
use uld_fdpic.Tests.{data_section, loaded}
use uld_fdpic.Tests.Flash.{flash}

abbrev m : Mem
m = flash.memory

abbrev fse : FsEntry
fse = record { at = 0x3000; base = 0x1000; size = 196; crc = 0; flags = 0; name = 97 ∷ [] }

abbrev rofixup : Section
rofixup = record {
  ehdr = 0x1000;
  phdr = 0;
  shdr = 4148;
  name = 4274;
  lma = 28672;
  adjusted_lma = 4284;
  faddr = 4284;
  adjusted_vma = 4284;
  flags = 19;
  phidx = negsuc 0;
  shidx = pos 1;
}

abbrev data_sec : Section
data_sec = record {
  ehdr = 0x1000;
  phdr = 0;
  shdr = 4188;
  name = 4268;
  lma = 32768;
  adjusted_lma = 4288;
  faddr = 4288;
  adjusted_vma = 4288;
  flags = 4131;
  phidx = negsuc 0;
  shidx = pos 2;
}

abbrev names : Section
names = record {
  ehdr = 0x1000;
  phdr = 0;
  shdr = 4228;
  name = 4283;
  lma = 0;
  adjusted_lma = 0;
  faddr = 4268;
  adjusted_vma = 4268;
  flags = 67;
  phidx = negsuc 0;
  shidx = pos 3;
}

abbrev file : UldFile
file = record {
  fse = fse;
  flash = rofixup ∷ [];
  mem = data_sec ∷ [];
  other = names ∷ [];
  adjusted_entry = 0;
  membase = 0;
  memsz = 0;
  flags = 1;
}

created : uld_load_create_file m fse data_section 20 0x70 ≡ some file
unfolding read16 read32 cstr elf32_get_section_by_index elf32_get_section_flash_addr
    elf32_adjust_lma elf32_adjust_vma find_segment elf32_get_segment_by_section
    elf32_get_section_lma elf32_get_section_name_shstrtab_faddr e_type e_shoff e_phnum e_shentsize
    e_shnum e_shstrndx sh_name sh_type sh_flags sh_addr sh_offset is_alloc get_str_idx_in_list
    str_in_list uld_section_mem_name_list uld_section_mem_name_fixup_list
    uld_section_is_mem_sec_by_name uld_section_is_mem_sec_fixup_by_name uld_section_get_type
    uld_load_create_section insert_section fill_list mark_last uld_load_create_sec_list
    uld_load_create_file
created = refl

-- The base, the size of the area, its gaps.
numbers :
    (uld_load_get_next_membase 0x5000 0 0 ≡ 0x5000)
    × (total m file.mem ≡ 4)
    × (gaps m none file.mem ≡ 0)
unfolding read32 sh_size uld_load_get_next_membase gap_before
numbers = (refl, refl, refl)

load_file-IsLoaded_example :
    IsLoaded m file
      (uld_load_get_next_membase 0x5000 0 0)
      (uld_load_file 0x5000 m true loaded fse data_section data_section 20 0x70 0 0)
load_file-IsLoaded_example =
    load_file-IsLoaded 0x5000 m loaded fse data_section data_section 20 0x70 0 0 file created
      (ground arith) (omega (arith, numbers.0)) (omega arith) (omega (arith, numbers.0, numbers.1))
      (
        (
          (inl (omega (arith, numbers.0)), inl (omega (arith, numbers.0, numbers.1))),
          refl,
          omega (arith, numbers.1),
        ),
        tt,
      )
      (omega (arith, numbers.0, numbers.2))

-- The file twice.
abbrev both : Loaded
both = uld_dyn_load_fse_dep_list 0x5000 fse data_section m true (fse ∷ fse ∷ []) [] (pos 8) 0 0

ends : List UldFile → List ℕ
ends [] = []
ends (f ∷ fs) = (f.membase + f.memsz) ∷ ends fs

ends-All :
    (fs : List UldFile)
    → All (λ e. e + 8 < w32) (ends fs)
    → All (λ f. f.membase + f.memsz + 8 < w32) fs
unfolding ends
ends-All [] h = tt
ends-All (f ∷ fs) h = (h.0, ends-All fs h.1)

two_loads : (both.ret ≡ pos 0) × (ends both.files ≡ 0x5004 ∷ 0x500c ∷ [])
unfolding ends uld_load_file load_mem load_deps uld_dyn_load_fse_dep_list uld_file_get_sec_count
    read16 read32 cstr memcpy elf32_get_section_by_index find_shdr elf32_get_shidx_by_section
    elf32_get_section_flash_addr elf32_adjust_lma find_segment elf32_get_segment_by_section
    elf32_get_section_lma elf32_get_section_name_shstrtab_faddr elf32_get_section_name
    elf32_get_section_by_name e_shoff e_phnum e_shentsize e_shnum e_shstrndx sh_name sh_type
    sh_flags sh_addr sh_offset sh_size is_alloc get_str_idx_in_list str_in_list
    uld_section_mem_name_list uld_section_mem_name_fixup_list uld_section_is_mem_sec_by_name
    uld_section_is_mem_sec_fixup_by_name uld_section_get_type sec_hit find_from
    uld_section_find_in_list uld_section_find_in_list_by_lma_flag uld_section_find_in_list_by_lma
    uld_load_create_section insert_section fill_list mark_last uld_load_create_sec_list
    uld_load_create_file uld_load_get_next_membase gap_before place_bytes alloc_loop
    uld_load_alloc_mem_sections fixup_limits fixup_entry fixup_loop uld_rofixup_apply_fixups
    uld_rofixup_do_mem_fixup uld_rofixup_apply_mem_fixups
two_loads = (refl, refl)

load_fse_dep_list-Ascending_example :
    Ascending both.membase (both.membase + both.allocated) both.files
load_fse_dep_list-Ascending_example =
    load_fse_dep_list-Ascending 0x5000 fse data_section (omega arith) m (fse ∷ fse ∷ []) [] 8 0 0
      (omega arith) two_loads.0
      (ends-All both.files (
        subst (λ es. All (λ e. e + 8 < w32) es) (sym two_loads.1) (omega arith, (omega arith, tt))))
