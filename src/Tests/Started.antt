-- ===== src/Tests/Started.antt =====
-- The run of the file "a" of the flash image, which needs no other.
use uld_fdpic.Common.{ℕ, ◌≡◌, refl, arith, some, List, [], ◌∷◌, pos}
use uld_fdpic.Mem.{read16, read32, cstr}
use uld_fdpic.Libc.{memcpy}
use uld_fdpic.Elf.{
  elf32_get_section_by_index, find_shdr, elf32_get_shidx_by_section, elf32_get_section_flash_addr,
  elf32_adjust_lma, find_segment, elf32_get_segment_by_section, elf32_get_section_lma,
  elf32_get_section_name_shstrtab_faddr, elf32_get_section_name, elf32_get_section_by_name,
}
use uld_fdpic.Elf.Fields.{
  e_shoff, e_phnum, e_shentsize, e_shnum, e_shstrndx, sh_name, sh_type, sh_flags, sh_addr,
  sh_offset, sh_size, is_alloc,
}
use uld_fdpic.Sal.{
  get_str_idx_in_list, str_in_list, uld_section_mem_name_list, uld_section_mem_name_fixup_list,
  uld_section_is_mem_sec_by_name, uld_section_is_mem_sec_fixup_by_name, uld_section_get_type,
  sec_hit, find_from, uld_section_find_in_list, uld_section_find_in_list_by_lma_flag,
  uld_section_find_in_list_by_lma,
}
use uld_fdpic.Load.{
  uld_load_create_section, insert_section, fill_list, mark_last, uld_load_create_sec_list,
  uld_load_create_file, uld_load_get_next_membase, gap_before, place_bytes, alloc_loop,
  uld_load_alloc_mem_sections,
}
use uld_fdpic.Rofixup.{
  fixup_limits, fixup_entry, fixup_loop, uld_rofixup_apply_fixups, uld_rofixup_do_mem_fixup,
  uld_rofixup_apply_mem_fixups,
}
use uld_fdpic.Mem.{Mem}
use uld_fdpic.Fs.{FsEntry}
use uld_fdpic.Load.LoadFile.{load_mem, uld_load_file}
use uld_fdpic.File.{uld_file_get_sec_count}
use uld_fdpic.Dyn.Loading.{Loaded, load_deps, uld_dyn_load_fse_dep_list}
use uld_fdpic.Common.{sym}
use mathlib.Core.Path.{subst}
use uld_fdpic.Tests.{data_section}
use uld_fdpic.Tests.Flash.{flash}
use uld_fdpic.Common.{zero, suc}
use uld_fdpic.Fs.{uld_fs_get_file_count}
use uld_fdpic.Dyn.Deps.{
  uld_dyn_create_fse_dep_list_get_sections, requirements, dep_list, add_fse, visit_needed,
  uld_dyn_create_fse_dep_list,
}
use uld_fdpic.Dyn.Deps.Needs.{Falls, IsAcyclic}
use uld_fdpic.Dyn.Loading.{uld_dyn_get_dep_list_sec_count}
use uld_fdpic.Load.{count_headers, uld_load_get_sec_count}
use uld_fdpic.Elf.{elf32_get_section_by_name_shstrtab_faddr}
use uld_fdpic.Dyn.ExecFse.Runs.{Runs, exec_fse-Runs}
use uld_fdpic.Dyn.ExecFse.Runs
use uld_fdpic.Tests.Inits.{machine}

abbrev m : Mem
m = flash.memory

abbrev fse : FsEntry
fse = record { at = 0x3000; base = 0x1000; size = 196; crc = 0; flags = 0; name = 97 ∷ [] }

abbrev files : List FsEntry
files = fse ∷ []

nothing_needed : requirements m data_section fse ≡ (pos 1, [])
unfolding requirements uld_dyn_create_fse_dep_list_get_sections
    elf32_get_section_by_name_shstrtab_faddr read16 read32 cstr elf32_get_section_by_index find_shdr
    elf32_get_section_flash_addr elf32_get_section_name_shstrtab_faddr e_shoff e_shentsize e_shnum
    e_shstrndx sh_name sh_offset
nothing_needed = refl

abbrev rank : ℕ → ℕ
rank at = 0

acyclic : IsAcyclic (requirements m data_section) files rank
acyclic e (zero, got) =
    let same : fse ≡ e = cc in
    subst (λ f. Falls (requirements m data_section) files rank 0 (requirements m data_section f).1)
      same
      (subst (λ r. Falls (requirements m data_section) files rank 0 r.1) (sym nothing_needed) tt)
acyclic e (suc i, got) = cc

found :
    uld_dyn_create_fse_dep_list m data_section files 4 fse [] (uld_fs_get_file_count files)
    ≡ some (pos 0, fse ∷ [])
unfolding uld_fs_get_file_count uld_dyn_create_fse_dep_list dep_list add_fse visit_needed
    requirements uld_dyn_create_fse_dep_list_get_sections elf32_get_section_by_name_shstrtab_faddr
    read16 read32 cstr elf32_get_section_by_index find_shdr elf32_get_section_flash_addr
    elf32_get_section_name_shstrtab_faddr e_shoff e_shentsize e_shnum e_shstrndx sh_name sh_offset
found = refl

sections : uld_dyn_get_dep_list_sec_count m (fse ∷ []) 0x30 ≡ pos 2
unfolding uld_dyn_get_dep_list_sec_count uld_load_get_sec_count count_headers read16 read32 cstr
    elf32_get_section_by_index find_shdr elf32_get_section_flash_addr
    elf32_get_section_name_shstrtab_faddr e_shoff e_shentsize e_shnum e_shstrndx sh_name sh_offset
    sh_type sh_flags is_alloc get_str_idx_in_list str_in_list uld_section_mem_name_list
    uld_section_is_mem_sec_by_name uld_section_get_type
sections = refl

abbrev all : Loaded
all = Runs.loaded machine m files rank acyclic (fse ∷ []) 2

fine : all.ret ≡ pos 0
unfolding uld_load_file load_mem load_deps uld_dyn_load_fse_dep_list uld_file_get_sec_count read16
    read32 cstr memcpy elf32_get_section_by_index find_shdr elf32_get_shidx_by_section
    elf32_get_section_flash_addr elf32_adjust_lma find_segment elf32_get_segment_by_section
    elf32_get_section_lma elf32_get_section_name_shstrtab_faddr elf32_get_section_name
    elf32_get_section_by_name e_shoff e_phnum e_shentsize e_shnum e_shstrndx sh_name sh_type
    sh_flags sh_addr sh_offset sh_size is_alloc get_str_idx_in_list str_in_list
    uld_section_mem_name_list uld_section_mem_name_fixup_list uld_section_is_mem_sec_by_name
    uld_section_is_mem_sec_fixup_by_name uld_section_get_type sec_hit find_from
    uld_section_find_in_list uld_section_find_in_list_by_lma_flag uld_section_find_in_list_by_lma
    uld_load_create_section insert_section fill_list mark_last uld_load_create_sec_list
    uld_load_create_file uld_load_get_next_membase gap_before place_bytes alloc_loop
    uld_load_alloc_mem_sections fixup_limits fixup_entry fixup_loop uld_rofixup_apply_fixups
    uld_rofixup_do_mem_fixup uld_rofixup_apply_mem_fixups
fine = refl

exec_fse-Runs_example : Runs machine m files rank acyclic fse (fse ∷ []) all 0 1 ((97 ∷ []) ∷ [])
exec_fse-Runs_example =
    exec_fse-Runs machine m files rank acyclic fse (fse ∷ []) 2 0 1 ((97 ∷ []) ∷ []) (0, refl)
      (omega arith) found sections fine
