-- ===== src/Tests/Reloc.antt =====
-- The move of a file to 0x2000.
use uld_fdpic.Common.{
  ℕ, ◌≡◌, refl, arith, inl, Bool, true, false, ◌&&◌, List, [], ◌∷◌, ltb, ◌||◌, ◌==◌, ◌⊎◌, negsuc,
  pos, ℤ,
}
use uld_fdpic.Cpu.{
  Flash, cpu_flash_is_locked, cpu_flash_unlock, when_unlocked, cpu_flash_write,
  cpu_flash_write_word,
}
use uld_fdpic.Mem.{read16, read32, write32, cstr}
use uld_fdpic.Libc.{memmove}
use uld_fdpic.Elf.{
  elf32_get_section_by_index, find_shdr, elf32_get_shidx_by_section, elf32_get_section_flash_addr,
  elf32_adjust_lma, elf32_adjust_vma, find_segment, elf32_get_segment_by_section,
  elf32_get_section_lma, elf32_get_section_name_shstrtab_faddr, elf32_get_section_name,
  elf32_get_section_by_name,
}
use uld_fdpic.Elf.Fields.{
  e_shoff, e_phnum, e_shentsize, e_shnum, e_shstrndx, sh_name, sh_type, sh_flags, sh_addr,
  sh_offset, sh_size, is_alloc,
}
use uld_fdpic.Sal.{
  get_str_idx_in_list, str_in_list, uld_section_mem_name_list, uld_section_mem_name_fixup_list,
  uld_section_is_mem_sec_by_name, uld_section_is_mem_sec_fixup_by_name, uld_section_get_type,
  sec_hit, find_from, uld_section_find_in_list, uld_section_find_in_list_by_lma_flag,
  uld_section_find_in_list_by_adj_lma,
}
use uld_fdpic.Sal.Crc.{
  bytes_at, fs_entry_at, table_base, table_size, uld_crc_verify_fst, uld_crc_update_fst,
  uld_crc_calc_fse, uld_crc_verify_fse, uld_crc_update_fse,
}
use uld_fdpic.Load.{
  uld_load_create_section, insert_section, fill_list, mark_last, uld_load_create_sec_list,
  uld_load_create_file,
}
use uld_fdpic.Util.{crc_bit, crc_bits, crc_bytes, crc32}
use uld_fdpic.Rofixup.{
  fixup_limits, fixup_entry, fixup_loop, uld_rofixup_apply_fixups, flash_target,
  uld_rofixup_do_flash_fixup, uld_rofixup_apply_flash_fixups,
}
use uld_fdpic.Reloc.{
  uld_reloc_flash_fixup_mem_sections, mark_named, uld_reloc_prepare_flash_fixups, overlaps,
  fix_moved, update_crcs, move_created, uld_reloc_move_fse,
}
use uld_fdpic.Util.Crc.{IsBytes}
use uld_fdpic.Sal.Crc.Verify.{IsStore}
use uld_fdpic.Reloc.Moved.{move_fse_unlocks, move_fse-verify}
use uld_fdpic.Mem.{Mem, null}
use uld_fdpic.Tests.{data_section}
use uld_fdpic.Cpu.Trace.{unlock, write, perform_all, IsHit, perform_all-IsHit}
use uld_fdpic.Tests.Flash.{flash}

abbrev after : ℤ × Flash
after = uld_reloc_move_fse flash 0x4000 data_section 0x3000 0x2000

unfoldable move_ret : ℤ
move_ret = after.0

unfoldable moved_pointer : ℕ
moved_pointer = read32 after.1.memory 0x20c0

all_bytes : List ℕ → Bool
all_bytes [] = true
all_bytes (x ∷ xs) = ltb x 256 && all_bytes xs

all_bytes-IsBytes : (xs : List ℕ) → all_bytes xs ≡ true → IsBytes xs
unfolding all_bytes
all_bytes-IsBytes [] h = tt
all_bytes-IsBytes (x ∷ xs) h = (ground (arith, h), all_bytes-IsBytes xs (ground (arith, h)))

runs :
    (after.0 ≡ pos 0)
    × (read32 after.1.memory 0x3000 ≡ 0x2000)
    × (read32 after.1.memory 0x3008 ≡ 196)
    × (read32 after.1.memory 0x4010 ≡ 0x3000)
    × (read32 after.1.memory 0x4014 ≡ 24)
    × (read32 after.1.memory 0x20c0 ≡ 0x20c0)
unfolding cpu_flash_is_locked cpu_flash_unlock when_unlocked cpu_flash_write cpu_flash_write_word
    read16 read32 write32 cstr memmove elf32_get_section_by_index find_shdr
    elf32_get_shidx_by_section elf32_get_section_flash_addr elf32_adjust_lma elf32_adjust_vma
    find_segment elf32_get_segment_by_section elf32_get_section_lma
    elf32_get_section_name_shstrtab_faddr elf32_get_section_name elf32_get_section_by_name e_shoff
    e_phnum e_shentsize e_shnum e_shstrndx sh_name sh_type sh_flags sh_addr sh_offset sh_size
    is_alloc get_str_idx_in_list str_in_list uld_section_mem_name_list
    uld_section_mem_name_fixup_list uld_section_is_mem_sec_by_name
    uld_section_is_mem_sec_fixup_by_name uld_section_get_type sec_hit find_from
    uld_section_find_in_list uld_section_find_in_list_by_lma_flag
    uld_section_find_in_list_by_adj_lma fs_entry_at uld_crc_update_fst uld_crc_update_fse
    uld_load_create_section insert_section fill_list mark_last uld_load_create_sec_list
    uld_load_create_file fixup_limits fixup_entry fixup_loop uld_rofixup_apply_fixups flash_target
    uld_rofixup_do_flash_fixup uld_rofixup_apply_flash_fixups uld_reloc_flash_fixup_mem_sections
    mark_named uld_reloc_prepare_flash_fixups overlaps fix_moved update_crcs move_created
    uld_reloc_move_fse
runs = (refl, refl, refl, refl, refl, refl)

abbrev m : Mem
m = after.1.memory

bytes_lem : (all_bytes (bytes_at m 0x2000 196) ≡ true) × (all_bytes (bytes_at m 0x3000 24) ≡ true)
unfolding all_bytes cpu_flash_is_locked cpu_flash_unlock when_unlocked cpu_flash_write
    cpu_flash_write_word read16 read32 write32 cstr memmove elf32_get_section_by_index find_shdr
    elf32_get_shidx_by_section elf32_get_section_flash_addr elf32_adjust_lma elf32_adjust_vma
    find_segment elf32_get_segment_by_section elf32_get_section_lma
    elf32_get_section_name_shstrtab_faddr elf32_get_section_name elf32_get_section_by_name e_shoff
    e_phnum e_shentsize e_shnum e_shstrndx sh_name sh_type sh_flags sh_addr sh_offset sh_size
    is_alloc get_str_idx_in_list str_in_list uld_section_mem_name_list
    uld_section_mem_name_fixup_list uld_section_is_mem_sec_by_name
    uld_section_is_mem_sec_fixup_by_name uld_section_get_type sec_hit find_from
    uld_section_find_in_list uld_section_find_in_list_by_lma_flag
    uld_section_find_in_list_by_adj_lma bytes_at fs_entry_at uld_crc_update_fst uld_crc_calc_fse
    uld_crc_update_fse uld_load_create_section insert_section fill_list mark_last
    uld_load_create_sec_list uld_load_create_file crc_bit crc_bits crc_bytes crc32 fixup_limits
    fixup_entry fixup_loop uld_rofixup_apply_fixups flash_target uld_rofixup_do_flash_fixup
    uld_rofixup_apply_flash_fixups uld_reloc_flash_fixup_mem_sections mark_named
    uld_reloc_prepare_flash_fixups overlaps fix_moved update_crcs move_created uld_reloc_move_fse
bytes_lem = (refl, refl)

table_lem : (table_base m 0x4000 ≡ 0x3000) × (table_size m 0x4000 ≡ 24)
unfolding table_base table_size
table_lem = (runs.3, runs.4)

after-IsStore : IsStore m 0x4000 0x3000
after-IsStore = record {
  entry = inl (omega arith);
  file_bytes = rw (runs.1, runs.2) (all_bytes-IsBytes (bytes_at m 0x2000 196) bytes_lem.0);
  table_bytes = rw (runs.3, runs.4) (all_bytes-IsBytes (bytes_at m 0x3000 24) bytes_lem.1);
  file_entry = rw (runs.1, runs.2) (inl (omega arith));
  file_store = rw (runs.1, runs.2) (inl (omega arith));
  table_store = rw (table_lem.0, table_lem.1) (inl (omega arith));
}

move_fse-verify_example :
    (read32 m 0x3000 ≡ 0x2000)
    × ((uld_crc_verify_fse m 0x3000).0 ≡ true)
    × ((uld_crc_verify_fst m 0x4000).0 ≡ true)
move_fse-verify_example =
    move_fse-verify flash 0x4000 data_section 0x3000 0x2000 runs.0 (omega arith) after-IsStore

move_fse_unlocks_example :
    (((0x3000 == null) || (0x2000 == null) || overlaps flash.memory 0x3000 0x2000 ≡ true)
      × (after ≡ (negsuc 0, flash)))
    ⊎ (((0x3000 == null) || (0x2000 == null) || overlaps flash.memory 0x3000 0x2000 ≡ false)
        × (after.1.locked ≡ false))
move_fse_unlocks_example = move_fse_unlocks flash 0x4000 data_section 0x3000 0x2000

-- Unlocking, then a copy of 4 bytes.
perform_all-IsHit_example :
    ((perform_all (unlock ∷ write 0x2000 0x1000 4 ∷ []) flash).memory 0x2001 ≡ flash.memory 0x2001)
    ⊎ IsHit 0x2001 flash (unlock ∷ write 0x2000 0x1000 4 ∷ [])
perform_all-IsHit_example = perform_all-IsHit (unlock ∷ write 0x2000 0x1000 4 ∷ []) flash 0x2001
