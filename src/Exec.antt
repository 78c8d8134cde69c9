-- ===== src/Exec.antt =====
-- src/uld_exec.c: the calls into a loaded file, of its init functions and of its entry. What the
-- loaded code does is a parameter, a change of memory, so that a later call sees the memory that
-- the earlier ones leave. The messages are left out.
pub mod Inits
use uld_fdpic.Common.{
  ℕ, zero, suc, ◌-◌, ◌*◌, ◌/◌, ◌%◌, ◌^◌, true, false, ◌||◌, Option, none, some, List, [], ◌∷◌, ◌==◌,
  ltb, if◌then◌else◌, ℤ, pos, negsuc,
}
use uld_fdpic.Mem.{Mem, null, add32, read32}
use uld_fdpic.Elf.Fields.{sh_size}
use uld_fdpic.Elf.{
  elf32_get_section_by_name, elf32_get_section_flash_addr, elf32_get_adjusted_entry,
}
use uld_fdpic.File.{UldFile}

-- ".preinit_array", ".init_array".
unfoldable pub uld_exec_init_section_list : List (List ℕ)
uld_exec_init_section_list =
    (0x2e ∷ 0x70 ∷ 0x72 ∷ 0x65 ∷ 0x69 ∷ 0x6e ∷ 0x69 ∷ 0x74 ∷ 0x5f ∷ 0x61 ∷ 0x72 ∷ 0x72 ∷ 0x61 ∷ 0x79
      ∷ [])
    ∷ (0x2e ∷ 0x69 ∷ 0x6e ∷ 0x69 ∷ 0x74 ∷ 0x5f ∷ 0x61 ∷ 0x72 ∷ 0x72 ∷ 0x61 ∷ 0x79 ∷ [])
    ∷ []

-- The functions whose pointers stand from `arr_start` to `arr_end`. Fewer than 2 ^ 30 pointers of
-- 4 bytes fit between two addresses.
unfoldable pub call_loop : (ℕ → Mem → Mem) → ℕ → ℕ → ℕ → Mem → Mem
call_loop call zero arr_start arr_end m = m
call_loop call (suc left) arr_start arr_end m = elim (ltb arr_start arr_end) [
  | false ↦ m
  | true ↦
      let called = if arr_start == null then m else call (read32 m arr_start) m in
      call_loop call left (add32 arr_start 4) arr_end called
]

unfoldable pub uld_exec_call_vv_fp_array : (ℕ → Mem → Mem) → ℕ → ℕ → Mem → Mem
uld_exec_call_vv_fp_array call arr_start arr_end m =
    if (arr_start == null) || (arr_end == null)
    then m
    else call_loop call (2 ^ 30) arr_start arr_end m

-- A call of loaded code: the function's address, the base in r9, and the memory.
module _ (call : ℕ → ℕ → Mem → Mem) where
  unfoldable pub uld_exec_call_vv_fp_array_fdpic_base : ℕ → ℕ → ℕ → Mem → Mem
  uld_exec_call_vv_fp_array_fdpic_base arr_start arr_end fdpic_base m =
      if (arr_start == null) || (arr_end == null)
      then m
      else call_loop (λ fp c. call fp fdpic_base c) (2 ^ 30) arr_start arr_end m

  -- The loop over the names of the sections; a section that the file does not have is passed over.
  unfoldable pub call_sections : List (List ℕ) → UldFile → Mem → Mem
  call_sections [] f m = m
  call_sections (name ∷ names) f m =
      let ehdr = f.fse.base in
      let init_shdr = elf32_get_section_by_name m ehdr null (some name) in
      let arr_start = elf32_get_section_flash_addr m init_shdr ehdr in
      let arr_end = add32 arr_start (4 * (sh_size m init_shdr / 4)) in
      let called =
        if init_shdr == null
        then m
        else uld_exec_call_vv_fp_array_fdpic_base arr_start arr_end f.membase m in
      call_sections names f called

  unfoldable pub uld_exec_elf_call_init_funcs : Option UldFile → Mem → ℤ × Mem
  uld_exec_elf_call_init_funcs none m = (negsuc 0, m)
  uld_exec_elf_call_init_funcs (some f) m = (pos 0, call_sections uld_exec_init_section_list f m)

-- The entry code gets the entry's address, the stack's base, the arguments and the file's base;
-- its result and memory are those of the call. `argv` is `none` for NULL.
unfoldable pub uld_exec_file :
    (ℕ → ℕ → ℕ → Option (List (List ℕ)) → ℕ → Mem → ℤ × Mem)
    → Option UldFile
    → ℕ
    → ℤ
    → Option (List (List ℕ))
    → Mem
    → ℤ × Mem
uld_exec_file call_entry none sp_base argc argv m = (negsuc 0, m)
uld_exec_file call_entry (some f) sp_base (negsuc _) argv m = (negsuc 0, m)
uld_exec_file call_entry (some f) sp_base (pos (suc argc)) none m = (negsuc 0, m)
uld_exec_file call_entry (some f) sp_base (pos argc) argv m =
    call_entry (elf32_get_adjusted_entry m f.fse.base null) (sp_base - sp_base % 8) argc argv
      f.membase m
