-- ===== src/Reloc.antt =====
-- src/uld_reloc.c: the move of a file to another place in flash. The entry of the file table and
-- the persistent store are in memory, at `fse` and `pstore`. The verbose output and the breakpoint
-- on a base that is not a multiple of 8 leave the state alone.
pub mod Steps
pub mod Moved
use uld_fdpic.Common.{
  ℕ, ◌+◌, Bool, true, false, ◌&&◌, ◌||◌, Option, none, some, List, [], ◌∷◌, ◌==◌, ltb, leb,
  if◌then◌else◌, length, ℤ, pos, negsuc, is_zero, bit_or,
}
use uld_fdpic.Mem.{Mem, null, add32, sub32, read32, cstr}
use uld_fdpic.Fs.{FsEntry}
use uld_fdpic.File.{UldFile}
use uld_fdpic.Sal.{
  Section, dot_got, dot_got_plt, dot_data, flag_type_all, flag_flash_needs_fixup, str_in_list,
}
use uld_fdpic.Sal.Crc.{fs_entry_at, uld_crc_update_fse, uld_crc_update_fst}
use uld_fdpic.Load.{uld_load_create_file}
use uld_fdpic.Rofixup.{FlashFixups, uld_rofixup_apply_flash_fixups}
use uld_fdpic.Cpu.{
  Flash, cpu_flash_is_locked, cpu_flash_unlock, cpu_flash_write, cpu_flash_write_word,
}

unfoldable pub uld_reloc_flash_fixup_mem_sections : List (List ℕ)
uld_reloc_flash_fixup_mem_sections = dot_got ∷ dot_got_plt ∷ dot_data ∷ []

-- ULD_FILE_SECTION_MAX.
abbrev pub uld_file_section_max : ℕ
uld_file_section_max = 20

abbrev pub mark_flash : List Section → List Section
mark_flash [] = []
mark_flash (s ∷ ss) = record s { flags = bit_or s.flags flag_flash_needs_fixup } ∷ mark_flash ss

unfoldable pub mark_named : Mem → List Section → List Section
mark_named m [] = []
mark_named m (s ∷ ss) =
    (if str_in_list uld_reloc_flash_fixup_mem_sections (cstr m s.name)
      then record s { flags = bit_or s.flags flag_flash_needs_fixup }
      else s)
    ∷ mark_named m ss

-- `none` is the result -1.
unfoldable pub uld_reloc_prepare_flash_fixups : Mem → Option UldFile → Option UldFile
uld_reloc_prepare_flash_fixups m none = none
uld_reloc_prepare_flash_fixups m (some u) =
    if length u.flash == 0
    then none
    else some (record u { flash = mark_flash u.flash; mem = mark_named m u.mem })

-- The first and the last byte of the new area are not in the old one.
unfoldable pub overlaps : Mem → ℕ → ℕ → Bool
overlaps m fse new_base =
    let base = read32 m fse in
    let size = read32 m (fse + 8) in
    let new_end = sub32 (add32 new_base size) 1 in
    let fse_end = sub32 (add32 base size) 1 in
    leb base new_base && leb new_base fse_end || leb base new_end && leb new_end fse_end

-- `if (ret) goto done;` in front of the next step.
abbrev pub then_step : (Flash → ℤ × Flash) → ℤ × Flash → ℤ × Flash
then_step next r = if is_zero r.0 then next r.1 else r

-- The fixups of the moved file write to the memory directly.
unfoldable pub fix_moved : Section → ℕ → Option UldFile → Flash → ℤ × Flash
fix_moved blank new_base none f = (negsuc 0, f)
fix_moved blank new_base (some u) f =
    let r = uld_rofixup_apply_flash_fixups f.memory blank new_base null u.flash u.mem in
    (r.ret, record f { memory = r.memory })

-- Both updates' results are ignored.
unfoldable pub update_crcs : ℕ → ℕ → Flash → ℤ × Flash
update_crcs pstore fse f = (pos 0, (uld_crc_update_fst (uld_crc_update_fse f fse).0.1 pstore).0.1)

-- From the copy of the file to the label `done`.
unfoldable pub move_created : ℕ → Section → ℕ → ℕ → UldFile → Flash → ℤ × Flash
move_created pstore blank fse new_base u f = then_step (update_crcs pstore fse) (
    then_step (λ g. cpu_flash_write_word g fse new_base)
      (then_step
        (λ g. fix_moved blank new_base (uld_reloc_prepare_flash_fixups g.memory (some u)) g)
        (cpu_flash_write f new_base (read32 f.memory fse) (read32 f.memory (fse + 8)))))

-- `if (was_locked) cpu_flash_unlock();`
abbrev pub unlock_if : Bool → Flash → Flash
unlock_if was_locked f = if was_locked then (cpu_flash_unlock f).1 else f

unfoldable pub uld_reloc_move_fse : Flash → ℕ → Section → ℕ → ℕ → ℤ × Flash
uld_reloc_move_fse f pstore blank fse new_base =
    let was_locked = cpu_flash_is_locked f in
    let entry = fs_entry_at f.memory fse in
    if (fse == null) || (new_base == null)
    then (negsuc 0, f)
    else if overlaps f.memory fse new_base
    then (negsuc 0, f)
    else elim (uld_load_create_file f.memory entry blank uld_file_section_max flag_type_all)
        as (λ x. ℤ × Flash) [
          | none ↦ (negsuc 0, f)
          | some u ↦
              let r = move_created pstore blank fse new_base u (unlock_if was_locked f) in
              (r.0, unlock_if was_locked r.1)
        ]
