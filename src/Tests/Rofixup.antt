-- ===== src/Tests/Rofixup.antt =====
-- A pointer at the start of the data section, into that section.
use mathlib.Core.Path.{subst}
use uld_fdpic.Common.{
  ℕ, zero, suc, ◌+◌, ◌<◌, ◌≤◌, ◌≡◌, ◌≢◌, false, refl, arith, ◌⊎◌, inl, List, [], ◌∷◌, pos,
}
use uld_fdpic.Mem.{Mem, read32, write32}
use uld_fdpic.Elf.Fields.{sh_size}
use uld_fdpic.Sal.{Section}
use uld_fdpic.File.Translate.{Elem, IsShort}
use uld_fdpic.Rofixup.{uld_rofixup_apply_flash_fixups, uld_rofixup_apply_mem_fixups}
use uld_fdpic.Rofixup.Cases.{AllShort, apply_flash_fixups_no_mem}
use uld_fdpic.Rofixup.Frame.{IsAway, IsFlashed, apply_mem_fixups-IsAway}
use uld_fdpic.Tests.{section_memory, data_section}

abbrev m : Mem
m = write32 section_memory 0x2000 0x8004

abbrev one_section : List Section
one_section = data_section ∷ []

size_8 : sh_size m 0x200 ≡ 8
unfolding sh_size read32 write32
size_8 = refl

only_data : (t : Section) → Elem t one_section → data_section ≡ t
only_data t (zero, got) = cc
only_data t (suc i, got) = cc

one-AllShort : AllShort m one_section
one-AllShort t there =
    subst (λ s. IsShort m false s) (only_data t there)
      (omega (arith, size_8), omega (arith, size_8))

apply_flash_fixups_no_mem_example :
    (uld_rofixup_apply_flash_fixups m data_section 0x100 0 one_section []).ret ≢ pos 0
apply_flash_fixups_no_mem_example = apply_flash_fixups_no_mem m data_section 0x100 0 one_section

IsAway-below : (a : ℕ) → a < 0x2000 → IsAway m one_section a
IsAway-below a lt t there =
    subst (λ s. (a < s.adjusted_vma) ⊎ (s.adjusted_vma + sh_size m s.shdr + 3 ≤ a))
      (only_data t there) (inl lt)

one-IsFlashed : IsFlashed m one_section
one-IsFlashed = record {
  short = one-AllShort;
  headers = λ t i there lt.
      subst (λ s. IsAway m one_section (s.shdr + i)) (only_data t there)
        (IsAway-below (0x200 + i) (omega arith));
}

apply_mem_fixups-IsAway_example :
    (uld_rofixup_apply_mem_fixups m data_section 0x100 0 one_section 0x2000).memory 0x400 ≡ m 0x400
apply_mem_fixups-IsAway_example =
    apply_mem_fixups-IsAway m one_section one-IsFlashed data_section 0x100 0 0x2000 0x400
      (IsAway-below 0x400 (omega arith))
