-- ===== src/Tests/Image.antt =====
-- The sections of an image.
use mathlib.Core.Path.{subst}
use uld_fdpic.Common.{
  zero, suc, ◌+◌, ◌-◌, ◌<◌, ◌≤◌, ◌≡◌, ◌≢◌, refl, arith, ◌⊎◌, inl, inr, true, false, some, none, [],
  ◌∷◌, pos,
}
use uld_fdpic.Mem.{Mem, null, read32, write32}
use uld_fdpic.Elf.Fields.{sh_size}
use uld_fdpic.Sal.{
  Section, by_lma, addr, flag_none, uld_section_find_in_list, uld_section_lma_to_adjusted_ma,
}
use uld_fdpic.Sal.FirstMatch.{IsFirstMatch, find_in_list-IsFirstMatch}
use uld_fdpic.Sal.Adjust.{is_blocked, lma_to_adjusted_ma_cases}
use uld_fdpic.File.{uld_file_lma_to_adjusted_ma}
use uld_fdpic.File.Translate.{Anywhere, sections, IsShort, Moved, file_lma_to_adjusted_ma_cases}
use uld_fdpic.Load.{gap_before, uld_load_alloc_mem_sections}
use uld_fdpic.Load.Laid.{total, gaps, Laid, Agree}
use uld_fdpic.Load.Place.{alloc_mem_sections-Laid}
use uld_fdpic.Tests.{section_memory, data_section, loaded}

abbrev m : Mem
m = section_memory

find_in_list-IsFirstMatch_example :
    IsFirstMatch m
      (addr 0x8004)
      by_lma
      flag_none
      flag_none
      (data_section ∷ [])
      (uld_section_find_in_list m (data_section ∷ []) (addr 0x8004) by_lma flag_none flag_none)
find_in_list-IsFirstMatch_example =
    find_in_list-IsFirstMatch m (addr 0x8004) by_lma flag_none flag_none (data_section ∷ [])

read_section : read32 m 532 ≡ 8
unfolding read32 write32
read_section = refl

size_8 : sh_size m 0x200 ≡ 8
unfolding sh_size
size_8 = read_section

lma_to_adjusted_ma_cases_example :
    let r = uld_section_lma_to_adjusted_ma m (some data_section) 0x8004 true in
    ((0x8004 ≢ null)
      × (0x8000 ≤ 0x8004)
      × (0x8004 < 0x8000 + sh_size m 0x200)
      × (is_blocked m data_section true ≡ false)
      × (r ≡ 0x400 + (0x8004 - 0x8000)))
    ⊎ ((0x8004 ≡ null)
        ⊎ (0x8004 < 0x8000)
        ⊎ (0x8000 + sh_size m 0x200 ≤ 0x8004)
        ⊎ (is_blocked m data_section true ≡ true))
      × (r ≡ null)
lma_to_adjusted_ma_cases_example =
    lma_to_adjusted_ma_cases m data_section 0x8004 true (omega arith) (omega (arith, size_8))
      (omega (arith, size_8))

only-IsShort : (s : Section) → Anywhere m 0x8004 (sections loaded) s → IsShort m false s
only-IsShort s (inl (i, got)) = cc
only-IsShort s (inr (inl (zero, got))) =
    let same : data_section ≡ s = cc in
    subst (λ t. IsShort m false t) same (omega (arith, size_8), omega (arith, size_8))
only-IsShort s (inr (inl (suc i, got))) = cc
only-IsShort s (inr (inr (inl (i, got)))) = cc
only-IsShort s (inr (inr (inr w))) = absurd w

file_lma_to_adjusted_ma_cases_example :
    Moved m loaded 0x8004 false (uld_file_lma_to_adjusted_ma m loaded 0x8004 false)
file_lma_to_adjusted_ma_cases_example =
    file_lma_to_adjusted_ma_cases m loaded 0x8004 false (omega arith) (ground arith) only-IsShort

total_8 : total m (data_section ∷ []) ≡ 8
total_8 = omega (arith, size_8)

no_gaps : gaps m none (data_section ∷ []) ≡ 0
unfolding gap_before
no_gaps = refl

alloc_mem_sections-Laid_example :
    let r = uld_load_alloc_mem_sections m 0x100 0x2000 0 (data_section ∷ []) in
    (r.ret ≡ pos 0)
    × Laid m r.memory 0x2000 (data_section ∷ []) r.sections
    × Agree 0x2000 (0x2000 + total m (data_section ∷ [])) m r.memory
alloc_mem_sections-Laid_example =
    alloc_mem_sections-Laid m 0x100 0x2000 0 (data_section ∷ []) (ground arith) (omega arith)
      (omega arith) (omega (arith, total_8))
      (((inl (omega arith), inl (omega (arith, size_8))), refl), tt) (omega (arith, no_gaps))
