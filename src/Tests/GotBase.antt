-- ===== src/Tests/GotBase.antt =====
-- A pointer of ".got" to the start of ".got.plt".
use mathlib.Core.Path.{subst}
use uld_fdpic.Common.{
  ℕ, zero, suc, ◌+◌, ◌≡◌, false, refl, arith, ◌⊎◌, Option, some, List, [], ◌∷◌, pos,
}
use uld_fdpic.Mem.{Mem, read32, write32}
use uld_fdpic.Elf.Fields.{sh_size}
use uld_fdpic.Sal.{
  Section, sec_hit, find_from, uld_section_find_in_list, uld_section_find_in_list_by_lma,
}
use uld_fdpic.File.Translate.{IsShort}
use uld_fdpic.Rofixup.{is_got_base, uld_rofixup_do_mem_fixup}
use uld_fdpic.Rofixup.Cases.{AllShort, Stays, Moves, pointer, do_mem_fixup_cases}
use uld_fdpic.Tests.{section_memory, data_section}

-- The second word of ".got" is the start of ".got.plt", which has 12 bytes.
abbrev m : Mem
m = write32 (write32 section_memory (0x240 + 20) 12) 0x2004 0x8008

abbrev plt_section : Section
plt_section = record data_section { shdr = 0x240; lma = 0x8008; adjusted_vma = 0x2008 }

abbrev both : List Section
both = data_section ∷ plt_section ∷ []

abbrev got : Option (ℕ × Section)
got = some (0, data_section)

abbrev plt : Option (ℕ × Section)
plt = some (1, plt_section)

sizes : (sh_size m 0x200 ≡ 8) × (sh_size m 0x240 ≡ 12)
unfolding sh_size read32 write32
sizes = (refl, refl)

both-AllShort : AllShort m both
both-AllShort t (zero, here) =
    let same : data_section ≡ t = cc in
    subst (λ s. IsShort m false s) same (omega (arith, sizes.0), omega (arith, sizes.0))
both-AllShort t (suc zero, here) =
    let same : plt_section ≡ t = cc in
    subst (λ s. IsShort m false s) same (omega (arith, sizes.1), omega (arith, sizes.1))
both-AllShort t (suc (suc i), here) = cc

pointer_there : pointer m got plt 0x2000 both (0, data_section) 0x8004 ≡ 0x8008
unfolding read32 write32
pointer_there = refl

-- The base of the file is stored, and from another section the moved address.
fixed :
    (uld_rofixup_do_mem_fixup got plt 0x2000 both m (0, data_section) 0x8004
      ≡ record { ret = pos 0; adj_fixup_addr = 0x2004; new_adj_fixup_addr = 0x2000 })
    × (uld_rofixup_do_mem_fixup got plt 0x2000 both m (2, data_section) 0x8004
        ≡ record { ret = pos 0; adj_fixup_addr = 0x2004; new_adj_fixup_addr = 0x2008 })
unfolding sh_size read32 write32 sec_hit find_from uld_section_find_in_list
    uld_section_find_in_list_by_lma is_got_base uld_rofixup_do_mem_fixup
fixed = (refl, refl)

do_mem_fixup_cases_example :
    let fix = uld_rofixup_do_mem_fixup got plt 0x2000 both m (0, data_section) 0x8004 in
    Stays m got plt 0x2000 both (0, data_section) 0x8004 fix
    ⊎ Moves m got plt 0x2000 both (0, data_section) 0x8004 fix
do_mem_fixup_cases_example =
    do_mem_fixup_cases m got plt 0x2000 both (0, data_section) 0x8004 both-AllShort
      (omega (arith, pointer_there))
