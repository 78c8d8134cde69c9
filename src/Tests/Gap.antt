-- ===== src/Tests/Gap.antt =====
-- Two memory sections with unused bytes between them in the file.
use uld_fdpic.Common.{◌+◌, ◌≡◌, refl, arith, inl, List, [], ◌∷◌}
use uld_fdpic.Mem.{Mem, read32, write32, sub32}
use uld_fdpic.Elf.Fields.{sh_type, sh_offset, sh_size}
use uld_fdpic.Sal.{Section}
use uld_fdpic.Load.{uld_load_alloc_mem_sections}
use uld_fdpic.Load.Laid.{total}
use uld_fdpic.Load.Unused.{unused, alloc_mem_sections-unused}
use uld_fdpic.Tests.{section_memory, data_section}

-- A second header, of 4 bytes from 12 on in the file; the first section ends at 8.
abbrev m : Mem
m = write32 (write32 section_memory (0x240 + 16) 12) (0x240 + 20) 4

abbrev far_section : Section
far_section = record data_section { shdr = 0x240; adjusted_lma = 0x40c; adjusted_vma = 0x2008 }

abbrev both : List Section
both = data_section ∷ far_section ∷ []

sizes :
    (sh_size m 0x200 ≡ 8)
    × (sh_size m 0x240 ≡ 4)
    × (sh_offset m 0x200 ≡ 0)
    × (sh_offset m 0x240 ≡ 12)
    × (sh_type m 0x200 ≡ 0)
unfolding sh_size sh_offset sh_type read32 write32
sizes = (refl, refl, refl, refl, refl)

unused_4 : unused m both ≡ 4
unused_4 = ground (arith, sizes.0, sizes.2, sizes.3, sizes.4)

alloc_mem_sections-unused_example :
    (uld_load_alloc_mem_sections m 0x100 0x2000 0 both).allocated
    ≡ sub32 (total m both) (unused m both)
alloc_mem_sections-unused_example =
    let first = sizes.0 in
    let second = sizes.1 in
    alloc_mem_sections-unused m 0x100 0x2000 0 both (ground arith) (omega arith) (omega arith)
      (omega (arith, first, second))
      (
        ((inl (omega arith), inl (omega (arith, first))), refl),
        (((inl (omega arith), inl (omega (arith, second))), refl), tt),
      )
      (omega (arith, first, sizes.2), (omega (arith, second, sizes.3), tt))
      (omega (arith, unused_4))
