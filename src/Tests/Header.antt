-- ===== src/Tests/Header.antt =====
-- An image at 0x100 with one segment and two section headers.
use uld_fdpic.Common.{◌-◌, ◌≡◌, refl, arith, true, some, [], ◌∷◌, pos}
use uld_fdpic.Mem.{Mem, null, read16, read32, write32, writes}
use uld_fdpic.Elf.Fields.{e_phentsize, e_phnum, e_shentsize, e_shnum, e_shoff, sh_flags, is_alloc}
use uld_fdpic.Elf.{
  is_named, elf32_get_section_by_index, elf32_get_section_by_name, elf32_get_section_name,
  elf32_get_shidx_by_section, elf32_get_segment_by_index, elf32_get_segment_by_section,
}
use uld_fdpic.Elf.Lookup.{IsFirstHeader, section_by_name-IsFirstHeader, shidx_by_section_roundtrip}
use uld_fdpic.Elf.Segment.{FirstSegment, segment_by_section-FirstSegment}
use uld_fdpic.Tests.{blank_memory}

-- The sizes from e_phentsize on, e_phoff, e_shoff, the segment's type, and the flags of section 1.
abbrev image : Mem
image =
    write32
      (write32
        (write32
          (write32 (writes blank_memory 0x12a (32 ∷ 0 ∷ 1 ∷ 0 ∷ 40 ∷ 0 ∷ 2 ∷ 0 ∷ 1 ∷ 0 ∷ [])) 0x11c
            0x34)
          0x120 0x200)
        0x134 1)
      0x330 2

two_headers :
    (e_shnum image 0x100 ≡ 2) × (e_shentsize image 0x100 ≡ 40) × (e_shoff image 0x100 ≡ 0x200)
unfolding e_shnum e_shentsize e_shoff read16 read32 write32
two_headers = (refl, refl, refl)

shidx_by_section_roundtrip_example :
    elf32_get_shidx_by_section image 0x100 null
      (elf32_get_section_by_index image 0x100 null (pos 1))
    ≡ pos 1
shidx_by_section_roundtrip_example =
    shidx_by_section_roundtrip image 0x100 null 1 (ground arith) (omega (arith, two_headers))
      (omega (arith, two_headers)) (omega arith) (ground (arith, two_headers))
      (ground (arith, two_headers))

section_by_name-IsFirstHeader_example :
    IsFirstHeader
      (λ p. is_named image (elf32_get_section_name image 0x100 null p) (103 ∷ []))
      (e_shentsize image 0x100)
      (e_shnum image 0x100 - 1)
      (elf32_get_section_by_index image 0x100 null (pos 1))
      (elf32_get_section_by_name image 0x100 null (some (103 ∷ [])))
section_by_name-IsFirstHeader_example = section_by_name-IsFirstHeader image 0x100 null (103 ∷ [])

section_1_alloc : is_alloc image 0x328 ≡ true
unfolding is_alloc sh_flags read32 write32
section_1_alloc = refl

segment_by_section-FirstSegment_example :
    FirstSegment image 0x328
      (e_phentsize image 0x100)
      (e_phnum image 0x100)
      0
      (elf32_get_segment_by_index image 0x100 null (pos 0))
      (elf32_get_segment_by_section image 0x100 0x328 true)
segment_by_section-FirstSegment_example =
    segment_by_section-FirstSegment image 0x328 0x100 (ground arith) (ground arith) section_1_alloc
