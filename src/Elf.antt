-- ===== src/Elf.antt =====
-- src/elf.c and include/elf.h: section and segment headers of an ELF image in memory. A header is
-- the address it stands at; a result code and the outputs behind pointers are returned together.
pub mod Fields
pub mod Lookup
pub mod Segment
use uld_fdpic.Common.{
  ℕ, zero, suc, ◌+◌, ◌-◌, ◌*◌, ◌/◌, ◌%◌, ◌^◌, Bool, true, false, not, ◌&&◌, ◌||◌, Option, none,
  some, List, [], ◌∷◌, ◌==◌, ltb, leb, if◌then◌else◌, bytes_eq, ℤ, pos, negsuc, bit_and,
}
use uld_fdpic.Mem.{Mem, null, w32, add32, sub32, cstr}
use Fields.{
  e_entry, e_phoff, e_shoff, e_phentsize, e_phnum, e_shentsize, e_shnum, e_shstrndx, sh_name,
  sh_type, sh_flags, sh_addr, sh_offset, sh_size, p_type, p_offset, p_vaddr, p_paddr, p_filesz,
  p_memsz, sht_nobits, pt_load, is_alloc,
}

-- What a segment lookup returns: 0 and the segment, 1 with no segment, or -1.
pub record SegmentResult : Type 0 where
  pub ret : ℤ
  pub phidx : ℤ
  pub phdr : ℕ

-- The result code and `*lma`.
pub record LmaResult : Type 0 where
  pub ret : ℤ
  pub lma : ℕ
  pub phidx : ℤ

-- `base ? base : ehdr`.
abbrev pub image_base : ℕ → ℕ → ℕ
image_base ehdr base = if base == null then ehdr else base

-- (int)d / n for a 32-bit difference `d`: C division goes towards 0.
abbrev pub int_div : ℕ → ℕ → ℤ
int_div d n =
    if ltb d (2 ^ 31)
    then pos (d / n)
    else (let q = (w32 - d) / n in if q == 0 then pos 0 else negsuc (q - 1))

-- `elf32_for_each_shdr_base` around `if (test) return pos`, with `left` headers to go.
unfoldable pub find_header : (ℕ → Bool) → ℕ → ℕ → ℕ → ℕ
find_header test stride zero p = null
find_header test stride (suc left) p = elim (test p) [
  | true ↦ p
  | false ↦ find_header test stride left (add32 p stride)
]

module _ (m : Mem) where
  unfoldable pub elf32_get_segment_by_index : ℕ → ℕ → ℤ → ℕ
  elf32_get_segment_by_index ehdr base (negsuc _) = null
  elf32_get_segment_by_index ehdr base (pos i) =
      if (ehdr == null) || leb (e_phnum m ehdr) i
      then null
      else add32 (image_base ehdr base) (e_phoff m ehdr + e_phentsize m ehdr * i)

  unfoldable pub elf32_get_section_by_index : ℕ → ℕ → ℤ → ℕ
  elf32_get_section_by_index ehdr base (negsuc _) = null
  elf32_get_section_by_index ehdr base (pos i) =
      if (ehdr == null) || leb (e_shnum m ehdr) i
      then null
      else add32 (image_base ehdr base) (e_shoff m ehdr + e_shentsize m ehdr * i)

  -- The headers from index 1 on.
  unfoldable pub find_shdr : (ℕ → Bool) → ℕ → ℕ → ℕ
  unfolding find_header
  find_shdr test ehdr base =
      find_header test (e_shentsize m ehdr) (e_shnum m ehdr - 1)
        (elf32_get_section_by_index ehdr base (pos 1))

  abbrev pub in_section : ℕ → ℕ → Bool
  in_section vma shdr =
      leb (sh_addr m shdr) vma && ltb vma (add32 (sh_addr m shdr) (sh_size m shdr))

  unfoldable pub elf32_get_section_by_vma : ℕ → ℕ → ℕ → ℕ
  elf32_get_section_by_vma ehdr base vma =
      if ehdr == null then null else find_shdr (in_section vma) ehdr base

  unfoldable pub elf32_get_shidx_by_section : ℕ → ℕ → ℕ → ℤ
  elf32_get_shidx_by_section ehdr base shdr =
      if (ehdr == null) || (shdr == null)
      then negsuc 0
      else int_div (sub32 (sub32 shdr (image_base ehdr base)) (e_shoff m ehdr)) (e_shentsize m ehdr)

  unfoldable pub elf32_get_section_offset : ℕ → ℕ
  elf32_get_section_offset shdr = if shdr == null then null else sh_offset m shdr

  unfoldable pub elf32_get_section_flash_addr : ℕ → ℕ → ℕ
  elf32_get_section_flash_addr shdr base =
      if (shdr == null) || (base == null) then null else add32 base (sh_offset m shdr)

  -- The macros that move an address to where the image is in flash.
  unfoldable pub elf32_adjust_lma : ℕ → ℕ → ℕ
  elf32_adjust_lma shdr base =
      if not (sh_type m shdr == sht_nobits) && is_alloc m shdr
      then add32 base (sh_offset m shdr)
      else 0

  unfoldable pub elf32_adjust_vma : ℕ → ℕ → ℕ
  elf32_adjust_vma shdr base = add32 base (sh_offset m shdr)

  -- The three `continue` tests of the segment loop, none of which may hold.
  unfoldable pub segment_holds : ℕ → ℕ → Bool
  segment_holds shdr phdr =
      (p_type m phdr == pt_load)
      && not (
          ltb (sh_addr m shdr) (p_vaddr m phdr)
          || ltb (add32 (p_vaddr m phdr) (p_memsz m phdr))
              (add32 (sh_addr m shdr) (sh_size m shdr)))
      && not (
          not (sh_type m shdr == sht_nobits)
          && ltb (sh_offset m shdr) (p_offset m phdr)
          && ltb (add32 (p_offset m phdr) (p_filesz m phdr))
              (add32 (sh_offset m shdr) (sh_size m shdr)))

  unfoldable pub find_segment : ℕ → ℕ → ℕ → ℕ → ℕ → SegmentResult
  find_segment shdr stride zero idx p = record { ret = pos 1; phidx = negsuc 0; phdr = null }
  find_segment shdr stride (suc left) idx p = elim (segment_holds shdr p) [
    | true ↦ record { ret = pos 0; phidx = pos idx; phdr = p }
    | false ↦ find_segment shdr stride left (idx + 1) (add32 p stride)
  ]

  -- `wants` says that `phidx` or `phdr` is given; without either the call is refused.
  unfoldable pub elf32_get_segment_by_section : ℕ → ℕ → Bool → SegmentResult
  elf32_get_segment_by_section ehdr shdr wants =
      if (ehdr == null) || (shdr == null) || not wants
      then record { ret = negsuc 0; phidx = negsuc 0; phdr = null }
      else if is_alloc m shdr
      then find_segment shdr (e_phentsize m ehdr) (e_phnum m ehdr) 0
          (elf32_get_segment_by_index ehdr null (pos 0))
      else record { ret = pos 1; phidx = negsuc 0; phdr = null }

  -- The switch on the segment lookup's result.
  unfoldable pub section_lma : ℕ → ℤ → ℤ → ℕ → LmaResult
  section_lma shdr (pos zero) i phdr = record {
    ret = pos 0;
    phidx = i;
    lma =
        if not (sh_type m shdr == sht_nobits)
        then add32 (sub32 (sh_offset m shdr) (p_offset m phdr)) (p_paddr m phdr)
        else add32 (sub32 (sh_addr m shdr) (p_vaddr m phdr)) (p_paddr m phdr);
  }
  section_lma shdr (pos (suc zero)) i phdr = record { ret = pos 1; phidx = i; lma = sh_addr m shdr }
  section_lma shdr _ i phdr = record { ret = negsuc 0; phidx = negsuc 0; lma = null }

  unfoldable pub elf32_get_section_lma : ℕ → ℕ → LmaResult
  unfolding section_lma
  elf32_get_section_lma ehdr shdr =
      if (ehdr == null) || (shdr == null)
      then record { ret = negsuc 0; phidx = negsuc 0; lma = null }
      else (let seg = elf32_get_segment_by_section ehdr shdr true in
          section_lma shdr seg.ret seg.phidx seg.phdr)

  unfoldable pub elf32_get_section_adjusted_lma : ℕ → ℕ → ℕ → LmaResult
  elf32_get_section_adjusted_lma ehdr base shdr =
      let r = elf32_get_section_lma ehdr shdr in
      elim r.ret [
        | pos zero ↦ record r { lma = elf32_adjust_lma shdr (image_base ehdr base) }
        | _ ↦ r
      ]

  unfoldable pub elf32_get_section_name_shstrtab_faddr : ℕ → ℕ → ℕ
  elf32_get_section_name_shstrtab_faddr shdr faddr =
      if (shdr == null) || (faddr == null) then null else add32 faddr (sh_name m shdr)

  unfoldable pub elf32_get_section_name_shstrtab : ℕ → ℕ → ℕ → ℕ
  elf32_get_section_name_shstrtab base shdr shstrtab =
      let faddr = elf32_get_section_flash_addr shstrtab base in
      if faddr == null then null else elf32_get_section_name_shstrtab_faddr shdr faddr

  unfoldable pub elf32_get_section_name : ℕ → ℕ → ℕ → ℕ
  elf32_get_section_name ehdr base shdr =
      let b = image_base ehdr base in
      let shstrtab = elf32_get_section_by_index ehdr b (pos (e_shstrndx m ehdr)) in
      let faddr = elf32_get_section_flash_addr shstrtab b in
      if (ehdr == null) || (shstrtab == null) || (faddr == null)
      then null
      else elf32_get_section_name_shstrtab_faddr shdr faddr

  unfoldable pub elf32_get_section_name_by_index : ℕ → ℕ → ℤ → ℕ
  elf32_get_section_name_by_index ehdr base index =
      let b = image_base ehdr base in
      let shdr = elf32_get_section_by_index ehdr b index in
      let shstrtab = elf32_get_section_by_index ehdr b (pos (e_shstrndx m ehdr)) in
      let faddr = elf32_get_section_flash_addr shstrtab b in
      if (ehdr == null) || (shdr == null) || (shstrtab == null) || (faddr == null)
      then null
      else elf32_get_section_name_shstrtab_faddr shdr faddr

  -- `s && !strcmp(s, name)`.
  abbrev pub is_named : ℕ → List ℕ → Bool
  is_named s name = not (s == null) && bytes_eq (cstr m s) name

  -- A NULL name is `none`.
  unfoldable pub elf32_get_section_by_name_shstrtab_faddr : ℕ → ℕ → Option (List ℕ) → ℕ → ℕ
  elf32_get_section_by_name_shstrtab_faddr ehdr base none faddr = null
  elf32_get_section_by_name_shstrtab_faddr ehdr base (some name) faddr =
      find_shdr (λ p. is_named (elf32_get_section_name_shstrtab_faddr p faddr) name) ehdr base

  unfoldable pub elf32_get_section_by_name_shstrtab : ℕ → ℕ → Option (List ℕ) → ℕ → ℕ
  elf32_get_section_by_name_shstrtab ehdr base none shstrtab = null
  elf32_get_section_by_name_shstrtab ehdr base (some name) shstrtab =
      find_shdr (λ p. is_named (elf32_get_section_name_shstrtab ehdr p shstrtab) name) ehdr base

  unfoldable pub elf32_get_section_by_name : ℕ → ℕ → Option (List ℕ) → ℕ
  elf32_get_section_by_name ehdr base none = null
  elf32_get_section_by_name ehdr base (some name) =
      find_shdr (λ p. is_named (elf32_get_section_name ehdr null p) name) ehdr base

  unfoldable pub elf32_get_adjusted_entry : ℕ → ℕ → ℕ
  elf32_get_adjusted_entry ehdr base =
      let b = image_base ehdr base in
      let shdr = elf32_get_section_by_vma ehdr b (e_entry m ehdr) in
      if (ehdr == null) || (shdr == null)
      then null
      else sub32 (add32 (elf32_adjust_vma shdr b) (e_entry m ehdr)) (sh_addr m shdr)
