-- ===== src/Load.antt =====
-- src/uld_load.c: section lists from an ELF image, and the sections that move to memory. What a
-- function writes behind its pointers is returned with its result; `bss_end` is the linker's
-- `__bss_end__`. A breakpoint (`swbkpt`) and a printed warning leave the state alone.
pub mod Membase
pub mod Place
pub mod Laid
pub mod LoadFile
pub mod Unused
use uld_fdpic.Common.{
  ℕ, zero, suc, ◌+◌, ◌-◌, ◌%◌, ◌^◌, Bool, true, false, not, ◌&&◌, ◌||◌, Option, none, some, List,
  [], ◌∷◌, ◌++◌, ◌==◌, ltb, leb, if◌then◌else◌, length, ℤ, pos, negsuc, is_neg, bit_and, bit_or,
}
use uld_fdpic.Mem.{Mem, null, add32, sub32, align, cstr}
use uld_fdpic.Libc.{memcpy, memset}
use uld_fdpic.Elf.Fields.{
  e_type, e_shentsize, e_shnum, e_shstrndx, sh_type, sh_addr, sh_offset, sh_size, sht_nobits,
  et_exec,
}
use uld_fdpic.Elf.{
  SegmentResult, image_base, elf32_get_section_by_index, elf32_get_shidx_by_section,
  elf32_get_section_name, elf32_get_section_name_shstrtab_faddr, elf32_get_segment_by_section,
  elf32_get_section_lma, elf32_adjust_lma, elf32_adjust_vma, elf32_get_section_flash_addr,
}
use uld_fdpic.Sal.{
  Section, flag_none, flag_valid, flag_last, flag_type_mask, flag_type_flash, flag_type_mem,
  flag_type_other, flag_mem_needs_fixup, flag_mem_loaded, uld_section_get_type,
  uld_section_is_mem_sec_fixup_by_name,
}
use uld_fdpic.Fs.{FsEntry}
use uld_fdpic.File.{UldFile}

module _ (m : Mem) where
  -- The index that is kept: the given one if it is in the table, else the one found.
  abbrev section_idx : ℕ → ℕ → ℕ → ℤ → ℤ
  section_idx ehdr b shdr (negsuc _) = elf32_get_shidx_by_section m ehdr b shdr
  section_idx ehdr b shdr (pos i) =
      if leb (e_shnum m ehdr) i then elf32_get_shidx_by_section m ehdr b shdr else pos i

  abbrev section_name : ℕ → ℕ → ℕ → ℕ → ℕ
  section_name ehdr b shdr faddr =
      if faddr == null
      then elf32_get_section_name m ehdr b shdr
      else elf32_get_section_name_shstrtab_faddr m shdr faddr

  -- The last part, once index, name, segment and lma are there.
  abbrev section_flags : ℕ → ℕ → ℕ
  section_flags shdr name =
      let valid =
        bit_or flag_none (bit_or flag_valid (uld_section_get_type m shdr (cstr m name))) in
      if uld_section_is_mem_sec_fixup_by_name (cstr m name)
      then bit_or valid flag_mem_needs_fixup
      else valid

  -- `old` is what the section held before the call: an error leaves the fields not yet written.
  unfoldable pub uld_load_create_section : Section → ℕ → ℕ → ℕ → ℤ → ℕ → ℤ × Section
  uld_load_create_section old ehdr base shdr shidx faddr =
      let b = image_base ehdr base in
      let idx = section_idx ehdr b shdr shidx in
      let name = section_name ehdr b shdr faddr in
      let seg = elf32_get_segment_by_section m ehdr shdr true in
      let place = elf32_get_section_lma m ehdr shdr in
      let cleared = record old { flags = flag_none } in
      let indexed = record cleared { shidx = idx } in
      let named = record indexed { name = name } in
      let mapped = record named { phidx = seg.phidx; phdr = seg.phdr } in
      if (ehdr == null) || (shdr == null)
      then (negsuc 0, old)
      else if is_neg idx
      then (negsuc 0, cleared)
      else if name == null
      then (negsuc 0, named)
      else if is_neg seg.ret
      then (seg.ret, named)
      else if is_neg place.ret
      then (place.ret, mapped)
      else (
        pos 0,
        record mapped {
          lma = place.lma;
          adjusted_lma = elf32_adjust_lma m shdr b;
          adjusted_vma = elf32_adjust_vma m shdr b;
          faddr = elf32_get_section_flash_addr m shdr b;
          ehdr = ehdr;
          shdr = shdr;
          flags = section_flags shdr name;
        },
      )

  -- The name of a header and its section type.
  abbrev header_type : ℕ → ℕ → ℕ
  header_type faddr shdr =
      uld_section_get_type m shdr (cstr m (elf32_get_section_name_shstrtab_faddr m shdr faddr))

  unfoldable pub count_headers : ℕ → ℕ → ℕ → ℕ → ℕ → ℕ
  count_headers faddr mask stride zero p = 0
  count_headers faddr mask stride (suc left) p =
      let rest = count_headers faddr mask stride left (add32 p stride) in
      if bit_and (header_type faddr p) mask == 0 then rest else rest + 1

  unfoldable pub uld_load_get_sec_count : ℕ → ℕ → ℕ → ℤ
  uld_load_get_sec_count ehdr base mask =
      let shstrtab = elf32_get_section_by_index m ehdr base (pos (e_shstrndx m ehdr)) in
      let faddr = elf32_get_section_flash_addr m shstrtab ehdr in
      if ehdr == null
      then negsuc 0
      else pos (
          count_headers faddr mask (e_shentsize m ehdr) (e_shnum m ehdr - 1)
            (elf32_get_section_by_index m ehdr base (pos 1)))

  -- The test by which the insertion loop stops in front of `s`.
  unfoldable pub goes_before : ℕ → ℕ → Section → Bool
  goes_before sec_type shdr s =
      let at_type = bit_and s.flags flag_type_mask in
      ltb sec_type at_type
      || (sec_type == at_type)
        && (not (sh_addr m shdr == 0) && ltb (sh_addr m shdr) (sh_addr m s.shdr)
            || (sh_addr m shdr == 0) && ltb (sh_offset m shdr) (sh_offset m s.shdr))

  -- `make` fills the slot from what it held: the section that moves up, or the unused `blank`.
  unfoldable pub insert_section :
      (Section → Section) → (Section → Bool) → Section → List Section → List Section
  insert_section make before blank [] = make blank ∷ []
  insert_section make before blank (s ∷ ss) =
      if before s then make s ∷ s ∷ ss else s ∷ insert_section make before blank ss

  -- The loop over the headers, with `room` slots still unused.
  unfoldable pub fill_list : ℕ → ℕ → ℕ → ℕ → Section → ℕ → ℕ → ℕ → ℕ → List Section → List Section
  fill_list ehdr base faddr mask blank zero idx p room ss = ss
  fill_list ehdr base faddr mask blank (suc left) idx p room ss =
      let sec_type = header_type faddr p in
      let next = add32 p (e_shentsize m ehdr) in
      let make = λ (old : Section). (uld_load_create_section old ehdr base p (pos idx) faddr).1 in
      let added = insert_section make (goes_before sec_type p) blank ss in
      let skip = fill_list ehdr base faddr mask blank left (idx + 1) next room ss in
      let more = fill_list ehdr base faddr mask blank left (idx + 1) next (room - 1) added in
      if bit_and sec_type mask == 0 then skip else if room == 1 then added else more

  unfoldable pub mark_last : List Section → List Section
  mark_last [] = []
  mark_last (s ∷ []) = record s { flags = bit_or s.flags flag_last } ∷ []
  mark_last (s ∷ t ∷ ss) = s ∷ mark_last (t ∷ ss)

  unfoldable pub uld_load_create_sec_list : ℕ → ℕ → Section → ℕ → ℕ → ℤ × List Section
  uld_load_create_sec_list ehdr base blank snum mask =
      let shstrtab = elf32_get_section_by_index m ehdr null (pos (e_shstrndx m ehdr)) in
      let faddr = elf32_get_section_flash_addr m shstrtab ehdr in
      let ss =
        fill_list ehdr base faddr mask blank (e_shnum m ehdr - 1) 1
          (elf32_get_section_by_index m ehdr null (pos 1)) snum [] in
      if (ehdr == null) || (snum == 0) then (negsuc 0, []) else (pos (length ss), mark_last ss)

  -- The flash, memory and other sections of a file; the memory sections come first, and `snum`
  -- slots are shared by the three lists.
  abbrev typed_list : ℕ → Section → ℕ → ℕ → ℕ → List Section
  typed_list ehdr blank snum mask type =
      if bit_and mask type == 0 then [] else (uld_load_create_sec_list ehdr null blank snum type).1

  -- `none` is the result -1, before the file is written.
  unfoldable pub uld_load_create_file : FsEntry → Section → ℕ → ℕ → Option UldFile
  uld_load_create_file fse blank snum mask =
      let ehdr = fse.base in
      let mem = typed_list ehdr blank snum mask flag_type_mem in
      let left = snum - length mem in
      let flash = typed_list ehdr blank left mask flag_type_flash in
      let left' = left - length flash in
      let other = typed_list ehdr blank left' mask flag_type_other in
      let file : UldFile = record {
        fse = fse;
        flash = flash;
        mem = mem;
        other = other;
        adjusted_entry = null;
        membase = null;
        memsz = 0;
        flags = (if e_type m ehdr == et_exec then 1 else 0);
      } in
      if snum == 0 then none else some file

unfoldable pub uld_load_get_next_membase : ℕ → ℕ → ℕ → ℕ
uld_load_get_next_membase bss_end last_membase last_memsize =
    align (if leb bss_end last_membase then add32 last_membase last_memsize else bss_end) 3

-- What the loop of `uld_load_alloc_mem_sections` has done: the memory, the sections, the pointer
-- behind the last byte placed, and the base, which a gap between sections moves.
pub record Alloc : Type 0 where
  pub memory : Mem
  pub placed : List Section
  pub ptr : ℕ
  pub membase : ℕ

-- The unused bytes between a section and the one before it, as the C `long`: a positive one is
-- added to `membase`.
unfoldable pub gap_before : Mem → Option Section → Section → ℕ
gap_before m none s = 0
gap_before m (some p) s =
    let diff = sub32 (sub32 (sh_offset m s.shdr) (sh_offset m p.shdr)) (sh_size m p.shdr) in
    if sh_type m p.shdr == sht_nobits then 0 else if ltb diff (2 ^ 31) then diff else 0

-- The bytes of one section: copied from flash, or zero.
unfoldable pub place_bytes : Mem → ℕ → Section → Mem
place_bytes m ptr s =
    if not (sh_type m s.shdr == sht_nobits)
    then (memcpy m ptr s.adjusted_lma (sh_size m s.shdr)).1
    else (memset m ptr 0 (sh_size m s.shdr)).1

unfoldable pub alloc_loop : Mem → Option Section → ℕ → ℕ → List Section → Alloc
alloc_loop m prev membase ptr [] = record { memory = m; placed = []; ptr = ptr; membase = membase }
alloc_loop m prev membase ptr (s ∷ ss) =
    let s' = record s { adjusted_vma = ptr; flags = bit_or s.flags flag_mem_loaded } in
    let skipped = alloc_loop m (some s) membase ptr ss in
    let done =
      alloc_loop (place_bytes m ptr s) (some s) (add32 membase (gap_before m prev s))
        (add32 ptr (sh_size m s.shdr)) ss in
    if bit_and s.flags flag_type_mem == 0
    then record skipped { placed = s ∷ skipped.placed }
    else record done { placed = s' ∷ done.placed }

-- The result, `*allocated`, the memory and the sections.
pub record AllocResult : Type 0 where
  pub ret : ℤ
  pub allocated : ℕ
  pub memory : Mem
  pub sections : List Section

unfoldable pub uld_load_alloc_mem_sections : Mem → ℕ → ℕ → ℕ → List Section → AllocResult
uld_load_alloc_mem_sections m ehdr membase allocated ss =
    let a = alloc_loop m none membase membase ss in
    if (ehdr == null) || (membase == null) || (length ss == 0)
    then record { ret = negsuc 0; allocated = allocated; memory = m; sections = ss }
    else record {
      ret = pos 0;
      allocated = sub32 a.ptr a.membase;
      memory = a.memory;
      sections = a.placed;
    }
