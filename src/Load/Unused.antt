-- ===== src/Load/Unused.antt =====
-- The size that `uld_load_alloc_mem_sections` of src/uld_load.c reports, for an image with unused
-- bytes between its sections.
use uld_fdpic.Common.{
  ℕ, ◌+◌, ◌-◌, ◌^◌, ◌<◌, ◌≡◌, ◌≢◌, ap, ◌∙◌, arith, false, none, some, List, [], ◌∷◌, ◌==◌,
  if◌then◌else◌, All, length, bit_and,
}
use uld_fdpic.Mem.{Mem, w32, sub32}
use uld_fdpic.Elf.Fields.{sh_type, sh_offset, sh_size, sht_nobits}
use uld_fdpic.Sal.{Section, flag_type_mem}
use uld_fdpic.Load.{gap_before, uld_load_alloc_mem_sections}
use uld_fdpic.Load.Laid.{total, IsOutside, gaps}
use uld_fdpic.Load.Place.{alloc_mem_sections_allocated}

-- The bytes of the file that the two sections leave unused between them: a NOBITS section leaves
-- none behind it, nor does a section that ends behind the start of the next.
abbrev pub between : Mem → Section → Section → ℕ
between m p s =
    if sh_type m p.shdr == sht_nobits
    then 0
    else sh_offset m s.shdr - (sh_offset m p.shdr + sh_size m p.shdr)

-- The unused bytes between all neighbours.
abbrev pub unused : Mem → List Section → ℕ
unused m [] = 0
unused m (s ∷ []) = 0
unused m (p ∷ s ∷ ss) = between m p s + unused m (s ∷ ss)

-- The section starts and ends in the file below 2 ^ 31.
abbrev pub IsLow : Mem → Section → Type 0
IsLow m s = sh_offset m s.shdr + sh_size m s.shdr < 2 ^ 31

module _ (m : Mem) where
  gap_before-between :
      (p s : Section) → IsLow m p → IsLow m s → gap_before m (some p) s ≡ between m p s
  unfolding gap_before
  gap_before-between p s low_p low_s = ground arith

  gaps-unused_behind :
      (p : Section) (ss : List Section)
      → All (IsLow m) (p ∷ ss)
      → gaps m (some p) ss ≡ unused m (p ∷ ss)
  gaps-unused_behind p [] low = omega arith
  gaps-unused_behind p (s ∷ ss) low =
      omega (arith, gap_before-between p s low.0 low.1.0, gaps-unused_behind s ss low.1)

  gaps-unused : (ss : List Section) → All (IsLow m) ss → gaps m none ss ≡ unused m ss
  unfolding gap_before
  gaps-unused [] low = omega arith
  gaps-unused (s ∷ ss) low = omega (arith, gaps-unused_behind s ss low)

-- For memory sections that start and end below 2 ^ 31 in the file, at least one, the size that
-- `uld_load_alloc_mem_sections` reports is short, by the bytes that the sections leave unused
-- between them in the file, of the sum of their sizes, as a 32-bit difference. The ELF header is
-- not NULL, the base is not 0, the base plus the sum of the sizes and the base plus the unused
-- bytes are below 2 ^ 32, and the sections' headers and bytes lie outside the area to fill.
pub alloc_mem_sections-unused :
    (m : Mem) (ehdr membase given : ℕ) (ss : List Section)
    → ehdr ≢ 0
    → 0 < membase
    → 0 < length ss
    → membase + total m ss < w32
    → All
        (λ s.
          IsOutside m membase (membase + total m ss) s
          × ((bit_and s.flags flag_type_mem == 0) ≡ false))
        ss
    → All (IsLow m) ss
    → membase + unused m ss < w32
    → (uld_load_alloc_mem_sections m ehdr membase given ss).allocated
      ≡ sub32 (total m ss) (unused m ss)
alloc_mem_sections-unused m ehdr membase given ss set base_pos some_section low ok in_file room =
    let same = gaps-unused m ss in_file in
    alloc_mem_sections_allocated m ehdr membase given ss set base_pos some_section low ok
      (omega (arith, same))
    ∙ ap (sub32 (total m ss)) same
