-- ===== src/Load/Laid.antt =====
-- Memory sections laid one behind the other.
use uld_fdpic.Common.{
  ℕ, ◌+◌, ◌<◌, ◌≤◌, ◌≡◌, ◌⊎◌, Option, none, some, List, [], ◌∷◌, ◌==◌, if◌then◌else◌, bit_or,
}
use uld_fdpic.Mem.{Mem}
use uld_fdpic.Elf.Fields.{sh_type, sh_size, sht_nobits}
use uld_fdpic.Sal.{Section, flag_mem_loaded}
use uld_fdpic.Load.{gap_before}

abbrev pub size : Mem → Section → ℕ
size m s = sh_size m s.shdr

abbrev pub total : Mem → List Section → ℕ
total m [] = 0
total m (s ∷ ss) = size m s + total m ss

-- Neither the section's header nor its bytes in flash lie in the `n` bytes from `lo` on.
abbrev pub IsOutside : Mem → ℕ → ℕ → Section → Type 0
IsOutside m lo hi s =
    ((s.shdr + 40 ≤ lo) ⊎ (hi ≤ s.shdr))
    × ((s.adjusted_lma + size m s ≤ lo) ⊎ (hi ≤ s.adjusted_lma))

abbrev pub PrevOutside : Mem → ℕ → ℕ → Option Section → Type 0
PrevOutside m lo hi none = Unit
PrevOutside m lo hi (some p) = IsOutside m lo hi p

-- The unused bytes in flash between the sections, behind `prev`.
abbrev pub gaps : Mem → Option Section → List Section → ℕ
gaps m prev [] = 0
gaps m prev (s ∷ ss) = gap_before m prev s + gaps m (some s) ss

abbrev pub Agree : ℕ → ℕ → Mem → Mem → Type 0
Agree lo hi m c = (a : ℕ) → (a < lo) ⊎ (hi ≤ a) → c a ≡ m a

-- The byte that a section has at offset `i` when it is loaded.
abbrev pub content : Mem → Section → ℕ → ℕ
content m s i = if sh_type m s.shdr == sht_nobits then 0 else m (s.adjusted_lma + i)

-- `ts` are the sections `ss` of the image `m`, laid one behind the other from `ptr` on in `g`.
abbrev pub Laid : Mem → Mem → ℕ → List Section → List Section → Type 0
Laid m g ptr [] [] = Unit
Laid m g ptr (s ∷ ss) (t ∷ ts) =
    (t ≡ record s { adjusted_vma = ptr; flags = bit_or s.flags flag_mem_loaded })
    × ((i : ℕ) → i < size m s → g (ptr + i) ≡ content m s i)
    × Laid m g (ptr + size m s) ss ts
Laid m g ptr [] (t ∷ ts) = ⊥
Laid m g ptr (s ∷ ss) [] = ⊥
