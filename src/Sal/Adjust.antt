-- ===== src/Sal/Adjust.antt =====
-- Where `uld_section_lma_to_adjusted_ma` moves an address.
use uld_fdpic.Common.{
  ℕ, ◌+◌, ◌-◌, ◌<◌, ◌≤◌, ◌≡◌, ◌≢◌, arith, ◌⊎◌, Bool, true, false, ◌&&◌, ◌||◌, some, ◌==◌,
  if◌then◌else◌, bit_and,
}
use uld_fdpic.Mem.{Mem, null, w32}
use uld_fdpic.Elf.Fields.{sh_type, sh_size, sht_nobits}
use uld_fdpic.Sal.{Section, flag_mem_loaded, uld_section_lma_to_adjusted_ma}

-- A NOBITS section has no bytes in flash, and none in memory before it is loaded.
abbrev pub is_blocked : Mem → Section → Bool → Bool
is_blocked m s to_adj_lma =
    (sh_type m s.shdr == sht_nobits) && (to_adj_lma || (bit_and s.flags flag_mem_loaded == 0))

abbrev pub target : Section → Bool → ℕ
target s to_adj_lma = if to_adj_lma then s.adjusted_lma else s.adjusted_vma

-- An address other than NULL inside the section, unless the section is a NOBITS one with no bytes
-- there, moves to the same offset in the moved section; all others give NULL. The section and
-- the moved one do not reach the end of the address space.
pub lma_to_adjusted_ma_cases :
    (m : Mem) (s : Section) (a : ℕ) (to_adj_lma : Bool)
    → a < w32
    → s.lma + sh_size m s.shdr < w32
    → target s to_adj_lma + sh_size m s.shdr < w32
    → let r = uld_section_lma_to_adjusted_ma m (some s) a to_adj_lma in
      ((a ≢ null)
        × (s.lma ≤ a)
        × (a < s.lma + sh_size m s.shdr)
        × (is_blocked m s to_adj_lma ≡ false)
        × (r ≡ target s to_adj_lma + (a - s.lma)))
      ⊎ ((a ≡ null)
          ⊎ (a < s.lma)
          ⊎ (s.lma + sh_size m s.shdr ≤ a)
          ⊎ (is_blocked m s to_adj_lma ≡ true))
        × (r ≡ null)
unfolding uld_section_lma_to_adjusted_ma
lma_to_adjusted_ma_cases m s a to_adj_lma ha hs ht = ground arith
