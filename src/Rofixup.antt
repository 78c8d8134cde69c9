-- ===== src/Rofixup.antt =====
-- src/uld_rofixup.c: the pointers that ".rofixup" lists are moved with the sections that they
-- point into. A fixup callback is a function of the memory, the section that holds the pointer,
-- with its position in the list, and the table's entry. Verbose output leaves the state alone.
pub mod Cases
pub mod Frame
use uld_fdpic.Common.{
  ℕ, zero, suc, ◌+◌, ◌^◌, Bool, true, false, not, ◌&&◌, ◌||◌, Option, none, some, List, [], ◌∷◌,
  ◌==◌, ltb, leb, if◌then◌else◌, length, ℤ, pos, negsuc, is_neg, is_zero, is_nonzero, min, max,
  bit_and, bit_or,
}
use uld_fdpic.Mem.{Mem, null, add32, sub32, read32, write32}
use uld_fdpic.Elf.Fields.{sh_size}
use uld_fdpic.Elf.{
  image_base, elf32_adjust_lma, elf32_get_section_by_name, elf32_get_shidx_by_section,
}
use uld_fdpic.Sal.{
  Section, dot_got, dot_got_plt, flag_mem_needs_fixup, flag_mem_fixup_done, flag_flash_needs_fixup,
  flag_flash_fixup_done, uld_section_find_in_list_by_lma_flag, uld_section_find_in_list_by_lma,
  uld_section_find_in_list_by_adj_lma, uld_section_find_in_list_by_name,
}
use uld_fdpic.Load.{uld_load_create_section}

-- A callback's result and what it stores in `struct do_fixup_data`.
pub record Fixup : Type 0 where
  pub ret : ℤ
  pub adj_fixup_addr : ℕ
  pub new_adj_fixup_addr : ℕ

abbrev pub DoFixup : Type 0
DoFixup = Mem → ℕ × Section → ℕ → Fixup

abbrev pub dot_rofixup : List ℕ
dot_rofixup = 0x2e ∷ 0x72 ∷ 0x6f ∷ 0x66 ∷ 0x69 ∷ 0x78 ∷ 0x75 ∷ 0x70 ∷ []

-- The lowest address and the end of the marked sections.
unfoldable pub fixup_limits : Mem → ℕ → List Section → ℕ × ℕ
fixup_limits m need_flag [] = (0xffffffff, 0)
fixup_limits m need_flag (s ∷ ss) =
    let rest = fixup_limits m need_flag ss in
    if bit_and s.flags need_flag == 0
    then rest
    else (min rest.0 s.lma, max rest.1 (add32 s.lma (sh_size m s.shdr)))

-- One entry of the table: the code, which is not negative if the loop goes on, and the memory.
unfoldable pub fixup_entry : DoFixup → List Section → ℕ → ℕ × ℕ → ℕ → Mem → ℤ × Mem
fixup_entry do_fixup sec_list need_flag limits entry m =
    let addr = read32 m entry in
    if ltb addr limits.0 || leb limits.1 addr
    then (pos 1, m)
    else elim (uld_section_find_in_list_by_lma_flag m sec_list addr need_flag need_flag)
        as (λ x. ℤ × Mem) [
          | none ↦ (pos 1, m)
          | some s ↦
              let fix = do_fixup m s addr in
              if is_zero fix.ret
              then (fix.ret, write32 m fix.adj_fixup_addr fix.new_adj_fixup_addr)
              else (fix.ret, m)
        ]

-- `if (ret < 0) return ret;` in front of the rest of the loop.
abbrev pub after_entry : (Mem → ℤ × Mem) → ℤ × Mem → ℤ × Mem
after_entry rest r = if is_neg r.0 then r else rest r.1

-- The loop from the entry at `p` on. A table below the end of the address space has fewer than
-- 2 ^ 30 entries of 4 bytes.
unfoldable pub fixup_loop : DoFixup → List Section → ℕ → ℕ × ℕ → Section → ℕ → ℕ → Mem → ℤ × Mem
fixup_loop do_fixup sec_list need_flag limits rofixup zero p m = (pos 0, m)
fixup_loop do_fixup sec_list need_flag limits rofixup (suc left) p m =
    elim (ltb p (add32 rofixup.adjusted_lma (sh_size m rofixup.shdr))) [
      | false ↦ (pos 0, m)
      | true ↦
          after_entry
            (λ c. fixup_loop do_fixup sec_list need_flag limits rofixup left (add32 p 4) c)
            (fixup_entry do_fixup sec_list need_flag limits p m)
    ]

pub record FixupResult : Type 0 where
  pub ret : ℤ
  pub memory : Mem
  pub sections : List Section

abbrev pub mark_done : ℕ → List Section → List Section
mark_done done_flag [] = []
mark_done done_flag (s ∷ ss) =
    record s { flags = bit_or s.flags done_flag } ∷ mark_done done_flag ss

-- `blank` is what the local section holds before.
unfoldable pub uld_rofixup_apply_fixups :
    Mem → Section → ℕ → ℕ → List Section → ℕ → ℕ → DoFixup → FixupResult
uld_rofixup_apply_fixups m blank ehdr base sec_list need_flag done_flag do_fixup =
    let b = image_base ehdr base in
    let shdr = elf32_get_section_by_name m ehdr b (some dot_rofixup) in
    let shidx = elf32_get_shidx_by_section m ehdr b shdr in
    let rofixup = (uld_load_create_section m blank ehdr b shdr shidx null).1 in
    let limits = fixup_limits m need_flag sec_list in
    let out =
      fixup_loop do_fixup sec_list need_flag limits rofixup (2 ^ 30) rofixup.adjusted_lma m in
    if (ehdr == null) || (length sec_list == 0)
    then record { ret = negsuc 0; memory = m; sections = sec_list }
    else if shdr == null
    then record { ret = pos 1; memory = m; sections = sec_list }
    else if is_neg out.0
    then record { ret = out.0; memory = out.1; sections = sec_list }
    else record { ret = pos 0; memory = out.1; sections = mark_done done_flag sec_list }

abbrev value : Option (ℕ × Section) → Option Section
value none = none
value (some p) = some p.1

-- No update: the code 1.
abbrev pub no_update : ℕ → Fixup
no_update adj = record { ret = pos 1; adj_fixup_addr = adj; new_adj_fixup_addr = null }

abbrev pub update_to : ℕ → ℕ → Fixup
update_to adj new = record { ret = pos 0; adj_fixup_addr = adj; new_adj_fixup_addr = new }

-- The target in flash first, then in memory.
unfoldable pub flash_target : Mem → List Section → List Section → ℕ → Option Section
flash_target m flash_list mem_list word =
    elim (uld_section_find_in_list_by_adj_lma m flash_list word) [
      | none ↦ value (uld_section_find_in_list_by_adj_lma m mem_list word)
      | some t ↦ some t.1
    ]

-- A target that is found by its first address only is reported, and not moved.
unfoldable pub uld_rofixup_do_flash_fixup : ℕ → List Section → List Section → DoFixup
uld_rofixup_do_flash_fixup base flash_list mem_list m fixup_sec addr =
    let adj = add32 (sub32 addr fixup_sec.1.lma) (elf32_adjust_lma m fixup_sec.1.shdr base) in
    let word = read32 m adj in
    if word == 0
    then no_update adj
    else elim (flash_target m flash_list mem_list word) as (λ x. Fixup) [
      | none ↦ no_update adj
      | some t ↦ update_to adj (add32 (sub32 word t.adjusted_vma) (elf32_adjust_lma m t.shdr base))
    ]

-- `fixup_sec == got_sec && got_plt_sec && word == got_plt_sec->lma`.
unfoldable pub is_got_base : ℕ → Option (ℕ × Section) → Option (ℕ × Section) → ℕ → Bool
is_got_base idx (some got) (some plt) word = (idx == got.0) && (word == plt.1.lma)
is_got_base idx got plt word = false

-- The flash list serves for messages only.
unfoldable pub uld_rofixup_do_mem_fixup :
    Option (ℕ × Section) → Option (ℕ × Section) → ℕ → List Section → DoFixup
uld_rofixup_do_mem_fixup got_sec got_plt_sec membase mem_list m fixup_sec addr =
    let adj = add32 (sub32 addr fixup_sec.1.lma) fixup_sec.1.adjusted_vma in
    let word = read32 m adj in
    if word == 0
    then no_update adj
    else elim (uld_section_find_in_list_by_lma m mem_list word) as (λ x. Fixup) [
      | none ↦ no_update adj
      | some t ↦
          if is_got_base fixup_sec.0 got_sec got_plt_sec word
          then update_to adj membase
          else update_to adj (add32 (sub32 word t.1.lma) t.1.adjusted_vma)
    ]

-- The lists of flash and of memory sections are both returned.
pub record FlashFixups : Type 0 where
  pub ret : ℤ
  pub memory : Mem
  pub flash : List Section
  pub mem : List Section

unfoldable pub uld_rofixup_apply_flash_fixups :
    Mem → Section → ℕ → ℕ → List Section → List Section → FlashFixups
uld_rofixup_apply_flash_fixups m blank ehdr base flash_list mem_list =
    let b = image_base ehdr base in
    let do_fixup = uld_rofixup_do_flash_fixup b flash_list mem_list in
    let one =
      uld_rofixup_apply_fixups m blank ehdr b flash_list flag_flash_needs_fixup
        flag_flash_fixup_done do_fixup in
    let two =
      uld_rofixup_apply_fixups one.memory blank ehdr b mem_list flag_flash_needs_fixup
        flag_flash_fixup_done do_fixup in
    if (ehdr == null) || (length flash_list == 0)
    then record { ret = negsuc 0; memory = m; flash = flash_list; mem = mem_list }
    else if is_nonzero one.ret
    then record { ret = one.ret; memory = one.memory; flash = one.sections; mem = mem_list }
    else record { ret = two.ret; memory = two.memory; flash = one.sections; mem = two.sections }

unfoldable pub uld_rofixup_apply_mem_fixups : Mem → Section → ℕ → ℕ → List Section → ℕ → FixupResult
uld_rofixup_apply_mem_fixups m blank ehdr base mem_list membase =
    let got_sec = uld_section_find_in_list_by_name m mem_list (some dot_got) in
    let got_plt_sec = uld_section_find_in_list_by_name m mem_list (some dot_got_plt) in
    if ehdr == null
    then record { ret = negsuc 0; memory = m; sections = mem_list }
    else if length mem_list == 0
    then record { ret = pos 1; memory = m; sections = mem_list }
    else uld_rofixup_apply_fixups m blank ehdr base mem_list flag_mem_needs_fixup
        flag_mem_fixup_done (uld_rofixup_do_mem_fixup got_sec got_plt_sec membase mem_list)
