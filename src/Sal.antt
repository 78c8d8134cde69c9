-- ===== src/Sal.antt =====
-- The section part of src/uld_sal.c: section types, the search in a list of sections, and the
-- move of an address to where its section is. `uld_section_find_in_list` returns the position
-- together with the section there, since the callers compare the pointers.
pub mod Find
pub mod FirstMatch
pub mod Adjust
pub mod Names
pub mod Crc
use uld_fdpic.Common.{
  ℕ, zero, suc, ◌+◌, ◌*◌, ◌/◌, ◌%◌, Bool, true, false, not, ◌&&◌, ◌||◌, Option, none, some, List,
  [], ◌∷◌, ◌==◌, ltb, leb, if◌then◌else◌, bytes_eq, ℤ, pos, negsuc, is_neg, bit_and, ◌-◌, length,
}
use uld_fdpic.Mem.{Mem, null, add32, sub32, cstr}
use uld_fdpic.Elf.Fields.{sh_type, sh_addr, sh_size, sht_nobits, is_alloc}

-- struct uld_section.
pub record Section : Type 0 where
  pub ehdr : ℕ
  pub phdr : ℕ
  pub shdr : ℕ
  pub name : ℕ
  pub lma : ℕ
  pub adjusted_lma : ℕ
  pub faddr : ℕ
  pub adjusted_vma : ℕ
  pub flags : ℕ
  pub phidx : ℤ
  pub shidx : ℤ

-- ULD_SECTION_FLAG_*.
abbrev pub flag_none : ℕ
flag_none = 0x00000000

abbrev pub flag_valid : ℕ
flag_valid = 0x00000001

abbrev pub flag_last : ℕ
flag_last = 0x00000002

abbrev pub flag_type_mask : ℕ
flag_type_mask = 0x00000ff0

abbrev pub flag_type_flash : ℕ
flag_type_flash = 0x00000010

abbrev pub flag_type_mem : ℕ
flag_type_mem = 0x00000020

abbrev pub flag_type_other : ℕ
flag_type_other = 0x00000040

abbrev pub flag_type_all : ℕ
flag_type_all = 0x00000070

abbrev pub flag_mem_needs_fixup : ℕ
flag_mem_needs_fixup = 0x00001000

abbrev pub flag_mem_fixup_done : ℕ
flag_mem_fixup_done = 0x00002000

abbrev pub flag_mem_loaded : ℕ
flag_mem_loaded = 0x00004000

abbrev pub flag_flash_needs_fixup : ℕ
flag_flash_needs_fixup = 0x00010000

abbrev pub flag_flash_fixup_done : ℕ
flag_flash_fixup_done = 0x00020000

-- The index counts down from the list's length, and is turned round at the hit.
unfoldable pub find_idx : List (List ℕ) → ℕ → ℕ → List ℕ → ℤ
find_idx [] lnum idx s = negsuc 0
find_idx (l ∷ ls) lnum idx s =
    if bytes_eq l s then pos (lnum - (idx - 1) - 1) else find_idx ls lnum (idx - 1) s

-- `get_str_idx_in_list` and `str_in_list` of src/util.c, over the texts themselves.
unfoldable pub get_str_idx_in_list : List (List ℕ) → List ℕ → ℤ
unfolding find_idx
get_str_idx_in_list l s = find_idx l (length l) (length l) s

unfoldable pub str_in_list : List (List ℕ) → List ℕ → Bool
str_in_list l s = if is_neg (get_str_idx_in_list l s) then false else true

-- ".got", ".got.plt", ".data", ".bss".
abbrev pub dot_got : List ℕ
dot_got = 0x2e ∷ 0x67 ∷ 0x6f ∷ 0x74 ∷ []

abbrev pub dot_got_plt : List ℕ
dot_got_plt = 0x2e ∷ 0x67 ∷ 0x6f ∷ 0x74 ∷ 0x2e ∷ 0x70 ∷ 0x6c ∷ 0x74 ∷ []

abbrev pub dot_data : List ℕ
dot_data = 0x2e ∷ 0x64 ∷ 0x61 ∷ 0x74 ∷ 0x61 ∷ []

abbrev pub dot_bss : List ℕ
dot_bss = 0x2e ∷ 0x62 ∷ 0x73 ∷ 0x73 ∷ []

-- The first three are `ULD_SECTION_MEM_NAME_FIXUP_LIST_COUNT` of the four.
unfoldable pub uld_section_mem_name_list : List (List ℕ)
uld_section_mem_name_list = dot_got ∷ dot_got_plt ∷ dot_data ∷ dot_bss ∷ []

unfoldable pub uld_section_mem_name_fixup_list : List (List ℕ)
uld_section_mem_name_fixup_list = dot_got ∷ dot_got_plt ∷ dot_data ∷ []

unfoldable pub uld_section_is_mem_sec_by_name : List ℕ → Bool
uld_section_is_mem_sec_by_name s = str_in_list uld_section_mem_name_list s

unfoldable pub uld_section_is_mem_sec_fixup_by_name : List ℕ → Bool
uld_section_is_mem_sec_fixup_by_name s = str_in_list uld_section_mem_name_fixup_list s

-- SHT_PROGBITS, SHT_NOBITS and the three arrays are flash; ULD_SECTION_FLAG_TYPE_DYNAMIC of the
-- linking tables is the same flag. Behind the breakpoint an unknown type is other.
abbrev pub is_loaded_type : ℕ → Bool
is_loaded_type t =
    (t == 1)
    || (t == 8)
    || (t == 14)
    || (t == 15)
    || (t == 16)
    || (t == 3)
    || (t == 4)
    || (t == 5)
    || (t == 6)
    || (t == 9)
    || (t == 11)

-- The key that a search compares, and the value searched for: a union of an address and a text,
-- where `none` is a NULL text.
pub data FindVal : Type 0 where
  addr : ℕ → FindVal
  text : Option (List ℕ) → FindVal

-- ULD_SECTION_FIND_TYPE_*.
pub data FindType : Type 0 where
  by_vma by_adj_vma by_lma by_adj_lma by_name : FindType

module _ (m : Mem) where
  unfoldable pub uld_section_get_type : ℕ → List ℕ → ℕ
  uld_section_get_type shdr name =
      if is_alloc m shdr
      then if uld_section_is_mem_sec_by_name name
        then flag_type_mem
        else if is_loaded_type (sh_type m shdr)
        then flag_type_flash
        else flag_type_other
      else flag_type_other

  -- The base address of a section under each address type.
  abbrev pub in_range : ℕ → ℕ → Section → Bool
  in_range a b s = leb b a && ltb a (add32 b (sh_size m s.shdr))

  -- The two switches of the loop's body. A text with an address type, or the other way round,
  -- does not happen: the callers build the union for their type.
  unfoldable pub sec_hit : FindVal → FindType → Section → Bool
  sec_hit (text none) by_name s = false
  sec_hit (text (some t)) by_name s = bytes_eq t (cstr m s.name)
  sec_hit (text t) _ s = false
  sec_hit (addr a) by_vma s = in_range a (sh_addr m s.shdr) s
  sec_hit (addr a) by_adj_vma s = in_range a s.adjusted_vma s
  sec_hit (addr a) by_lma s = in_range a s.lma s
  sec_hit (addr a) by_adj_lma s = in_range a s.adjusted_lma s
  sec_hit (addr a) by_name s = false

  unfoldable pub find_from : ℕ → List Section → FindVal → FindType → ℕ → ℕ → Option (ℕ × Section)
  find_from i [] val type fmask fval = none
  find_from i (s ∷ ss) val type fmask fval =
      if (bit_and s.flags fmask == fval) && sec_hit val type s
      then some (i, s)
      else find_from (i + 1) ss val type fmask fval

  unfoldable pub uld_section_find_in_list :
      List Section → FindVal → FindType → ℕ → ℕ → Option (ℕ × Section)
  uld_section_find_in_list ss val type fmask fval = find_from 0 ss val type fmask fval

  -- The first hit over several lists; the position in its list is not needed.
  unfoldable pub uld_section_find_in_lists :
      List (List Section) → FindVal → FindType → ℕ → ℕ → Option Section
  uld_section_find_in_lists [] val type fmask fval = none
  uld_section_find_in_lists (l ∷ ls) val type fmask fval =
      let rest = uld_section_find_in_lists ls val type fmask fval in
      elim (uld_section_find_in_list l val type fmask fval) [ some (i, s) ↦ some s | none ↦ rest ]

  unfoldable pub uld_section_find_in_list_by_lma_flag :
      List Section → ℕ → ℕ → ℕ → Option (ℕ × Section)
  uld_section_find_in_list_by_lma_flag ss a fmask fval =
      uld_section_find_in_list ss (addr a) by_lma fmask fval

  unfoldable pub uld_section_find_in_list_by_lma : List Section → ℕ → Option (ℕ × Section)
  uld_section_find_in_list_by_lma ss a =
      uld_section_find_in_list ss (addr a) by_lma flag_none flag_none

  unfoldable pub uld_section_find_in_list_by_adj_lma_flag :
      List Section → ℕ → ℕ → ℕ → Option (ℕ × Section)
  uld_section_find_in_list_by_adj_lma_flag ss a fmask fval =
      uld_section_find_in_list ss (addr a) by_adj_lma fmask fval

  unfoldable pub uld_section_find_in_list_by_adj_lma : List Section → ℕ → Option (ℕ × Section)
  uld_section_find_in_list_by_adj_lma ss a =
      uld_section_find_in_list ss (addr a) by_adj_lma flag_none flag_none

  unfoldable pub uld_section_find_in_lists_by_lma : List (List Section) → ℕ → Option Section
  uld_section_find_in_lists_by_lma ls a =
      uld_section_find_in_lists ls (addr a) by_lma flag_none flag_none

  unfoldable pub uld_section_find_in_list_by_name :
      List Section → Option (List ℕ) → Option (ℕ × Section)
  uld_section_find_in_list_by_name ss t =
      uld_section_find_in_list ss (text t) by_name flag_none flag_none

  unfoldable pub uld_section_find_in_lists_by_name :
      List (List Section) → Option (List ℕ) → Option Section
  uld_section_find_in_lists_by_name ls t =
      uld_section_find_in_lists ls (text t) by_name flag_none flag_none

  -- A NULL section is `none`. ULD_SECTION_FLAG_STATUS_MEM_LOADED is bit 14.
  unfoldable pub uld_section_lma_to_adjusted_ma : Option Section → ℕ → Bool → ℕ
  uld_section_lma_to_adjusted_ma none a to_adj_lma = null
  uld_section_lma_to_adjusted_ma (some s) a to_adj_lma =
      if a == null
      then null
      else if ltb a s.lma || leb (add32 s.lma (sh_size m s.shdr)) a
      then null
      else if (sh_type m s.shdr == sht_nobits)
          && (to_adj_lma || (bit_and s.flags flag_mem_loaded == 0))
      then null
      else add32 (sub32 a s.lma) (if to_adj_lma then s.adjusted_lma else s.adjusted_vma)

  unfoldable pub uld_section_lma_to_adjusted_lma : Option Section → ℕ → ℕ
  uld_section_lma_to_adjusted_lma s a = uld_section_lma_to_adjusted_ma s a true

  unfoldable pub uld_section_lma_to_adjusted_vma : Option Section → ℕ → ℕ
  uld_section_lma_to_adjusted_vma s a = uld_section_lma_to_adjusted_ma s a false
