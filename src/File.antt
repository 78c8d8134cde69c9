-- ===== src/File.antt =====
-- src/uld_file.c and include/uld_file.h: a loaded file and the sections kept for it.
pub mod Translate
pub mod CopySec
use uld_fdpic.Common.{
  ℕ, ◌+◌, Bool, true, false, not, ◌&&◌, Option, none, some, List, [], ◌∷◌, ◌==◌, if◌then◌else◌,
  length, bytes_eq, ℤ, pos, negsuc, int_eq, bit_and,
}
use uld_fdpic.Mem.{Mem, null, cstr}
use uld_fdpic.Fs.{FsEntry}
use uld_fdpic.Sal.{
  Section, flag_type_mask, flag_type_flash, flag_type_mem, flag_type_other,
  uld_section_find_in_lists_by_lma, uld_section_lma_to_adjusted_ma,
}

-- struct uld_file: `sec` and `num` are the three lists and their lengths.
pub record UldFile : Type 0 where
  pub fse : FsEntry
  pub flash : List Section
  pub mem : List Section
  pub other : List Section
  pub adjusted_entry : ℕ
  pub membase : ℕ
  pub memsz : ℕ
  pub flags : ℕ

unfoldable pub uld_file_get_sec_count : UldFile → ℕ
uld_file_get_sec_count f = length f.flash + length f.mem + length f.other

-- ULD_FILE_SECTION_IDX_*.
unfoldable pub uld_file_sec_type_to_idx : ℕ → ℤ
uld_file_sec_type_to_idx type =
    let t = bit_and type flag_type_mask in
    if t == flag_type_flash
    then pos 0
    else if t == flag_type_mem
    then pos 1
    else if t == flag_type_other
    then pos 2
    else negsuc 0

unfoldable pub find_by : (Section → Bool) → List Section → Option Section
find_by test [] = none
find_by test (s ∷ ss) = if test s then some s else find_by test ss

-- The first hit in a list whose type the mask has, or what follows.
abbrev or_else : Option Section → Option Section → Option Section
or_else none r = r
or_else (some s) r = some s

abbrev under : Bool → Option Section → Option Section
under true r = r
under false r = none

-- The two loops over the section types and the sections of each.
unfoldable pub find_typed : (Section → Bool) → UldFile → ℕ → Option Section
unfolding find_by
find_typed test f type_mask =
    or_else (under (not (bit_and type_mask flag_type_flash == 0)) (find_by test f.flash)) (
      or_else (under (not (bit_and type_mask flag_type_mem == 0)) (find_by test f.mem))
        (under (not (bit_and type_mask flag_type_other == 0)) (find_by test f.other)))

module _ (m : Mem) where
  -- A NULL file is `none`.
  unfoldable pub uld_file_get_sec_by_index : Option UldFile → ℤ → ℕ → Option Section
  uld_file_get_sec_by_index none index type_mask = none
  uld_file_get_sec_by_index (some f) (negsuc _) type_mask = none
  uld_file_get_sec_by_index (some f) (pos i) type_mask =
      find_typed (λ s. int_eq s.shidx (pos i)) f type_mask

  -- A NULL file or name is `none`.
  unfoldable pub uld_file_get_sec_by_name : Option UldFile → Option (List ℕ) → ℕ → Option Section
  uld_file_get_sec_by_name none name type_mask = none
  uld_file_get_sec_by_name (some f) none type_mask = none
  uld_file_get_sec_by_name (some f) (some name) type_mask =
      find_typed (λ s. bytes_eq (cstr m s.name) name) f type_mask

  unfoldable pub uld_file_lma_to_adjusted_ma : UldFile → ℕ → Bool → ℕ
  uld_file_lma_to_adjusted_ma f lma to_adj_lma =
      elim (uld_section_find_in_lists_by_lma m (f.flash ∷ f.mem ∷ f.other ∷ []) lma) [
        | none ↦ null
        | some s ↦ uld_section_lma_to_adjusted_ma m (some s) lma to_adj_lma
      ]

  unfoldable pub uld_file_lma_to_adjusted_lma : UldFile → ℕ → ℕ
  uld_file_lma_to_adjusted_lma f lma = uld_file_lma_to_adjusted_ma f lma true

  unfoldable pub uld_file_lma_to_adjusted_vma : UldFile → ℕ → ℕ
  uld_file_lma_to_adjusted_vma f lma = uld_file_lma_to_adjusted_ma f lma false
