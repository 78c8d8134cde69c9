-- ===== src/Dyn/Resolve.antt =====
-- The resolution of one relocation in src/uld_dyn.c: which symbol or earlier relocation provides
-- the value. Files are searched from the relocation's own down to the first. Where the code
-- dereferences a section pointer that its caller has checked, a missing section counts as NULL.
pub mod Provided
pub mod Checked
pub mod Sound
use uld_fdpic.Common.{
  ℕ, zero, suc, ◌+◌, ◌-◌, ◌*◌, ◌/◌, Bool, true, false, not, ◌&&◌, ◌||◌, Option, none, some, List,
  [], ◌∷◌, ◌==◌, if◌then◌else◌, get_elem?, ℤ, pos, negsuc,
}
use uld_fdpic.Mem.{Mem, null, add32, cstr, read32}
use uld_fdpic.Elf.Fields.{
  r_sym, r_type, r_offset, st_info, st_value, st_shndx, st_type, sh_size,
  elf32_sym_has_section_index, stt_object, stt_func, stt_section, r_arm_abs32, r_arm_glob_dat,
  r_arm_funcdesc, r_arm_funcdesc_value,
}
use uld_fdpic.Sal.{
  Section, flag_type_flash, flag_type_all, uld_section_find_in_list_by_lma,
  uld_section_lma_to_adjusted_vma,
}
use uld_fdpic.File.{
  UldFile, uld_file_get_sec_by_index, uld_file_get_sec_by_name, uld_file_lma_to_adjusted_vma,
}
use uld_fdpic.Dyn.Symbols.{
  sym_at, sym_name, uld_dyn_get_sym_index, uld_dyn_find_dynsym_elf_hash_sec, sec_hash, sec_dynstr,
  sec_dynsym,
}

-- `struct uld_dyn_resolution`.
pub record Resolution : Type 0 where
  pub ptr : ℕ
  pub membase : ℕ
  pub match_sym : ℕ
  pub file_idx : ℕ

-- A `return` with its code, or the way on to the next file.
pub data Step : Type 0 where
  returned : ℤ → Resolution → Step
  onward : Resolution → Step

abbrev pub sec_base : Option Section → ℕ
sec_base none = null
sec_base (some s) = s.adjusted_lma

-- `uld_dyn_get_rel_dyn_by_index_sec`.
abbrev pub rel_at : ℕ → ℕ → ℕ
rel_at rel_dyn idx = add32 rel_dyn (8 * idx)

abbrev pub finish : Resolution → ℤ × Resolution
finish res = (if res.ptr == null then negsuc 0 else pos 0, res)

abbrev pub after_file : (Resolution → ℤ × Resolution) → Step → ℤ × Resolution
after_file rest (returned ret res) = (ret, res)
after_file rest (onward res) = rest res

module _ (m : Mem) where
  abbrev pub sec_rel_dyn : UldFile → Option Section
  sec_rel_dyn f =
      uld_file_get_sec_by_name m (some f)
        (some (0x2e ∷ 0x72 ∷ 0x65 ∷ 0x6c ∷ 0x2e ∷ 0x64 ∷ 0x79 ∷ 0x6e ∷ [])) flag_type_flash

  -- `uld_dyn_get_rel_dyn_count_sec`.
  abbrev pub rel_count : Option Section → ℕ
  rel_count none = 0
  rel_count (some s) = sh_size m s.shdr / 8

  -- The test of the matching symbol's type: `none` lets the search go on.
  unfoldable pub check_type : UldFile → ℕ → ℕ → ℕ → Resolution → Option (ℤ × Resolution)
  check_type f i rel sym res =
      let type = r_type m rel in
      let sym_type = st_type m sym in
      let section =
        elim (uld_file_get_sec_by_index m (some f) (pos (st_shndx m sym)) flag_type_all)
          as (λ x. ℤ × Resolution) [
            | none ↦ (negsuc 0, res)
            | some s ↦ (
              pos 0,
              record res {
                ptr = add32 (read32 m (uld_file_lma_to_adjusted_vma m f (r_offset m rel))) s.lma;
                membase = f.membase;
                file_idx = i;
              },
            )
          ] in
      if type == r_arm_abs32
      then none
      else if type == r_arm_glob_dat
      then (if sym_type == stt_object then none else some (negsuc 0, res))
      else if (type == r_arm_funcdesc) || (type == r_arm_funcdesc_value)
      then (if (sym_type == stt_section) && (type == r_arm_funcdesc_value)
          then some section
          else if sym_type == stt_func
          then none
          else some (negsuc 0, res))
      else none

  -- What the symbol itself provides.
  unfoldable pub note_symbol : UldFile → ℕ → ℕ → ℕ → Resolution → Resolution
  note_symbol f i rel sym res =
      if elf32_sym_has_section_index m sym
      then record res { membase = f.membase; ptr = st_value m sym; file_idx = i }
      else if r_type m rel == r_arm_glob_dat
      then record res { file_idx = i; match_sym = sym }
      else res

  -- The `continue` tests of the walk over a file's relocations.
  unfoldable pub skips : ℕ → ℕ → ℕ → ℕ → ℕ → Bool
  skips rel rel_sym sym sym_idx search_rel =
      not (r_sym m search_rel == sym_idx)
      || (sym == rel_sym)
        && ((r_type m rel == r_arm_funcdesc) && not (r_type m search_rel == r_arm_funcdesc_value)
            || (r_type m rel == r_arm_funcdesc_value) && (r_type m search_rel == r_arm_funcdesc))

  -- The resolution by another relocation. One of a type not expected leaves `ptr`, and without a
  -- section in memory the word at NULL is read.
  unfoldable pub take_rel : UldFile → ℕ → ℕ → Resolution → Resolution
  take_rel f i search_rel res =
      let found = uld_section_find_in_list_by_lma m f.mem (r_offset m search_rel) in
      let sec = elim found as (λ x. Option Section) [ none ↦ none | some p ↦ some p.1 ] in
      let adj_vma = uld_section_lma_to_adjusted_vma m sec (r_offset m search_rel) in
      let type = r_type m search_rel in
      let ptr =
        if (type == r_arm_abs32) || (type == r_arm_glob_dat) || (type == r_arm_funcdesc)
        then read32 m adj_vma
        else if type == r_arm_funcdesc_value
        then adj_vma
        else res.ptr in
      record res { membase = null; file_idx = i; ptr = ptr }

  -- The walk from index `rd` - 1 down.
  unfoldable pub find_rel : UldFile → ℕ → ℕ → ℕ → ℕ → ℕ → Resolution → Option Resolution
  find_rel f i rel rel_sym sym zero res = none
  find_rel f i rel rel_sym sym (suc rd) res =
      let search_rel = rel_at (sec_base (sec_rel_dyn f)) rd in
      elim (skips rel rel_sym sym (uld_dyn_get_sym_index m (sec_base (sec_dynsym m f)) sym)
        search_rel) [
          | true ↦ find_rel f i rel rel_sym sym rd res
          | false ↦ some (take_rel f i search_rel res)
        ]

  -- A negative `rd_idx` is `none`: then the whole file is searched.
  unfoldable pub matching : UldFile → List ℕ → ℕ → Option ℕ → Option ℕ
  matching f name rel_sym (some rd) = some rel_sym
  matching f name rel_sym none =
      let sym =
        uld_dyn_find_dynsym_elf_hash_sec m (some name) (sec_hash m f) (sec_dynstr m f)
          (sec_dynsym m f) in
      if sym == null then none else some sym

  abbrev pub first_rd : UldFile → Option ℕ → ℕ
  first_rd f none = rel_count (sec_rel_dyn f)
  first_rd f (some rd) = rd

  -- One file, whose matching symbol is `sym`.
  unfoldable pub try_file : UldFile → ℕ → ℕ → ℕ → ℕ → Option ℕ → Resolution → Step
  try_file f i rel rel_sym sym rd res =
      let noted = note_symbol f i rel sym res in
      elim (check_type f i rel sym res) [
        | some out ↦ returned out.0 out.1
        | none ↦ elim (elf32_sym_has_section_index m sym && not (r_type m rel == r_arm_funcdesc)) [
          | true ↦ returned (pos 0) noted
          | false ↦ elim (find_rel f i rel rel_sym sym (first_rd f rd) noted) [
            | none ↦ onward noted
            | some found ↦ returned (pos 0) found
          ]
        ]
      ]

  -- The files below index `i`, from the last one down.
  unfoldable pub search_files :
      List UldFile → ℕ → ℕ → List ℕ → ℕ → Option ℕ → Resolution → ℤ × Resolution
  search_files files rel rel_sym name zero rd res = finish res
  search_files files rel rel_sym name (suc i) rd res = elim (get_elem? files i) [
    | none ↦ finish res
    | some f ↦ elim (matching f name rel_sym rd) [
      | none ↦ search_files files rel rel_sym name i none res
      | some sym ↦
          after_file (λ r. search_files files rel rel_sym name i none r)
            (try_file f i rel rel_sym sym rd res)
    ]
  ]

  unfoldable pub uld_dyn_resolve_rel : List UldFile → ℕ → ℕ → ℕ → Resolution → ℤ × Resolution
  uld_dyn_resolve_rel files rel file_idx rd_idx res = elim (get_elem? files file_idx) [
    | none ↦ (negsuc 0, res)
    | some f ↦
        let rel_sym = sym_at (sec_base (sec_dynsym m f)) (r_sym m rel) in
        let name = sym_name m (sec_base (sec_dynstr m f)) rel_sym in
        search_files files rel rel_sym name (suc file_idx)
          (if r_type m rel == r_arm_funcdesc then none else some rd_idx) (record res { ptr = null })
  ]
