-- ===== src/Dyn/Deps.antt =====
-- The dependency list of src/uld_dyn.c: the files that a file needs, each behind its own needs.
pub mod Order
pub mod Exact
pub mod Needs
pub mod Cycle
use uld_fdpic.Common.{
  ℕ, zero, suc, ◌+◌, ◌*◌, ◌^◌, Bool, true, false, ◌||◌, Option, none, some, List, [], ◌∷◌, ◌++◌,
  ◌==◌, if◌then◌else◌, length, ℤ, pos, negsuc, is_neg, is_nonzero, int_eq,
}
use uld_fdpic.Mem.{Mem, null, w32, add32, cstr}
use uld_fdpic.Elf.Fields.{e_shstrndx, d_tag, d_val, dt_null, dt_needed}
use uld_fdpic.Elf.{
  elf32_get_section_by_index, elf32_get_section_flash_addr,
  elf32_get_section_by_name_shstrtab_faddr,
}
use uld_fdpic.Sal.{Section}
use uld_fdpic.Fs.{FsEntry, uld_fs_get_file_by_name, uld_fs_get_file_count}
use uld_fdpic.Load.{uld_load_create_section, uld_load_get_sec_count}

-- The code and the two sections.
pub record DepSections : Type 0 where
  pub ret : ℤ
  pub dyn_sec : Section
  pub dynstr_sec : Section

abbrev dot_dynamic : List ℕ
dot_dynamic = 0x2e ∷ 0x64 ∷ 0x79 ∷ 0x6e ∷ 0x61 ∷ 0x6d ∷ 0x69 ∷ 0x63 ∷ []

abbrev dot_dynstr : List ℕ
dot_dynstr = 0x2e ∷ 0x64 ∷ 0x79 ∷ 0x6e ∷ 0x73 ∷ 0x74 ∷ 0x72 ∷ []

module _ (m : Mem) where
  -- `blank` is what the two sections hold before. The code 1 says that there is no ".dynamic".
  unfoldable pub uld_dyn_create_fse_dep_list_get_sections : FsEntry → Section → DepSections
  uld_dyn_create_fse_dep_list_get_sections fse blank =
      let ehdr = fse.base in
      let shstrtab = elf32_get_section_by_index m ehdr null (pos (e_shstrndx m ehdr)) in
      let faddr = elf32_get_section_flash_addr m shstrtab ehdr in
      let dyn = elf32_get_section_by_name_shstrtab_faddr m ehdr null (some dot_dynamic) faddr in
      let made = uld_load_create_section m blank ehdr null dyn (pos 0) faddr in
      let str = elf32_get_section_by_name_shstrtab_faddr m ehdr null (some dot_dynstr) faddr in
      let made_str = uld_load_create_section m blank ehdr null str (pos 0) faddr in
      if dyn == null
      then record { ret = pos 1; dyn_sec = blank; dynstr_sec = blank }
      else if is_nonzero made.0
      then record { ret = made.0; dyn_sec = made.1; dynstr_sec = blank }
      else if str == null
      then record { ret = negsuc 0; dyn_sec = made.1; dynstr_sec = blank }
      else record { ret = made_str.0; dyn_sec = made.1; dynstr_sec = made_str.1 }

  -- `uld_dyn_for_each_dt_needed`: the names in the dynamic table from `dyn` to its DT_NULL.
  unfoldable pub needed_names : ℕ → ℕ → ℕ → List (List ℕ)
  needed_names dynstr zero dyn = []
  needed_names dynstr (suc k) dyn = elim (d_tag m dyn == dt_null) [
    | true ↦ []
    | false ↦ elim (d_tag m dyn == dt_needed) [
      | true ↦ cstr m (add32 dynstr (d_val m dyn)) ∷ needed_names dynstr k (add32 dyn 8)
      | false ↦ needed_names dynstr k (add32 dyn 8)
    ]
  ]

  -- The code of the sections, and the names that the file needs: none without a ".dynamic".
  unfoldable pub requirements : Section → FsEntry → ℤ × List (List ℕ)
  unfolding needed_names
  requirements blank fse =
      let secs = uld_dyn_create_fse_dep_list_get_sections fse blank in
      let names = needed_names secs.dynstr_sec.adjusted_lma w32 secs.dyn_sec.adjusted_lma in
      (secs.ret, (if int_eq secs.ret (pos 1) then [] else names))

abbrev pub in_list : FsEntry → List FsEntry → Bool
in_list fse [] = false
in_list fse (d ∷ ds) = (d.at == fse.at) || in_list fse ds

-- A return code and the list behind `dep_list` and `idx`; `none` is recursion without end.
abbrev pub Deps : Type 0
Deps = Option (ℤ × List FsEntry)

-- `if (ret) return ret;` in front of the rest of the loop.
unfoldable pub after_dep : (List FsEntry → Deps) → Deps → Deps
after_dep rest none = none
after_dep rest (some (pos zero, ds)) = rest ds
after_dep rest (some (r, ds)) = some (r, ds)

-- The file of a needed name, or the result -1.
unfoldable pub after_name :
    (List FsEntry → Deps) → (FsEntry → List FsEntry → Deps) → List FsEntry → Option FsEntry → Deps
after_name rest visit ds none = some (negsuc 0, ds)
after_name rest visit ds (some dep) = after_dep rest (visit dep ds)

module _ (needs : FsEntry → ℤ × List (List ℕ)) (files : List FsEntry) (list_size : ℕ) where
  -- The loop over the needed names, around the recursive call.
  unfoldable pub visit_needed :
      (FsEntry → List FsEntry → Deps) → List (List ℕ) → List FsEntry → Deps
  unfolding after_name after_dep
  visit_needed visit [] ds = some (pos 0, ds)
  visit_needed visit (name ∷ names) ds =
      after_name (visit_needed visit names) visit ds (uld_fs_get_file_by_name files name)

  -- The room check, behind a loop that went well.
  unfoldable pub add_fse : FsEntry → Deps → Deps
  add_fse fse none = none
  add_fse fse (some (pos zero, ds)) =
      if length ds == list_size then some (negsuc 1, ds) else some (pos 0, ds ++ fse ∷ [])
  add_fse fse (some (r, ds)) = some (r, ds)

  unfoldable pub dep_list : ℕ → FsEntry → List FsEntry → Deps
  dep_list zero fse ds = none
  dep_list (suc depth) fse ds =
      let rest = add_fse fse (visit_needed (dep_list depth) (needs fse).1 ds) in
      if in_list fse ds
      then some (pos 0, ds)
      else if is_neg (needs fse).0
      then some ((needs fse).0, ds)
      else rest

-- `depth` bounds the depth of the recursion.
unfoldable pub uld_dyn_create_fse_dep_list :
    Mem → Section → List FsEntry → ℕ → FsEntry → List FsEntry → ℕ → Deps
unfolding dep_list
uld_dyn_create_fse_dep_list m blank files depth fse ds list_size =
    dep_list (requirements m blank) files list_size depth fse ds

-- A NULL file is `none`; the outer `none` is recursion without end.
unfoldable pub uld_dyn_get_fse_dep_count :
    Mem → Section → List FsEntry → ℕ → Option FsEntry → Option ℤ
uld_dyn_get_fse_dep_count m blank files depth none = some (negsuc 0)
uld_dyn_get_fse_dep_count m blank files depth (some fse) =
    elim (uld_dyn_create_fse_dep_list m blank files depth fse [] (uld_fs_get_file_count files)) [
      | none ↦ none
      | some (pos zero, ds) ↦ some (pos (length ds))
      | some (r, ds) ↦ some r
    ]
