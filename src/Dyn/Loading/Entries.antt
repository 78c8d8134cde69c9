-- ===== src/Dyn/Loading/Entries.antt =====
-- Each file of a dependency list that is loaded has the entry that it was loaded for.
use uld_fdpic.Common.{
  ℕ, ◌-◌, ◌≡◌, refl, sym, ap, ◌∙◌, arith, inl, inr, true, Option, none, some, List, [], ◌∷◌, ◌==◌,
  map, length, pos, negsuc, is_nonzero, Bool-cases, Option-cases,
}
use uld_fdpic.Mem.{Mem}
use uld_fdpic.Fs.{FsEntry}
use uld_fdpic.File.{UldFile, uld_file_get_sec_count}
use uld_fdpic.Sal.{Section}
use uld_fdpic.Load.{uld_load_create_file, uld_load_get_next_membase, uld_load_alloc_mem_sections}
use uld_fdpic.Load.LoadFile.{load_mem, uld_load_file}
use uld_fdpic.Dyn.Loading.{
  uld_dyn_load_section_type_mask, zero_section, zero_file, load_deps, uld_dyn_load_fse_dep_list,
}

abbrev entry_or : FsEntry → Option UldFile → FsEntry
entry_or e none = e
entry_or e (some u) = u.fse

create_file-entry :
    (m : Mem) (fse : FsEntry) (blank : Section) (snum mask : ℕ)
    → entry_or fse (uld_load_create_file m fse blank snum mask) ≡ fse
unfolding uld_load_create_file
create_file-entry m fse blank snum mask = elim (Bool-cases (snum == 0)) [
  | inl no_room ↦ rw (uld_load_create_file, no_room) refl
  | inr room ↦ rw (uld_load_create_file, room) refl
]

load_mem-entry :
    (m : Mem) (u : UldFile) (unset : Section) (ehdr mb allocated : ℕ)
    → (load_mem m u unset ehdr mb allocated).file.fse ≡ u.fse
unfolding load_mem
load_mem-entry m u unset ehdr mb allocated =
    elim (Bool-cases (is_nonzero (uld_load_alloc_mem_sections m ehdr mb allocated u.mem).ret)) [
      | inl failed ↦ rw (load_mem, failed) refl
      | inr fine ↦ rw (load_mem, fine) refl
    ]

load_file-entry :
    (bss_end : ℕ) (m : Mem) (old : UldFile) (fse : FsEntry) (blank unset : Section)
    (snum mask membase allocated : ℕ)
    → (uld_load_file bss_end m true old fse blank unset snum mask membase allocated).ret ≡ pos 0
    → (uld_load_file bss_end m true old fse blank unset snum mask membase allocated).file.fse ≡ fse
unfolding uld_load_file
load_file-entry bss_end m old fse blank unset snum mask membase allocated e =
    let mb = uld_load_get_next_membase bss_end membase allocated in
    elim (Option-cases (uld_load_create_file m fse blank snum mask)) [
      | inl refused ↦
          let code : (uld_load_file bss_end m true old fse blank unset snum mask membase
                allocated).ret
              ≡ negsuc 0 =
            rw (uld_load_file, refused) refl in
          absurd (ground (arith, code, e))
      | inr (u, created) ↦
          let same : u.fse ≡ fse =
            sym (ap (entry_or fse) created) ∙ create_file-entry m fse blank snum mask in
          elim (Bool-cases (length u.mem == 0)) [
            | inl bare ↦ rw (uld_load_file, created, bare) same
            | inr some_mem ↦
                rw (uld_load_file, created, some_mem)
                  (load_mem-entry m u unset fse.base mb allocated ∙ same)
          ]
    ]

abbrev pub entries : List UldFile → List FsEntry
entries fs = map (λ f. f.fse) fs

module _ (bss_end : ℕ) (none_entry : FsEntry) (unset : Section) where
  load_deps-entries :
      (m : Mem) (left membase allocated : ℕ) (es : List FsEntry)
      → (load_deps bss_end none_entry unset m left membase allocated es).ret ≡ pos 0
      → entries (load_deps bss_end none_entry unset m left membase allocated es).files ≡ es
  unfolding load_deps
  load_deps-entries m left membase allocated [] = λ e. refl
  load_deps-entries m left membase allocated (x ∷ xs) =
      let r =
        uld_load_file bss_end m true (zero_file none_entry) x zero_section unset left
          uld_dyn_load_section_type_mask membase allocated in
      let rest =
        load_deps bss_end none_entry unset r.memory (left - uld_file_get_sec_count r.file) r.membase
          r.allocated xs in
      let ih : rest.ret ≡ pos 0 → entries rest.files ≡ xs =
        load_deps-entries r.memory (left - uld_file_get_sec_count r.file) r.membase r.allocated
          xs in
      elim (Bool-cases (is_nonzero r.ret)) [
        | inl failed ↦ rw (load_deps, failed) (λ e. absurd (ground (arith, failed, e)))
        | inr fine ↦
            let head : r.file.fse ≡ x =
              load_file-entry bss_end m (zero_file none_entry) x zero_section unset left
                uld_dyn_load_section_type_mask membase allocated (ground (arith, fine)) in
            rw (load_deps, fine)
              (λ e. ap (λ y. y ∷ entries rest.files) head ∙ ap (λ l. x ∷ l) (ih e))
      ]

  pub load_fse_dep_list-entries :
      (m : Mem) (es : List FsEntry) (old : List UldFile) (sec_count membase allocated : ℕ)
      → let out =
          uld_dyn_load_fse_dep_list bss_end none_entry unset m true es old
            (pos sec_count)
            membase
            allocated in
        out.ret ≡ pos 0 → entries out.files ≡ es
  unfolding uld_dyn_load_fse_dep_list
  load_fse_dep_list-entries m es old sec_count membase allocated =
      let start = uld_load_get_next_membase bss_end membase 0 in
      let out = load_deps bss_end none_entry unset m sec_count start 0 es in
      elim (Bool-cases (is_nonzero out.ret)) [
        | inl failed ↦
            λ e. absurd (ground (arith, failed, rw (uld_dyn_load_fse_dep_list, failed) at e))
        | inr fine ↦ λ e.
            let zero_ret : out.ret ≡ pos 0 = ground (arith, fine) in
            rw (uld_dyn_load_fse_dep_list, fine) (load_deps-entries m sec_count start 0 es zero_ret)
      ]
