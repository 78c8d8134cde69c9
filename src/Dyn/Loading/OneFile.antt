-- ===== src/Dyn/Loading/OneFile.antt =====
-- The area of one file that `uld_load_file` loads.
use mathlib.Core.Path.{subst}
use uld_fdpic.Common.{
  ℕ, ◌≡◌, refl, sym, ap, ◌∙◌, arith, ◌⊎◌, inl, inr, true, Option, none, some, ◌==◌, length, ℤ, pos,
  negsuc, is_nonzero, Bool-cases, Option-cases,
}
use uld_fdpic.Mem.{Mem}
use uld_fdpic.Fs.{FsEntry}
use uld_fdpic.File.{UldFile}
use uld_fdpic.Sal.{Section}
use uld_fdpic.Load.{uld_load_create_file, uld_load_get_next_membase, uld_load_alloc_mem_sections}
use uld_fdpic.Load.LoadFile.{LoadResult, load_mem, uld_load_file}

-- A file without memory sections has no area; another's is at the next free base.
abbrev pub Step : ℕ → ℕ → ℕ → LoadResult → Type 0
Step bss_end membase allocated r =
    ((r.membase ≡ membase) × (r.allocated ≡ allocated) × (r.file.membase ≡ 0) × (r.file.memsz ≡ 0))
    ⊎ ((r.membase ≡ uld_load_get_next_membase bss_end membase allocated)
        × (r.file.membase ≡ r.membase)
        × (r.file.memsz ≡ r.allocated))

module _ (m : Mem) (u : UldFile) (unset : Section) (ehdr mb allocated : ℕ) where
  abbrev placed : ℤ
  placed = (uld_load_alloc_mem_sections m ehdr mb allocated u.mem).ret

  load_mem_success :
      (load_mem m u unset ehdr mb allocated).ret ≡ pos 0
      → let r = load_mem m u unset ehdr mb allocated in
        (r.membase ≡ mb) × (r.file.membase ≡ mb) × (r.file.memsz ≡ r.allocated)
  unfolding load_mem
  load_mem_success e = elim (Bool-cases (is_nonzero placed)) [
    | inl failed ↦
        let same : (load_mem m u unset ehdr mb allocated).ret ≡ placed =
          rw (load_mem, failed) refl in
        absurd (ground (arith, failed, same, e))
    | inr fine ↦ rw (load_mem, fine) (refl, refl, refl)
  ]

-- What a new file has in the two fields.
abbrev new_membase : Option UldFile → ℕ
new_membase none = 0
new_membase (some u) = u.membase

abbrev new_memsz : Option UldFile → ℕ
new_memsz none = 0
new_memsz (some u) = u.memsz

create_file_zero :
    (m : Mem) (fse : FsEntry) (blank : Section) (snum mask : ℕ)
    → let u = uld_load_create_file m fse blank snum mask in (new_membase u ≡ 0) × (new_memsz u ≡ 0)
unfolding uld_load_create_file
create_file_zero m fse blank snum mask = elim (Bool-cases (snum == 0)) [
  | inl no_room ↦ rw (uld_load_create_file, no_room) (refl, refl)
  | inr room ↦ rw (uld_load_create_file, room) (refl, refl)
]

module _ (bss_end : ℕ) (m : Mem) (old : UldFile) (fse : FsEntry) (blank unset : Section)
    (snum mask membase allocated : ℕ) where
  abbrev pub one : LoadResult
  one = uld_load_file bss_end m true old fse blank unset snum mask membase allocated

  pub load_file-Step : one.ret ≡ pos 0 → Step bss_end membase allocated one
  unfolding uld_load_file
  load_file-Step e = elim (Option-cases (uld_load_create_file m fse blank snum mask)) [
    | inl refused ↦
        let same : one.ret ≡ negsuc 0 = rw (uld_load_file, refused) refl in
        absurd (ground (arith, same, e))
    | inr (u, created) ↦ elim (Bool-cases (length u.mem == 0)) [
      | inl bare ↦
          let z = create_file_zero m fse blank snum mask in
          rw (uld_load_file, created, bare)
            (inl (refl, refl, ap new_membase (sym created) ∙ z.0, ap new_memsz (sym created) ∙ z.1))
      | inr some_mem ↦
          let eq : one
              ≡ load_mem m u unset fse.base (uld_load_get_next_membase bss_end membase allocated)
                  allocated =
            rw (uld_load_file, created, some_mem) refl in
          let s =
            load_mem_success m u unset fse.base
              (uld_load_get_next_membase bss_end membase allocated) allocated
              (sym (ap (λ r. r.ret) eq) ∙ e) in
          subst (Step bss_end membase allocated) (sym eq) (inr (s.0, s.1 ∙ sym s.0, s.2))
    ]
  ]
