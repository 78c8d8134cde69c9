-- ===== src/Dyn/Loading/Areas.antt =====
-- The areas of memory of the files that are loaded.
use mathlib.Core.Path.{subst}
use uld_fdpic.Common.{
  ℕ, ◌+◌, ◌-◌, ◌%◌, ◌<◌, ◌≤◌, ◌≡◌, refl, sym, ◌∙◌, arith, ◌⊎◌, inl, inr, Bool, true, false, List,
  [], ◌∷◌, if◌then◌else◌, All, ℤ, pos, is_nonzero, Bool-cases,
}
use uld_fdpic.Mem.{Mem, w32, add32, sub32}
use uld_fdpic.Fs.{FsEntry}
use uld_fdpic.File.{UldFile, uld_file_get_sec_count}
use uld_fdpic.Sal.{Section}
use uld_fdpic.Load.{uld_load_get_next_membase}
use uld_fdpic.Load.Membase.{next_membase_lem}
use uld_fdpic.Load.LoadFile.{LoadResult, uld_load_file}
use uld_fdpic.Dyn.Loading.{
  uld_dyn_load_section_type_mask, zero_section, zero_file, Loaded, load_deps,
  uld_dyn_load_fse_dep_list,
}
use uld_fdpic.Dyn.Loading.OneFile.{Step, load_file-Step}

nonzero_fine : (z : ℤ) → is_nonzero z ≡ false → z ≡ pos 0
nonzero_fine z e = ground (arith, e)

nonzero_failed : (z : ℤ) → is_nonzero z ≡ true → ¬ (z ≡ pos 0)
nonzero_failed z e eq = ground (arith, e, eq)

-- The files' areas ascend from `lo` on and end at or before `hi`: each begins on a multiple of 8,
-- behind the one before it.
abbrev pub Ascending : ℕ → ℕ → List UldFile → Type 0
Ascending lo hi [] = lo ≤ hi
Ascending lo hi (f ∷ fs) =
    ((f.membase ≡ 0) × (f.memsz ≡ 0) × Ascending lo hi fs)
    ⊎ ((lo ≤ f.membase) × (f.membase % 8 ≡ 0) × Ascending (f.membase + f.memsz) hi fs)

Ascending-from :
    (lo lo' hi : ℕ) (fs : List UldFile) → lo ≡ lo' → Ascending lo hi fs → Ascending lo' hi fs
Ascending-from lo lo' hi fs e h = subst (λ x. Ascending x hi fs) e h

Ascending-to :
    (lo hi hi' : ℕ) (fs : List UldFile) → hi ≡ hi' → Ascending lo hi fs → Ascending lo hi' fs
Ascending-to lo hi hi' fs e h = subst (λ x. Ascending lo x fs) e h

Ascending-le : (lo hi : ℕ) (fs : List UldFile) → Ascending lo hi fs → lo ≤ hi
Ascending-le lo hi [] h = h
Ascending-le lo hi (f ∷ fs) (inl (a, b, h)) = Ascending-le lo hi fs h
Ascending-le lo hi (f ∷ fs) (inr (a, b, h)) =
    omega (arith, a, Ascending-le (f.membase + f.memsz) hi fs h)

module _ (bss_end : ℕ) (none_entry : FsEntry) (unset : Section) (room : bss_end + 16 < w32) where
  abbrev run : Mem → ℕ → ℕ → ℕ → List FsEntry → Loaded
  run m left membase allocated es = load_deps bss_end none_entry unset m left membase allocated es

  -- What holds of the files in a result that is a success and in which no area reaches the end
  -- of the address space.
  abbrev Laid : ℕ → Loaded → Type 0
  Laid lo r =
      r.ret ≡ pos 0
      → All (λ f. f.membase + f.memsz + 8 < w32) r.files
      → Ascending lo (r.membase + r.allocated) r.files × (r.membase + r.allocated + 8 < w32)

  abbrev first : Mem → ℕ → ℕ → ℕ → FsEntry → LoadResult
  first m left membase allocated e =
      uld_load_file bss_end m true (zero_file none_entry) e zero_section unset left
        uld_dyn_load_section_type_mask membase allocated

  -- The loop behind its first file.
  abbrev behind : LoadResult → ℕ → List FsEntry → Loaded
  behind r left es =
      let rest = run r.memory (left - uld_file_get_sec_count r.file) r.membase r.allocated es in
      record rest { files = r.file ∷ rest.files }

  load_deps_failed :
      (m : Mem) (left membase allocated : ℕ) (e : FsEntry) (es : List FsEntry)
      → is_nonzero (first m left membase allocated e).ret ≡ true
      → (run m left membase allocated (e ∷ es)).ret ≡ (first m left membase allocated e).ret
  unfolding load_deps
  load_deps_failed m left membase allocated e es failed = rw (load_deps, failed) refl

  load_deps_fine :
      (m : Mem) (left membase allocated : ℕ) (e : FsEntry) (es : List FsEntry)
      → is_nonzero (first m left membase allocated e).ret ≡ false
      → run m left membase allocated (e ∷ es) ≡ behind (first m left membase allocated e) left es
  unfolding load_deps
  load_deps_fine m left membase allocated e es fine = rw (load_deps, fine) refl

  behind-Ascending :
      (membase allocated : ℕ)
      → bss_end ≤ membase
      → membase + allocated + 8 < w32
      → (r : LoadResult) (left : ℕ) (es : List FsEntry)
      → (bss_end ≤ r.membase
          → r.membase + r.allocated + 8 < w32
          → Laid
              (r.membase + r.allocated)
              (run r.memory (left - uld_file_get_sec_count r.file) r.membase r.allocated es))
      → Step bss_end membase allocated r
      → Laid (membase + allocated) (behind r left es)
  behind-Ascending membase allocated above low r left es ih (inl (base, size, none_base, none_size))
        done fits =
      let after = run r.memory (left - uld_file_get_sec_count r.file) r.membase r.allocated es in
      let rest = ih (omega (arith, base, above)) (omega (arith, base, size, low)) done fits.1 in
      let same : r.membase + r.allocated ≡ membase + allocated = omega (arith, base, size) in
      (
        inl (
          none_base,
          none_size,
          Ascending-from _ _ (after.membase + after.allocated) after.files same rest.0,
        ),
        rest.1,
      )
  behind-Ascending membase allocated above low r left es ih (inr (base, file_base, file_size)) done
        fits =
      let next = next_membase_lem bss_end membase allocated (omega (arith, room)) low in
      let after = run r.memory (left - uld_file_get_sec_count r.file) r.membase r.allocated es in
      let rest =
        ih (omega (arith, base, next.1)) (omega (arith, file_base, file_size, fits.0)) done
          fits.1 in
      let same : r.membase + r.allocated ≡ r.file.membase + r.file.memsz =
        omega (arith, file_base, file_size) in
      (
        inr (
          ground (arith, base, file_base, next.2, above),
          subst (λ x. x % 8 ≡ 0) (sym (file_base ∙ base)) next.0,
          Ascending-from _ _ (after.membase + after.allocated) after.files same rest.0,
        ),
        rest.1,
      )

  load_deps-Ascending :
      (m : Mem) (left membase allocated : ℕ) (es : List FsEntry)
      → bss_end ≤ membase
      → membase + allocated + 8 < w32
      → Laid (membase + allocated) (run m left membase allocated es)
  load_deps-Ascending m left membase allocated [] above low =
      unfold load_deps in λ done fits. (omega arith, low)
  load_deps-Ascending m left membase allocated (e ∷ es) above low =
      let r = first m left membase allocated e in
      elim (Bool-cases (is_nonzero r.ret))
        as (λ x. Laid (membase + allocated) (run m left membase allocated (e ∷ es))) [
          | inl failed ↦ λ done fits. absurd (
              nonzero_failed r.ret failed
                (sym (load_deps_failed m left membase allocated e es failed) ∙ done))
          | inr fine ↦
              subst (Laid (membase + allocated))
                (sym (load_deps_fine m left membase allocated e es fine))
                (λ done fits.
                  behind-Ascending membase allocated above low r left es
                    (λ above' low'.
                      load_deps-Ascending r.memory (left - uld_file_get_sec_count r.file) r.membase
                        r.allocated es above' low')
                    (load_file-Step bss_end m (zero_file none_entry) e zero_section unset left
                      uld_dyn_load_section_type_mask membase allocated (nonzero_fine r.ret fine))
                    done fits)
        ]

  abbrev Reported : Loaded → Type 0
  Reported r =
      r.ret ≡ pos 0
      → All (λ f. f.membase + f.memsz + 8 < w32) r.files
      → Ascending r.membase (r.membase + r.allocated) r.files

  -- The end of the function, where the size is set.
  finish-Reported :
      (b : Bool) (out : Loaded) (start allocated : ℕ)
      → is_nonzero out.ret ≡ b
      → Laid (start + 0) out
      → Reported (
          if b then record out { membase = start; allocated = allocated } else record out {
            membase = start;
            allocated = add32 (sub32 out.membase start) out.allocated;
          })
  finish-Reported true out start allocated e laid done fits = absurd (nonzero_failed out.ret e done)
  finish-Reported false out start allocated e laid done fits =
      let (areas, low) = laid done fits in
      let le = Ascending-le (start + 0) (out.membase + out.allocated) out.files areas in
      let end : out.membase + out.allocated
          ≡ start + add32 (sub32 out.membase start) out.allocated =
        omega (arith, le, low) in
      Ascending-to _ _ _ out.files end
        (Ascending-from (start + 0) start _ out.files (omega arith) areas)

  -- When `uld_dyn_load_fse_dep_list` returns 0, the areas of the files lie one behind the other
  -- in the area that it reports, each from a multiple of 8 on: no two share a byte, by the sizes
  -- that are counted for them. No area comes within 8 bytes of the end of the address space, and
  -- neither the loader's data nor the given base within 16.
  pub load_fse_dep_list-Ascending :
      (m : Mem) (deps : List FsEntry) (old : List UldFile) (sec_count membase allocated : ℕ)
      → membase + 16 < w32
      → let r =
          uld_dyn_load_fse_dep_list bss_end none_entry unset m true deps old
            (pos sec_count)
            membase
            allocated in
        r.ret ≡ pos 0
        → All (λ f. f.membase + f.memsz + 8 < w32) r.files
        → Ascending r.membase (r.membase + r.allocated) r.files
  unfolding uld_dyn_load_fse_dep_list
  load_fse_dep_list-Ascending m deps old sec_count membase allocated low =
      let start = uld_load_get_next_membase bss_end membase 0 in
      let next = next_membase_lem bss_end membase 0 (omega (arith, room)) (omega (arith, low)) in
      let out = run m sec_count start 0 deps in
      finish-Reported (is_nonzero out.ret) out start allocated refl
        (load_deps-Ascending m sec_count start 0 deps next.1 (ground (arith, next.2, room, low)))
