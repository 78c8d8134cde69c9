-- ===== src/Dyn/Resolve/Checked.antt =====
-- What the test of a symbol's type in src/uld_dyn.c may report.
use uld_fdpic.Common.{
  ℕ, zero, suc, ◌≡◌, refl, arith, inl, inr, Bool, true, false, ◌&&◌, ◌||◌, Option, none, some, List,
  ◌==◌, if◌then◌else◌, ℤ, pos, negsuc, Option-cases,
}
use uld_fdpic.Mem.{Mem, add32, read32}
use uld_fdpic.Elf.Fields.{
  r_type, r_offset, st_shndx, st_type, stt_object, stt_func, stt_section, r_arm_abs32,
  r_arm_glob_dat, r_arm_funcdesc, r_arm_funcdesc_value,
}
use uld_fdpic.Sal.{flag_type_all}
use uld_fdpic.File.{UldFile, uld_file_get_sec_by_index, uld_file_lma_to_adjusted_vma}
use uld_fdpic.Dyn.Resolve.{Resolution, check_type}
use uld_fdpic.Dyn.Resolve.Provided.{BySection}

module _ (m : Mem) (files : List UldFile) (rel rel_sym : ℕ) (name : List ℕ) (top rd_idx : ℕ) where
  -- What the type test may report.
  abbrev pub Reported : UldFile → ℕ → ℕ → Option (ℤ × Resolution) → Type 0
  Reported f i s none = Unit
  Reported f i s (some (pos zero, r)) = BySection m files rel rel_sym name top rd_idx f i s r
  Reported f i s (some (pos (suc n), r)) = Unit
  Reported f i s (some (negsuc n, r)) = Unit

  if-Reported :
      (f : UldFile) (i s : ℕ) (b : Bool) (x y : Option (ℤ × Resolution))
      → (b ≡ true → Reported f i s x)
      → Reported f i s y
      → Reported f i s (if b then x else y)
  if-Reported f i s true x y h k = h refl
  if-Reported f i s false x y h k = k

  pub check_type-Reported :
      (f : UldFile) (i s : ℕ) (res : Resolution) → Reported f i s (check_type m f i rel s res)
  unfolding check_type
  check_type-Reported f i s res =
      let type = r_type m rel in
      let sym_type = st_type m s in
      if-Reported f i s (type == r_arm_abs32) none _ (λ e. tt)
        (if-Reported f i s (type == r_arm_glob_dat) _ _
          (λ e. if-Reported f i s (sym_type == stt_object) none (some (negsuc 0, res)) (λ e. tt) tt)
          (if-Reported f i s ((type == r_arm_funcdesc) || (type == r_arm_funcdesc_value)) _ none
            (λ e.
              if-Reported f i s ((sym_type == stt_section) && (type == r_arm_funcdesc_value)) _ _
                (λ d. section (ground arith) (ground arith))
                (if-Reported f i s (sym_type == stt_func) none (some (negsuc 0, res)) (λ e. tt) tt))
            tt))
    where
      section :
          st_type m s ≡ stt_section
          → r_type m rel ≡ r_arm_funcdesc_value
          → Reported f i s (
              some
                (elim (uld_file_get_sec_by_index m (some f) (pos (st_shndx m s)) flag_type_all)
                  as (λ x. ℤ × Resolution) [
                    | none ↦ (negsuc 0, res)
                    | some sec ↦ (
                      pos 0,
                      record res {
                        ptr =
                            add32
                              (read32 m (uld_file_lma_to_adjusted_vma m f (r_offset m rel)))
                              sec.lma;
                        membase = f.membase;
                        file_idx = i;
                      },
                    )
                  ]))
      section is_section is_value =
          elim (Option-cases
            (uld_file_get_sec_by_index m (some f) (pos (st_shndx m s)) flag_type_all)) [
              | inl missing ↦ rw missing tt
              | inr (sec, there) ↦ rw there (is_section, is_value, (sec, there, refl), refl, refl)
            ]
