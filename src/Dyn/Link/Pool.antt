-- ===== src/Dyn/Link/Pool.antt =====
-- The pool that the linker allocates from.
use uld_fdpic.Common.{
  ℕ, zero, suc, ◌+◌, ◌^◌, ◌<◌, ◌≡◌, arith, inl, inr, Bool, true, false, not, ◌||◌, some, List, [],
  ◌∷◌, ◌==◌, ltb, if◌then◌else◌, length, ℤ, negsuc, is_zero, is_nonzero, Bool-cases, Option-cases,
}
use uld_fdpic.Mem.{Mem, null, w32, add32}
use uld_fdpic.Elf.Fields.{
  r_type, r_arm_abs32, r_arm_relative, r_arm_glob_dat, r_arm_funcdesc, r_arm_funcdesc_value,
}
use uld_fdpic.Sal.{Section}
use uld_fdpic.File.{UldFile}
use uld_fdpic.Dyn.Symbols.{sec_dynsym, sec_dynstr}
use uld_fdpic.Dyn.Resolve.{Resolution, sec_rel_dyn, rel_at, rel_count, uld_dyn_resolve_rel}
use uld_fdpic.Dyn.Link.{
  Linker, is_missing, uld_dyn_write_reso_glob_dat, uld_dyn_write_reso_funcdesc,
  uld_dyn_write_reso_abs32, uld_dyn_write_reso_funcdesc_value, uld_dyn_update_relative, if_resolved,
  link_rel, after_rel, link_rels, link_file, link_files, uld_dyn_link_file_list,
}

module _ (start : ℕ) where
  -- The size that the linker counts is the distance of the pool's base from its start.
  pub record IsPool (st : Linker) : Type 0 where
    pub base_lt : st.dl_alloc_base < w32
    pub size_lt : st.dla_size < w32
    pub distance : add32 start st.dla_size ≡ st.dl_alloc_base

  write_reso_glob_dat-IsPool :
      (files : List UldFile) (f : UldFile) (rel : ℕ) (st : Linker)
      → IsPool st
      → IsPool (uld_dyn_write_reso_glob_dat files f rel st).1
  unfolding uld_dyn_write_reso_glob_dat
  write_reso_glob_dat-IsPool files f rel st h = record {
    base_lt = ground (arith, h.base_lt);
    size_lt = ground (arith, h.size_lt);
    distance = ground (arith, h.base_lt, h.size_lt, h.distance);
  }

  write_reso_funcdesc-IsPool :
      (files : List UldFile) (f : UldFile) (rel : ℕ) (st : Linker)
      → IsPool st
      → IsPool (uld_dyn_write_reso_funcdesc files f rel st).1
  unfolding uld_dyn_write_reso_funcdesc
  write_reso_funcdesc-IsPool files f rel st h = record {
    base_lt = ground (arith, h.base_lt);
    size_lt = ground (arith, h.size_lt);
    distance = ground (arith, h.base_lt, h.size_lt, h.distance);
  }

  -- The pool is no matter of the memory's bytes or the resolution.
  other_parts-IsPool :
      (st : Linker) (m : Mem) (res : Resolution)
      → IsPool st
      → IsPool (record st { memory = m; res = res })
  other_parts-IsPool st m res h = record {
    base_lt = h.base_lt;
    size_lt = h.size_lt;
    distance = h.distance;
  }

  -- The state behind a code.
  record IsPooled (r : ℤ × Linker) : Type 0 where
    pub state : IsPool r.1

  pooled : (ret : ℤ) (st : Linker) → IsPool st → IsPooled (ret, st)
  pooled ret st h = record { state = h }

  if-IsPooled :
      (b : Bool) (x y : ℤ × Linker) → IsPooled x → IsPooled y → IsPooled (if b then x else y)
  if-IsPooled true x y h k = h
  if-IsPooled false x y h k = k

  if_resolved-IsPooled :
      (ret : ℤ) (st written : Linker)
      → IsPool st
      → IsPool written
      → IsPooled (if_resolved ret st written)
  if_resolved-IsPooled ret st written h k = elim (Bool-cases (is_zero ret)) [
    | inl fine ↦ record { state = rw fine k }
    | inr other ↦ record { state = rw other h }
  ]

  link_rel-IsPooled :
      (files : List UldFile) (i : ℕ) (f : UldFile) (rel rd : ℕ) (st : Linker)
      → IsPool st
      → IsPooled (link_rel files i f rel rd st)
  unfolding link_rel
  link_rel-IsPooled files i f rel rd st h =
      let m = st.memory in
      let r = uld_dyn_resolve_rel m files rel i rd st.res in
      let kept = record st { res = r.1 } in
      let k : IsPool kept = other_parts-IsPool st m r.1 h in
      let abs = uld_dyn_write_reso_abs32 m files f rel r.1 in
      let value = uld_dyn_write_reso_funcdesc_value m files f rel r.1 in
      let moved = uld_dyn_update_relative m f rel in
      let glob = write_reso_glob_dat-IsPool files f rel kept k in
      let desc = write_reso_funcdesc-IsPool files f rel kept k in
      let type = r_type m rel in
      if-IsPooled (type == r_arm_abs32) _ _
        (if_resolved-IsPooled r.0 kept _ k (other_parts-IsPool st abs.1 r.1 h))
        (if-IsPooled (type == r_arm_relative) _ _
          (pooled moved.0 _ (other_parts-IsPool st moved.1 st.res h))
          (if-IsPooled (type == r_arm_glob_dat) (uld_dyn_write_reso_glob_dat files f rel kept) _
            (record { state = glob })
            (if-IsPooled (type == r_arm_funcdesc) _ _ (if_resolved-IsPooled r.0 kept _ k desc) (
              if-IsPooled (type == r_arm_funcdesc_value) _ _
                (if_resolved-IsPooled r.0 kept _ k (other_parts-IsPool st value.1 r.1 h))
                (pooled (negsuc 0) st h)))))

  after_rel-IsPool :
      (rest : Linker → ℤ × Linker) (r : ℤ × Linker)
      → ((s : Linker) → IsPool s → IsPool (rest s).1)
      → IsPool r.1
      → IsPool (after_rel rest r).1
  after_rel-IsPool rest r step h = elim (Bool-cases (is_nonzero r.0)) [
    | inl failed ↦ rw failed h
    | inr fine ↦ rw fine (step r.1 h)
  ]

  link_rels-IsPool :
      (files : List UldFile) (i : ℕ) (f : UldFile) (rel_dyn : Section) (left idx : ℕ) (st : Linker)
      → IsPool st
      → IsPool (link_rels files i f rel_dyn left idx st).1
  unfolding link_rels
  link_rels-IsPool files i f rel_dyn zero idx st h = h
  link_rels-IsPool files i f rel_dyn (suc left) idx st h =
      elim (Bool-cases (ltb idx (rel_count st.memory (some rel_dyn)))) [
        | inl more ↦
            rw (link_rels, more)
              (after_rel-IsPool (λ s. link_rels files i f rel_dyn left (idx + 1) s) _
                (λ s k. link_rels-IsPool files i f rel_dyn left (idx + 1) s k)
                (link_rel-IsPooled files i f (rel_at rel_dyn.adjusted_lma idx) idx st h).state)
        | inr done ↦ rw (link_rels, done) h
      ]

  link_file-IsPool :
      (files : List UldFile) (i : ℕ) (f : UldFile) (st : Linker)
      → IsPool st
      → IsPool (link_file files i f st).1
  unfolding link_file
  link_file-IsPool files i f st h = elim (Option-cases (sec_rel_dyn st.memory f)) [
    | inl none_there ↦ rw (link_file, none_there) h
    | inr (rel_dyn, there) ↦
        rw (link_file, there)
          (if-IsPooled (is_missing (sec_dynsym st.memory f) || is_missing (sec_dynstr st.memory f))
            _ _ (pooled (negsuc 0) st h)
            (record { state = link_rels-IsPool files i f rel_dyn (2 ^ 29) 0 st h })).state
  ]

  link_files-IsPool :
      (files : List UldFile) (i : ℕ) (fs : List UldFile) (st : Linker)
      → IsPool st
      → IsPool (link_files files i fs st).1
  unfolding link_files
  link_files-IsPool files i [] st h = h
  link_files-IsPool files i (f ∷ fs) st h =
      after_rel-IsPool (λ s. link_files files (i + 1) fs s) _
        (λ s k. link_files-IsPool files (i + 1) fs s k) (link_file-IsPool files i f st h)

-- Whatever the outcome of `uld_dyn_link_file_list`, the size that it counts for the pool is the
-- distance, modulo 2 ^ 32, from the pool's start to where the next object would go.
pub link_file_list-IsPool :
    (m : Mem) (files : List UldFile) (start : ℕ) (wants_size : Bool) (res : Resolution)
    → start < w32
    → IsPool start (uld_dyn_link_file_list m files start wants_size res).1
unfolding uld_dyn_link_file_list
link_file_list-IsPool m files start wants_size res lt =
    let st : Linker = record { memory = m; dl_alloc_base = start; dla_size = 0; res = res } in
    let fresh : IsPool start st = record {
      base_lt = lt;
      size_lt = omega arith;
      distance = omega arith;
    } in
    (if-IsPooled start ((length files == 0) || (start == null) || not wants_size) (negsuc 0, st)
      (link_files files 0 files st) (pooled start (negsuc 0) st fresh)
      (record { state = link_files-IsPool start files 0 files st fresh })).state
