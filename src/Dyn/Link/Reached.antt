-- ===== src/Dyn/Link/Reached.antt =====
-- The states that linking goes through, and what it may change.
use uld_fdpic.Common.{ℕ, ◌≡◌, refl, ap, ◌⊎◌, inl, inr, true, List, ◌==◌, ℤ, is_zero, Bool-cases}
use uld_fdpic.Mem.{Mem, add32}
use uld_fdpic.Libc.Copy.{inside}
use uld_fdpic.Elf.Fields.{
  r_type, st_size, r_arm_abs32, r_arm_relative, r_arm_glob_dat, r_arm_funcdesc,
  r_arm_funcdesc_value,
}
use uld_fdpic.File.{UldFile}
use uld_fdpic.Dyn.Resolve.{uld_dyn_resolve_rel}
use uld_fdpic.Dyn.Link.Touched.{
  InWord, There, update_relative-cases, write_reso_abs32-cases, write_reso_funcdesc_value-cases,
  write_reso_glob_dat-cases, write_reso_funcdesc-cases,
}
use uld_fdpic.Dyn.Link.{Linker, rel_dst, if_resolved, link_rel}

module _ (files : List UldFile) where
  -- The byte at `a` belongs to what the relocation `rel` of the file `f` may write: its place, the
  -- second word of a descriptor there, or the object or the descriptor that is next in the pool.
  pub data Touches (i : ℕ) (f : UldFile) (rel rd : ℕ) (st : Linker) (a : ℕ) : Type 0 where
    place : InWord (rel_dst st.memory f rel) a → Touches i f rel rd st a
    second :
        (r_type st.memory rel == r_arm_funcdesc_value) ≡ true
        → InWord (add32 (rel_dst st.memory f rel) 4) a
        → Touches i f rel rd st a
    object :
        (r_type st.memory rel == r_arm_glob_dat) ≡ true
        → inside st.dl_alloc_base
            (st_size st.memory (uld_dyn_resolve_rel st.memory files rel i rd st.res).1.match_sym)
            a
          ≡ true
        → Touches i f rel rd st a
    descriptor :
        (r_type st.memory rel == r_arm_funcdesc) ≡ true
        → InWord (add32 st.dl_alloc_base 4) a ⊎ InWord st.dl_alloc_base a
        → Touches i f rel rd st a

  -- Unchanged, or written by a relocation with a place in memory.
  abbrev pub Changes : ℕ → UldFile → ℕ → ℕ → Linker → Linker → ℕ → Type 0
  Changes i f rel rd st after a =
      (after.memory a ≡ st.memory a) ⊎ (There files f rel st.memory × Touches i f rel rd st a)

  if_resolved-Changes :
      (i : ℕ) (f : UldFile) (rel rd a : ℕ) (ret : ℤ) (st kept written : Linker)
      → kept.memory ≡ st.memory
      → Changes i f rel rd st written a
      → Changes i f rel rd st (if_resolved ret kept written).1 a
  if_resolved-Changes i f rel rd a ret st kept written e h = elim (Bool-cases (is_zero ret)) [
    | inl fine ↦ rw fine h
    | inr failed ↦ rw failed (inl (ap (λ (m : Mem). m a) e))
  ]

  pub link_rel-Changes :
      (i : ℕ) (f : UldFile) (rel rd : ℕ) (st : Linker) (a : ℕ)
      → Changes i f rel rd st (link_rel files i f rel rd st).1 a
  unfolding link_rel
  link_rel-Changes i f rel rd st a =
      let m = st.memory in
      let r = uld_dyn_resolve_rel m files rel i rd st.res in
      let kept = record st { res = r.1 } in
      let type = r_type m rel in
      elim (Bool-cases (type == r_arm_abs32)) [
        | inl abs ↦
            rw (link_rel, abs)
              (if_resolved-Changes i f rel rd a r.0 st kept _ refl
                (elim (write_reso_abs32-cases files f rel m r.1 a) [
                  | inl same ↦ inl same
                  | inr (there, word) ↦ inr (there, place word)
                ]))
        | inr abs ↦ elim (Bool-cases (type == r_arm_relative)) [
          | inl relative ↦
              rw (link_rel, abs, relative)
                (elim (update_relative-cases files f rel m a) [
                  | inl same ↦ inl same
                  | inr (there, word) ↦ inr (there, place word)
                ])
          | inr relative ↦ elim (Bool-cases (type == r_arm_glob_dat)) [
            | inl glob ↦
                rw (link_rel, abs, relative, glob)
                  (elim (write_reso_glob_dat-cases files f rel kept a) [
                    | inl same ↦ inl same
                    | inr (there, inl word) ↦ inr (there, place word)
                    | inr (there, inr part) ↦ inr (there, object glob part)
                  ])
            | inr glob ↦ elim (Bool-cases (type == r_arm_funcdesc)) [
              | inl desc ↦
                  rw (link_rel, abs, relative, glob, desc)
                    (if_resolved-Changes i f rel rd a r.0 st kept _ refl
                      (elim (write_reso_funcdesc-cases files f rel kept a) [
                        | inl same ↦ inl same
                        | inr (there, inl word) ↦ inr (there, place word)
                        | inr (there, inr part) ↦ inr (there, descriptor desc part)
                      ]))
              | inr desc ↦ elim (Bool-cases (type == r_arm_funcdesc_value)) [
                | inl value ↦
                    rw (link_rel, abs, relative, glob, desc, value)
                      (if_resolved-Changes i f rel rd a r.0 st kept _ refl
                        (elim (write_reso_funcdesc_value-cases files f rel m r.1 a) [
                          | inl same ↦ inl same
                          | inr (there, inl word) ↦ inr (there, second value word)
                          | inr (there, inr word) ↦ inr (there, place word)
                        ]))
                | inr value ↦ rw (link_rel, abs, relative, glob, desc, value) (inl refl)
              ]
            ]
          ]
        ]
      ]
