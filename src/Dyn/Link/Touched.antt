-- ===== src/Dyn/Link/Touched.antt =====
-- What the write of one relocation may change.
use uld_fdpic.Common.{
  ℕ, ◌+◌, ◌<◌, ◌≤◌, ◌≡◌, refl, ◌∙◌, arith, ◌⊎◌, inl, inr, true, false, List, ◌==◌, ltb, Bool-cases,
}
use uld_fdpic.Mem.{Mem, null, add32, write32}
use uld_fdpic.Mem.Laws.{write32_apart}
use uld_fdpic.Libc.{memset}
use uld_fdpic.Libc.Copy.{inside, memset_lem}
use uld_fdpic.Elf.Fields.{st_size}
use uld_fdpic.File.{UldFile}
use uld_fdpic.Dyn.Resolve.{Resolution}
use uld_fdpic.Dyn.Link.{
  Linker, rel_dst, res_addr, uld_dyn_write_reso_glob_dat, uld_dyn_write_reso_funcdesc,
  uld_dyn_write_reso_abs32, uld_dyn_write_reso_funcdesc_value, uld_dyn_update_relative,
  uld_dyn_write_reso_funcdesc_value_dst,
}

abbrev pub InWord : ℕ → ℕ → Type 0
InWord p a = (p ≤ a) × (a < p + 4)

write32_cases : (m : Mem) (p v a : ℕ) → (write32 m p v a ≡ m a) ⊎ InWord p a
write32_cases m p v a = elim (Bool-cases (ltb a p)) [
  | inl below ↦ inl (write32_apart m p a v (ground (arith, below)))
  | inr from ↦ elim (Bool-cases (ltb a (p + 4))) [
    | inl there ↦ inr (ground (arith, from, there))
    | inr above ↦ inl (write32_apart m p a v (ground (arith, above)))
  ]
]

memset_cases : (m : Mem) (p n a : ℕ) → ((memset m p 0 n).1 a ≡ m a) ⊎ (inside p n a ≡ true)
memset_cases m p n a = elim (Bool-cases (inside p n a)) [
  | inl there ↦ inr there
  | inr away ↦ inl ((memset_lem m p 0 n a).1 ∙ rw away refl)
]

-- Either of two outcomes, one behind the other.
orelse : {x y z : ℕ} {P Q : Type 0} → (x ≡ y) ⊎ P → (y ≡ z) ⊎ Q → (x ≡ z) ⊎ (P ⊎ Q)
orelse (inl e) (inl d) = inl (e ∙ d)
orelse (inl e) (inr q) = inr (inr q)
orelse (inr h) d = inr (inl h)

module _ (files : List UldFile) (f : UldFile) (rel : ℕ) where
  abbrev Missing : Mem → Type 0
  Missing m = (rel_dst m f rel == null) ≡ true

  abbrev pub There : Mem → Type 0
  There m = (rel_dst m f rel == null) ≡ false

  pub update_relative-cases :
      (m : Mem) (a : ℕ)
      → ((uld_dyn_update_relative m f rel).1 a ≡ m a) ⊎ (There m × InWord (rel_dst m f rel) a)
  unfolding uld_dyn_update_relative
  update_relative-cases m a = elim (Bool-cases (rel_dst m f rel == null)) [
    | inl missing ↦ inl (rw missing refl)
    | inr there ↦ elim (write32_cases m (rel_dst m f rel) _ a) [
      | inl same ↦ inl (rw there same)
      | inr word ↦ inr (there, word)
    ]
  ]

  pub write_reso_abs32-cases :
      (m : Mem) (res : Resolution) (a : ℕ)
      → ((uld_dyn_write_reso_abs32 m files f rel res).1 a ≡ m a)
        ⊎ (There m × InWord (rel_dst m f rel) a)
  unfolding uld_dyn_write_reso_abs32
  write_reso_abs32-cases m res a = elim (Bool-cases (rel_dst m f rel == null)) [
    | inl missing ↦ inl (rw missing refl)
    | inr there ↦ elim (write32_cases m (rel_dst m f rel) (res_addr m files res) a) [
      | inl same ↦ inl (rw there same)
      | inr word ↦ inr (there, word)
    ]
  ]

  value_dst-cases :
      (m : Mem) (p : ℕ) (res : Resolution) (a : ℕ)
      → (uld_dyn_write_reso_funcdesc_value_dst m p files res a ≡ m a)
        ⊎ (InWord (add32 p 4) a ⊎ InWord p a)
  unfolding uld_dyn_write_reso_funcdesc_value_dst
  value_dst-cases m p res a = orelse (write32_cases _ (add32 p 4) _ a) (write32_cases m p _ a)

  pub write_reso_funcdesc_value-cases :
      (m : Mem) (res : Resolution) (a : ℕ)
      → ((uld_dyn_write_reso_funcdesc_value m files f rel res).1 a ≡ m a)
        ⊎ (There m × (InWord (add32 (rel_dst m f rel) 4) a ⊎ InWord (rel_dst m f rel) a))
  unfolding uld_dyn_write_reso_funcdesc_value
  write_reso_funcdesc_value-cases m res a = elim (Bool-cases (rel_dst m f rel == null)) [
    | inl missing ↦ inl (rw missing refl)
    | inr there ↦ elim (Bool-cases (res.membase == null)) [
      | inl copied ↦
          elim (orelse (write32_cases _ (add32 (rel_dst m f rel) 4) _ a)
            (write32_cases m (rel_dst m f rel) _ a)) [
              | inl same ↦ inl (rw (there, copied) same)
              | inr word ↦ inr (there, word)
            ]
      | inr made ↦ elim (value_dst-cases m (rel_dst m f rel) res a) [
        | inl same ↦ inl (rw (there, made) same)
        | inr word ↦ inr (there, word)
      ]
    ]
  ]

  pub write_reso_glob_dat-cases :
      (st : Linker) (a : ℕ)
      → let m = st.memory in
        ((uld_dyn_write_reso_glob_dat files f rel st).1.memory a ≡ m a)
        ⊎ (There m
            × (InWord (rel_dst m f rel) a
                ⊎ (inside st.dl_alloc_base (st_size m st.res.match_sym) a ≡ true)))
  unfolding uld_dyn_write_reso_glob_dat
  write_reso_glob_dat-cases st a =
      let m = st.memory in
      elim (Bool-cases (rel_dst m f rel == null)) [
        | inl missing ↦ inl (rw missing refl)
        | inr there ↦ elim (Bool-cases (st.res.ptr == null)) [
          | inl made ↦
              elim (orelse (write32_cases _ (rel_dst m f rel) _ a)
                (memset_cases m st.dl_alloc_base (st_size m st.res.match_sym) a)) [
                  | inl same ↦ inl (rw (there, made) same)
                  | inr part ↦ inr (there, part)
                ]
          | inr found ↦ elim (write32_cases m (rel_dst m f rel) (res_addr m files st.res) a) [
            | inl same ↦ inl (rw (there, found) same)
            | inr word ↦ inr (there, inl word)
          ]
        ]
      ]

  pub write_reso_funcdesc-cases :
      (st : Linker) (a : ℕ)
      → let m = st.memory in
        ((uld_dyn_write_reso_funcdesc files f rel st).1.memory a ≡ m a)
        ⊎ (There m
            × (InWord (rel_dst m f rel) a
                ⊎ (InWord (add32 st.dl_alloc_base 4) a ⊎ InWord st.dl_alloc_base a)))
  unfolding uld_dyn_write_reso_funcdesc
  write_reso_funcdesc-cases st a =
      let m = st.memory in
      elim (Bool-cases (rel_dst m f rel == null)) [
        | inl missing ↦ inl (rw missing refl)
        | inr there ↦ elim (Bool-cases (st.res.membase == null)) [
          | inl found ↦ elim (write32_cases m (rel_dst m f rel) st.res.ptr a) [
            | inl same ↦ inl (rw (there, found) same)
            | inr word ↦ inr (there, inl word)
          ]
          | inr made ↦
              elim (orelse (write32_cases _ (rel_dst m f rel) _ a)
                (value_dst-cases m st.dl_alloc_base st.res a)) [
                  | inl same ↦ inl (rw (there, made) same)
                  | inr part ↦ inr (there, part)
                ]
        ]
      ]
