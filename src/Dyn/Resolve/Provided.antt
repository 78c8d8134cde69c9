-- ===== src/Dyn/Resolve/Provided.antt =====
-- What a resolution in src/uld_dyn.c may come from, for one relocation, its symbol and its name.
use mathlib.Core.Path.{subst}
use uld_fdpic.Common.{
  ℕ, zero, suc, ◌+◌, ◌*◌, ◌<◌, ◌≤◌, ◌≡◌, ◌≢◌, refl, arith, ◌⊎◌, inl, inr, true, false, ◌||◌, Option,
  none, some, List, ◌==◌, if◌then◌else◌, get_elem?, ℤ, pos, negsuc, Bool-cases, Option-cases,
}
use uld_fdpic.Mem.{Mem, null, add32, read32}
use uld_fdpic.Elf.Fields.{
  r_sym, r_type, r_offset, sh_size, st_value, st_shndx, st_type, elf32_sym_has_section_index,
  stt_section, r_arm_abs32, r_arm_glob_dat, r_arm_funcdesc, r_arm_funcdesc_value,
}
use uld_fdpic.Sal.{
  Section, flag_type_all, uld_section_find_in_list_by_lma, uld_section_lma_to_adjusted_vma,
}
use uld_fdpic.File.{UldFile, uld_file_get_sec_by_index, uld_file_lma_to_adjusted_vma}
use uld_fdpic.Dyn.Symbols.{
  uld_dyn_get_sym_index, uld_dyn_find_dynsym_elf_hash_sec, sec_hash, sec_dynstr, sec_dynsym,
}
use uld_fdpic.Dyn.Resolve.{
  Resolution, Step, returned, onward, sec_rel_dyn, sec_base, rel_count, rel_at, skips, take_rel,
  first_rd, find_rel,
}

module _ (m : Mem) (files : List UldFile) (rel rel_sym : ℕ) (name : List ℕ) (top rd_idx : ℕ) where
  -- The file of the relocation, where this is no FUNCDESC, and all others.
  abbrev pub IsOwn : ℕ → Type 0
  IsOwn i = (i ≡ top) × (r_type m rel ≢ r_arm_funcdesc)

  abbrev pub IsOther : ℕ → Type 0
  IsOther i = (i ≢ top) ⊎ (r_type m rel ≡ r_arm_funcdesc)

  -- The relocation's own symbol in its own file, or the one of its name in the file.
  abbrev pub Matches : UldFile → ℕ → ℕ → Type 0
  Matches f i s =
      (IsOwn i × (s ≡ rel_sym))
      ⊎ (IsOther i
          × (s ≢ null)
          × (s
              ≡ uld_dyn_find_dynsym_elf_hash_sec m (some name) (sec_hash m f) (sec_dynstr m f)
                  (sec_dynsym m f)))

  -- The symbol's section is known, and its value is taken.
  abbrev pub BySymbol : UldFile → ℕ → ℕ → Resolution → Type 0
  BySymbol f i s r =
      (elf32_sym_has_section_index m s ≡ true)
      × (r.membase ≡ f.membase)
      × (r.ptr ≡ st_value m s)
      × (r.file_idx ≡ i)

  -- The symbol stands for a section, and the word at the relocation, a FUNCDESC_VALUE, is an
  -- offset in it.
  abbrev pub BySection : UldFile → ℕ → ℕ → Resolution → Type 0
  BySection f i s r =
      (st_type m s ≡ stt_section)
      × (r_type m rel ≡ r_arm_funcdesc_value)
      × ((sec : Section) × (uld_file_get_sec_by_index m (some f) (pos (st_shndx m s)) flag_type_all
            ≡ some sec)
          × (r.ptr ≡ add32 (read32 m (uld_file_lma_to_adjusted_vma m f (r_offset m rel))) sec.lma))
      × (r.membase ≡ f.membase)
      × (r.file_idx ≡ i)

  -- A relocation of the file that may be used: ahead of the relocation to resolve, in the file of
  -- that one, and within the table in the other files. A FUNCDESC is looked for in whole tables.
  abbrev pub InTable : UldFile → ℕ → ℕ → Type 0
  InTable f i k =
      (IsOwn i × (k < rd_idx))
      ⊎ (IsOther i
          × ((sec : Section) × (sec_rel_dyn m f ≡ some sec) × (8 * k + 8 ≤ sh_size m sec.shdr)))

  -- For the relocation's own symbol, a FUNCDESC takes only a FUNCDESC_VALUE, and a FUNCDESC_VALUE
  -- no FUNCDESC.
  abbrev pub IsUsable : ℕ → ℕ → Type 0
  IsUsable s type =
      (s ≢ rel_sym)
      ⊎ (((r_type m rel ≢ r_arm_funcdesc) ⊎ (type ≡ r_arm_funcdesc_value))
          × ((r_type m rel ≢ r_arm_funcdesc_value) ⊎ (type ≢ r_arm_funcdesc)))

  abbrev pub found_section : Option (ℕ × Section) → Option Section
  found_section none = none
  found_section (some p) = some p.1

  -- Where the memory section of the file that the relocation is in holds what it resolved.
  abbrev pub rel_place : UldFile → ℕ → ℕ
  rel_place f old_rel =
      uld_section_lma_to_adjusted_vma m
        (found_section (uld_section_find_in_list_by_lma m f.mem (r_offset m old_rel)))
        (r_offset m old_rel)

  -- The pointer that a relocation of the type gives: the word at the place, or the place, which
  -- holds a descriptor.
  abbrev pub IsTaken : ℕ → ℕ → ℕ → Type 0
  IsTaken type place ptr =
      (((type ≡ r_arm_abs32) ⊎ (type ≡ r_arm_glob_dat) ⊎ (type ≡ r_arm_funcdesc))
        × (ptr ≡ read32 m place))
      ⊎ ((type ≡ r_arm_funcdesc_value) × (ptr ≡ place))
      ⊎ ((type ≢ r_arm_abs32)
          × (type ≢ r_arm_glob_dat)
          × (type ≢ r_arm_funcdesc)
          × (type ≢ r_arm_funcdesc_value))

  -- The relocation at index `k` of the file refers to the symbol and is already resolved.
  abbrev pub RelAt : UldFile → ℕ → ℕ → Resolution → ℕ → Type 0
  RelAt f i s r k =
      let old_rel = rel_at (sec_base (sec_rel_dyn m f)) k in
      (r_sym m old_rel ≡ uld_dyn_get_sym_index m (sec_base (sec_dynsym m f)) s)
      × IsUsable s (r_type m old_rel)
      × IsTaken (r_type m old_rel) (rel_place f old_rel) r.ptr
      × (r.membase ≡ null)
      × (r.file_idx ≡ i)

  -- Such a relocation gives the resolution.
  abbrev pub ByRel : UldFile → ℕ → ℕ → Resolution → Type 0
  ByRel f i s r = (k : ℕ) × InTable f i k × RelAt f i s r k

  abbrev pub How : UldFile → ℕ → ℕ → Resolution → Type 0
  How f i s r = BySymbol f i s r ⊎ BySection f i s r ⊎ ByRel f i s r

  -- A file up to the relocation's own has a matching symbol that gives the resolution.
  abbrev pub Provided : Resolution → Type 0
  Provided r =
      (f : UldFile) × (i : ℕ) × (get_elem? files i ≡ some f)
      × (i ≤ top)
      × ((s : ℕ) × Matches f i s × How f i s r)

  -- The result 0 has such a resolution.
  abbrev pub Outcome : ℤ × Resolution → Type 0
  Outcome (pos zero, r) = Provided r
  Outcome (pos (suc n), r) = Unit
  Outcome (negsuc n, r) = Unit

  -- Between two files, only FUNCDESC may have a resolution already.
  abbrev pub Kept : Resolution → Type 0
  Kept r = (r.ptr ≡ null) ⊎ ((r_type m rel ≡ r_arm_funcdesc) × Provided r)

  abbrev pub After : Step → Type 0
  After (returned ret r) = Outcome (ret, r)
  After (onward r) = Kept r

  unskipped :
      (s idx search_rel : ℕ)
      → skips m rel rel_sym s idx search_rel ≡ false
      → (r_sym m search_rel ≡ idx) × IsUsable s (r_type m search_rel)
  unfolding skips
  unskipped s idx search_rel e = ground arith

  ptr-IsTaken :
      (type place other : ℕ)
      → IsTaken type place (
          if (type == r_arm_abs32) || (type == r_arm_glob_dat) || (type == r_arm_funcdesc)
          then read32 m place
          else if type == r_arm_funcdesc_value
          then place
          else other)
  ptr-IsTaken type place other = ground arith

  take_rel-IsTaken :
      (f : UldFile) (i old_rel : ℕ) (res : Resolution)
      → IsTaken (r_type m old_rel) (rel_place f old_rel) (take_rel m f i old_rel res).ptr
  unfolding take_rel
  take_rel-IsTaken f i old_rel res =
      elim (Option-cases (uld_section_find_in_list_by_lma m f.mem (r_offset m old_rel))) [
        | inl missing ↦ rw missing (ptr-IsTaken (r_type m old_rel) _ res.ptr)
        | inr (p, there) ↦ rw there (ptr-IsTaken (r_type m old_rel) _ res.ptr)
      ]

  taken-RelAt :
      (f : UldFile) (i s k : ℕ) (res : Resolution)
      → let old_rel = rel_at (sec_base (sec_rel_dyn m f)) k in
        (r_sym m old_rel ≡ uld_dyn_get_sym_index m (sec_base (sec_dynsym m f)) s)
          × IsUsable s (r_type m old_rel)
        → RelAt f i s (take_rel m f i old_rel res) k
  unfolding take_rel
  taken-RelAt f i s k res (e, usable) =
      (e, usable, take_rel-IsTaken f i (rel_at (sec_base (sec_rel_dyn m f)) k) res, refl, refl)

  rel_count-InTable :
      (f : UldFile) (i k : ℕ) → IsOther i → k < rel_count m (sec_rel_dyn m f) → InTable f i k
  rel_count-InTable f i k whole lt = elim (Option-cases (sec_rel_dyn m f)) [
    | inl missing ↦
        let over : k < rel_count m none = rw missing at lt in absurd (omega (arith, over))
    | inr (sec, there) ↦
        let le : k < rel_count m (some sec) = rw there at lt in
        inr (whole, (sec, there, omega (arith, le)))
  ]

  -- Where the walk over the relocations of the file starts.
  abbrev pub StartsAt : ℕ → Option ℕ → Type 0
  StartsAt i rd = (IsOwn i × (rd ≡ some rd_idx)) ⊎ (IsOther i × (rd ≡ none))

  pub first_rd-InTable :
      (f : UldFile) (i k : ℕ) (rd : Option ℕ) → StartsAt i rd → k < first_rd m f rd → InTable f i k
  first_rd-InTable f i k none (inl (own, e)) lt = cc
  first_rd-InTable f i k (some n) (inl (own, e)) lt =
      let same : n ≡ rd_idx = cc in inl (own, omega arith)
  first_rd-InTable f i k none (inr (other, e)) lt = rel_count-InTable f i k other lt
  first_rd-InTable f i k (some n) (inr (other, e)) lt = cc

  pub find_rel-RelAt :
      (f : UldFile) (i s n : ℕ) (res r : Resolution)
      → find_rel m f i rel rel_sym s n res ≡ some r
      → (k : ℕ) × (k < n) × RelAt f i s r k
  unfolding find_rel
  find_rel-RelAt f i s zero res r e = cc
  find_rel-RelAt f i s (suc n) res r e =
      let idx = uld_dyn_get_sym_index m (sec_base (sec_dynsym m f)) s in
      let old_rel = rel_at (sec_base (sec_rel_dyn m f)) n in
      elim (Bool-cases (skips m rel rel_sym s idx old_rel)) [
        | inl skip ↦
            let (k, lt, at) = find_rel-RelAt f i s n res r (rw (skip, find_rel) at e) in
            (k, omega arith, at)
        | inr taken ↦
            let e' = rw (taken, find_rel) at e in
            let same : take_rel m f i old_rel res ≡ r = cc in
            subst (λ t. (k : ℕ) × (k < suc n) × RelAt f i s t k) same
              (n, omega arith, taken-RelAt f i s n res (unskipped s idx old_rel taken))
      ]
