-- ===== src/Rofixup/Frame.antt =====
-- What the memory fixups leave alone.
use mathlib.Core.Path.{subst}
use uld_fdpic.Common.{
  ℕ, zero, suc, ◌+◌, ◌-◌, ◌^◌, ◌<◌, ◌≤◌, ◌≡◌, refl, ◌∙◌, arith, ◌⊎◌, inl, inr, Bool, true, false,
  ◌||◌, Option, some, List, ◌==◌, ltb, leb, if◌then◌else◌, length, ℤ, is_neg, is_zero, Bool-cases,
  Option-cases,
}
use uld_fdpic.Mem.{Mem, null, add32, sub32, read32, write32}
use uld_fdpic.Mem.Laws.{read32_agree, write32_apart}
use uld_fdpic.Elf.{image_base, elf32_get_section_by_name, elf32_get_shidx_by_section}
use uld_fdpic.Load.{uld_load_create_section}
use uld_fdpic.Elf.Fields.{sh_size}
use uld_fdpic.Sal.{
  Section, dot_got, dot_got_plt, flag_mem_needs_fixup, flag_mem_fixup_done,
  uld_section_find_in_list_by_name, addr, by_lma, in_range, sec_hit,
  uld_section_find_in_list_by_lma, uld_section_find_in_list_by_lma_flag,
}
use uld_fdpic.Sal.Find.{IsFirst, find_in_list-IsFirst}
use uld_fdpic.File.Translate.{Elem, IsShort}
use uld_fdpic.Rofixup.{
  Fixup, FixupResult, is_got_base, dot_rofixup, fixup_limits, fixup_entry, after_entry, fixup_loop,
  uld_rofixup_do_mem_fixup, uld_rofixup_apply_fixups, uld_rofixup_apply_mem_fixups,
}

-- The address is in no pointer of a section's memory, the last of which may begin in its last byte.
abbrev pub IsAway : Mem → List Section → ℕ → Type 0
IsAway m ss a =
    (t : Section) → Elem t ss → (a < t.adjusted_vma) ⊎ (t.adjusted_vma + sh_size m t.shdr + 3 ≤ a)

-- The sections are short, and their headers are away from their memory.
pub record IsFlashed (m : Mem) (ss : List Section) : Type 0 where
  pub short : (t : Section) → Elem t ss → IsShort m false t
  pub headers : (t : Section) (i : ℕ) → Elem t ss → i < 40 → IsAway m ss (t.shdr + i)

module _ (m : Mem) (ss : List Section) (flashed : IsFlashed m ss) where
  abbrev Same : Mem → Type 0
  Same c = (a : ℕ) → IsAway m ss a → c a ≡ m a

  sh_size-Same : (c : Mem) (t : Section) → Same c → Elem t ss → sh_size c t.shdr ≡ sh_size m t.shdr
  unfolding sh_size
  sh_size-Same c t same there = read32_agree m c (t.shdr + 20) (λ b lo hi. same_at b lo hi)
    where
      same_at : (b : ℕ) → t.shdr + 20 ≤ b → b < t.shdr + 20 + 4 → c b ≡ m b
      same_at b lo hi =
          let e : t.shdr + (b - t.shdr) ≡ b = omega arith in
          same b (subst (λ x. IsAway m ss x) e (flashed.headers t (b - t.shdr) there (omega arith)))

  -- The section that a marked search finds.
  flag-Elem :
      (c : Mem) (a need k : ℕ) (t : Section)
      → uld_section_find_in_list_by_lma_flag c ss a need need ≡ some (k, t)
      → Elem t ss × (in_range c a t.lma t ≡ true)
  unfolding uld_section_find_in_list_by_lma_flag sec_hit
  flag-Elem c a need k t e =
      let (n, at, got, hit, before) =
        subst (λ r. IsFirst c (addr a) by_lma need need 0 ss r) e
          (find_in_list-IsFirst c (addr a) by_lma need need ss) in
      ((n, got), ground arith)

  module _ (got plt : Option (ℕ × Section)) (membase : ℕ) where
    abbrev fix : Mem → ℕ × Section → ℕ → Fixup
    fix = uld_rofixup_do_mem_fixup got plt membase ss

    adj-eq :
        (c : Mem) (s : ℕ × Section) (v : ℕ)
        → (fix c s v).adj_fixup_addr ≡ add32 (sub32 v s.1.lma) s.1.adjusted_vma
    unfolding uld_rofixup_do_mem_fixup
    adj-eq c s v =
        let word = read32 c (add32 (sub32 v s.1.lma) s.1.adjusted_vma) in
        elim (Bool-cases (word == 0)) [
          | inl unset ↦ rw unset refl
          | inr set ↦ elim (Option-cases (uld_section_find_in_list_by_lma c ss word)) [
            | inl no_hit ↦ rw (set, no_hit) refl
            | inr (t, found) ↦ elim (Bool-cases (is_got_base s.0 got plt word)) [
              | inl base ↦ rw (set, found, base) refl
              | inr other ↦ rw (set, found, other) refl
            ]
          ]
        ]

    write-Same :
        (c : Mem) (k v new : ℕ) (t : Section)
        → Same c
        → Elem t ss
        → in_range c v t.lma t ≡ true
        → Same (write32 c (fix c (k, t) v).adj_fixup_addr new)
    write-Same c k v new t same there hit a away =
        let size = sh_size-Same c t same there in
        let short = flashed.short t there in
        let inside : (t.lma ≤ v) × (v < t.lma + sh_size m t.shdr) = ground (arith, size, short.0) in
        let place : (fix c (k, t) v).adj_fixup_addr ≡ t.adjusted_vma + (v - t.lma) =
          omega (arith, adj-eq c (k, t) v, inside.0, inside.1, short.0, short.1) in
        let off = away t there in
        rw place (write32_apart c (t.adjusted_vma + (v - t.lma)) a new (ground arith) ∙ same a away)

    entry-Same :
        (need : ℕ) (limits : ℕ × ℕ) (p : ℕ) (c : Mem)
        → Same c
        → Same (fixup_entry fix ss need limits p c).1
    unfolding fixup_entry
    entry-Same need limits p c same =
        let v = read32 c p in
        elim (Bool-cases (ltb v limits.0 || leb limits.1 v)) [
          | inl far ↦ rw (fixup_entry, far) same
          | inr near ↦ elim (Option-cases (uld_section_find_in_list_by_lma_flag c ss v need need)) [
            | inl no_hit ↦ rw (fixup_entry, near, no_hit) same
            | inr ((k, t), found) ↦
                let (there, hit) = flag-Elem c v need k t found in
                elim (Bool-cases (is_zero (fix c (k, t) v).ret)) [
                  | inl fine ↦
                      rw (fixup_entry, near, found, fine)
                        (write-Same c k v (fix c (k, t) v).new_adj_fixup_addr t same there hit)
                  | inr left_alone ↦ rw (fixup_entry, near, found, left_alone) same
                ]
          ]
        ]

    after_entry-Same :
        (rest : Mem → ℤ × Mem) (r : ℤ × Mem)
        → ((c : Mem) → Same c → Same (rest c).1)
        → Same r.1
        → Same (after_entry rest r).1
    after_entry-Same rest r step h = elim (Bool-cases (is_neg r.0)) [
      | inl failed ↦ rw failed h
      | inr fine ↦ rw fine (step r.1 h)
    ]

    loop-Same :
        (need : ℕ) (limits : ℕ × ℕ) (rofixup : Section) (left p : ℕ) (c : Mem)
        → Same c
        → Same (fixup_loop fix ss need limits rofixup left p c).1
    unfolding fixup_loop
    loop-Same need limits rofixup zero p c same = same
    loop-Same need limits rofixup (suc left) p c same =
        elim (Bool-cases (ltb p (add32 rofixup.adjusted_lma (sh_size c rofixup.shdr)))) [
          | inl more ↦
              rw (fixup_loop, more)
                (after_entry-Same (λ d. fixup_loop fix ss need limits rofixup left (add32 p 4) d) _
                  (λ d h. loop-Same need limits rofixup left (add32 p 4) d h)
                  (entry-Same need limits p c same))
          | inr ended ↦ rw (fixup_loop, ended) same
        ]

    record IsSame (r : FixupResult) : Type 0 where
      pub memory : Same r.memory

    if-IsSame : (b : Bool) (x y : FixupResult) → IsSame x → IsSame y → IsSame (if b then x else y)
    if-IsSame true x y h k = h
    if-IsSame false x y h k = k

    apply_fixups-IsSame :
        (blank : Section) (ehdr base need done : ℕ)
        → IsSame (uld_rofixup_apply_fixups m blank ehdr base ss need done fix)
    unfolding uld_rofixup_apply_fixups
    apply_fixups-IsSame blank ehdr base need done =
        let b = image_base ehdr base in
        let shdr = elf32_get_section_by_name m ehdr b (some dot_rofixup) in
        let shidx = elf32_get_shidx_by_section m ehdr b shdr in
        let rofixup = (uld_load_create_section m blank ehdr b shdr shidx null).1 in
        let limits = fixup_limits m need ss in
        let out = fixup_loop fix ss need limits rofixup (2 ^ 30) rofixup.adjusted_lma m in
        let start : Same m = λ a away. refl in
        let walked = loop-Same need limits rofixup (2 ^ 30) rofixup.adjusted_lma m start in
        if-IsSame ((ehdr == null) || (length ss == 0)) _ _ (record { memory = start })
          (if-IsSame (shdr == null) _ _ (record { memory = start })
            (if-IsSame (is_neg out.0) _ _ (record { memory = walked })
              (record { memory = walked })))

  -- `uld_rofixup_apply_mem_fixups` changes no byte away from the memory of the sections: whatever
  -- the table and the pointers hold, it writes only pointers that begin there. The sections do
  -- not reach the end of the address space and their headers are away from their memory.
  pub apply_mem_fixups-IsAway :
      (blank : Section) (ehdr base membase a : ℕ)
      → IsAway m ss a
      → (uld_rofixup_apply_mem_fixups m blank ehdr base ss membase).memory a ≡ m a
  unfolding uld_rofixup_apply_mem_fixups
  apply_mem_fixups-IsAway blank ehdr base membase a away =
      let got = uld_section_find_in_list_by_name m ss (some dot_got) in
      let plt = uld_section_find_in_list_by_name m ss (some dot_got_plt) in
      let start : Same m = λ a away. refl in
      (if-IsSame got plt membase (ehdr == null) _ _ (record { memory = start })
          (if-IsSame got plt membase (length ss == 0) _ _ (record { memory = start })
            (apply_fixups-IsSame got plt membase blank ehdr base flag_mem_needs_fixup
              flag_mem_fixup_done))).memory
        a away
