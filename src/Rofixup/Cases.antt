-- ===== src/Rofixup/Cases.antt =====
-- Where fixed pointers point, and the outcome for a file without memory sections.
use mathlib.Core.Path.{subst}
use mathlib.Core.Bool.{false≢true}
use uld_fdpic.Common.{
  ℕ, ◌+◌, ◌-◌, ◌<◌, ◌≡◌, ◌≢◌, refl, sym, ap, ◌∙◌, arith, ◌⊎◌, inl, inr, true, false, Option, none,
  some, List, [], ◌==◌, if◌then◌else◌, length, is_nonzero, ◌&&◌, ◌||◌, ◌↔◌, pos, negsuc, Bool-cases,
  Option-cases,
}
use uld_fdpic.Mem.{Mem, null, w32, add32, sub32, read32}
use uld_fdpic.Elf.{image_base}
use uld_fdpic.Sal.{
  Section, in_range, flag_flash_needs_fixup, flag_flash_fixup_done, uld_section_find_in_list_by_lma,
}
use uld_fdpic.File.Translate.{Elem, Covers, IsShort, some-Elem, none-Elem}
use uld_fdpic.Rofixup.{
  Fixup, DoFixup, update_to, is_got_base, uld_rofixup_do_mem_fixup, uld_rofixup_do_flash_fixup,
  uld_rofixup_apply_fixups, uld_rofixup_apply_flash_fixups,
}

-- Neither the section nor the place that it is moved to reaches the end of the address space.
abbrev pub AllShort : Mem → List Section → Type 0
AllShort m ss = (t : Section) → Elem t ss → IsShort m false t

-- The section of number `idx` is ".got", and `word` is the start of ".got.plt".
abbrev pub IsBase : Option (ℕ × Section) → Option (ℕ × Section) → ℕ → ℕ → Type 0
IsBase got plt idx word =
    (g : ℕ × Section) × (p : ℕ × Section) × (got ≡ some g)
    × (plt ≡ some p)
    × (idx ≡ g.0)
    × (word ≡ p.1.lma)

is_got_base-IsBase :
    (got plt : Option (ℕ × Section)) (idx word : ℕ)
    → ((is_got_base idx got plt word ≡ true) × IsBase got plt idx word)
      ⊎ ((is_got_base idx got plt word ≡ false) × (¬ IsBase got plt idx word))
unfolding is_got_base
is_got_base-IsBase none plt idx word = inr (refl, λ (g, p, e, d, i, w). cc)
is_got_base-IsBase (some g) none idx word = inr (refl, λ (h, p, d, e, i, w). cc)
is_got_base-IsBase (some g) (some p) idx word =
    elim (Bool-cases ((idx == g.0) && (word == p.1.lma))) [
      | inl base ↦ inl (base, (g, p, refl, refl, ground arith, ground arith))
      | inr other ↦ inr (
        other,
        λ (h, q, d, e, i, w).
            let same : g ≡ h = cc in
            let same' : p ≡ q = cc in
            let at : idx ≡ g.0 = i ∙ ap (λ x. x.0) (sym same) in
            let start : word ≡ p.1.lma = w ∙ ap (λ x. x.1.lma) (sym same') in absurd (ground arith),
      )
    ]

module _ (m : Mem) (got plt : Option (ℕ × Section)) (membase : ℕ) (mem_list : List Section)
    (s : ℕ × Section) (addr : ℕ) where
  -- The pointer to fix, as the section holds it.
  abbrev pub pointer : ℕ
  pointer = read32 m (add32 (sub32 addr s.1.lma) s.1.adjusted_vma)

  abbrev fix : Fixup
  fix = uld_rofixup_do_mem_fixup got plt membase mem_list m s addr

  -- The pointer stays, because it is NULL or points into no section of memory.
  abbrev pub Stays : Fixup → Type 0
  Stays f =
      (f.ret ≡ pos 1) × ((pointer ≡ 0) ⊎ ((t : Section) → Elem t mem_list → ¬ Covers m pointer t))

  -- The pointer moves with the section that it points into, or becomes the base of the file; it
  -- is stored where its section lies now.
  abbrev pub Moves : Fixup → Type 0
  Moves f =
      (f.ret ≡ pos 0)
      × (f.adj_fixup_addr ≡ add32 (sub32 addr s.1.lma) s.1.adjusted_vma)
      × (pointer ≢ 0)
      × ((t : Section) × Elem t mem_list
          × Covers m pointer t
          × ((IsBase got plt s.0 pointer × (f.new_adj_fixup_addr ≡ membase))
              ⊎ ((¬ IsBase got plt s.0 pointer)
                  × (f.new_adj_fixup_addr ≡ t.adjusted_vma + (pointer - t.lma)))))

  fix-null : pointer ≡ 0 → fix.ret ≡ pos 1
  unfolding uld_rofixup_do_mem_fixup
  fix-null e = ground (arith, e)

  set : pointer ≢ 0 → (pointer == 0) ≡ false
  set ne = ground arith

  fix-none :
      pointer ≢ 0 → uld_section_find_in_list_by_lma m mem_list pointer ≡ none → fix.ret ≡ pos 1
  unfolding uld_rofixup_do_mem_fixup
  fix-none ne e = rw (set ne, e) refl

  fix-some :
      (t : ℕ × Section)
      → pointer ≢ 0
      → uld_section_find_in_list_by_lma m mem_list pointer ≡ some t
      → fix
        ≡ update_to (add32 (sub32 addr s.1.lma) s.1.adjusted_vma) (
            if is_got_base s.0 got plt pointer
            then membase
            else add32 (sub32 pointer t.1.lma) t.1.adjusted_vma)
  unfolding uld_rofixup_do_mem_fixup
  fix-some t ne e = elim (Bool-cases (is_got_base s.0 got plt pointer)) [
    | inl base ↦ rw (set ne, e, base) refl
    | inr other ↦ rw (set ne, e, other) refl
  ]

  Covers-in_range :
      (t : Section)
      → IsShort m false t
      → pointer < w32
      → (in_range m pointer t.lma t ≡ true) ↔ Covers m pointer t
  Covers-in_range t h lt = ground arith

  found-Moves :
      (t : Section) (k : ℕ)
      → IsShort m false t
      → pointer < w32
      → pointer ≢ 0
      → Elem t mem_list
      → Covers m pointer t
      → uld_section_find_in_list_by_lma m mem_list pointer ≡ some (k, t)
      → Moves fix
  found-Moves t k short lt ne there c e =
      let kept : add32 (sub32 pointer t.lma) t.adjusted_vma ≡ t.adjusted_vma + (pointer - t.lma) =
        omega (arith, short.0, short.1, c.0, c.1) in
      subst (λ f. Moves f) (sym (fix-some (k, t) ne e))
        (
          refl,
          refl,
          ne,
          (
            t,
            there,
            c,
            elim (is_got_base-IsBase got plt s.0 pointer) [
              | inl (base, is) ↦ inl (is, rw base refl)
              | inr (other, apart) ↦ inr (apart, rw other kept)
            ],
          ),
        )

  -- A pointer of a memory section that is not NULL and points into a section of memory moves to
  -- the same offset in that section's memory, except that one of the section given as ".got" to
  -- the start of the one given as ".got.plt" becomes the base of the file; the place to store it
  -- is where the pointer's own section lies now. All other pointers stay. No section reaches the
  -- end of the address space.
  pub do_mem_fixup_cases : AllShort m mem_list → pointer < w32 → Stays fix ⊎ Moves fix
  unfolding uld_section_find_in_list_by_lma
  do_mem_fixup_cases short lt = elim (Bool-cases (pointer == 0)) [
    | inl unset ↦ let e : pointer ≡ 0 = ground arith in inl (fix-null e, inl e)
    | inr nonzero ↦
        let ne : pointer ≢ 0 = ground arith in
        elim (Option-cases (uld_section_find_in_list_by_lma m mem_list pointer)) [
          | inl no_hit ↦ inl (
            fix-none ne no_hit,
            inr (λ t there c.
                let out = none-Elem m pointer mem_list no_hit t there in
                let hit = (Covers-in_range t (short t there) lt).1 c in false≢true (sym out ∙ hit)),
          )
          | inr ((k, t), found) ↦
              let (there, hit) = some-Elem m pointer mem_list k t found in
              inr (
                found-Moves t k (short t there) lt ne there
                  ((Covers-in_range t (short t there) lt).0 hit) found)
        ]
  ]

no_sections :
    (m : Mem) (blank : Section) (ehdr base need_flag done_flag : ℕ) (do_fixup : DoFixup)
    → (uld_rofixup_apply_fixups m blank ehdr base [] need_flag done_flag do_fixup).ret ≡ negsuc 0
unfolding uld_rofixup_apply_fixups
no_sections m blank ehdr base need_flag done_flag do_fixup = elim (Bool-cases (ehdr == null)) [
  | inl missing ↦ rw missing refl
  | inr there ↦ rw there refl
]

-- A file without memory sections: `uld_rofixup_apply_flash_fixups` does not succeed, although its
-- own check lets such a file through.
pub apply_flash_fixups_no_mem :
    (m : Mem) (blank : Section) (ehdr base : ℕ) (flash_list : List Section)
    → (uld_rofixup_apply_flash_fixups m blank ehdr base flash_list []).ret ≢ pos 0
unfolding uld_rofixup_apply_flash_fixups
apply_flash_fixups_no_mem m blank ehdr base flash_list e =
    let one =
      uld_rofixup_apply_fixups m blank ehdr (image_base ehdr base) flash_list flag_flash_needs_fixup
        flag_flash_fixup_done (uld_rofixup_do_flash_fixup (image_base ehdr base) flash_list []) in
    elim (Bool-cases ((ehdr == null) || (length flash_list == 0))) [
      | inl refused ↦
          let r : negsuc 0 ≡ pos 0 = rw (refused, uld_rofixup_apply_flash_fixups) at e in cc
      | inr taken ↦ elim (Bool-cases (is_nonzero one.ret)) [
        | inl failed ↦
            let r : one.ret ≡ pos 0 = rw (taken, failed, uld_rofixup_apply_flash_fixups) at e in
            false≢true (sym (ap is_nonzero r) ∙ failed)
        | inr fine ↦
            let r = rw (taken, fine, uld_rofixup_apply_flash_fixups) at e in
            let none_done =
              no_sections one.memory blank ehdr (image_base ehdr base) flag_flash_needs_fixup
                flag_flash_fixup_done
                (uld_rofixup_do_flash_fixup (image_base ehdr base) flash_list []) in
            let both : negsuc 0 ≡ pos 0 = sym none_done ∙ r in cc
      ]
    ]
