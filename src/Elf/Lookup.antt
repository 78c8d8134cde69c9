-- ===== src/Elf/Lookup.antt =====
-- What the searches among section headers find, and the index of a header.
use native.Mathlib.Nat.{mul-div_cancel_left}
use uld_fdpic.Common.{
  ℕ, zero, suc, ◌+◌, ◌-◌, ◌*◌, ◌^◌, ◌<◌, ◌≡◌, ◌≢◌, refl, ap, arith, ◌⊎◌, inl, inr, Bool, true,
  false, some, List, ◌==◌, ltb, leb, pos, Bool-cases,
}
use uld_fdpic.Mem.{Mem, null, w32, add32, sub32}
use uld_fdpic.Elf.Fields.{e_shnum, e_shoff, e_shentsize}
use uld_fdpic.Elf.{
  image_base, find_header, find_shdr, is_named, elf32_get_section_by_index,
  elf32_get_section_by_name, elf32_get_section_name, elf32_get_shidx_by_section,
}

-- The address of header `i` of a table that starts at `p`.
abbrev pub header_at : ℕ → ℕ → ℕ → ℕ
header_at stride p zero = p
header_at stride p (suc i) = header_at stride (add32 p stride) i

module _ (test : ℕ → Bool) (stride : ℕ) where
  -- The result is the first of `count` headers that passes the test, or NULL if none does.
  abbrev pub IsFirstHeader : ℕ → ℕ → ℕ → Type 0
  IsFirstHeader count p r =
      ((i : ℕ) × (i < count)
        × (r ≡ header_at stride p i)
        × (test r ≡ true)
        × ((j : ℕ) → j < i → test (header_at stride p j) ≡ false))
      ⊎ ((r ≡ null) × ((j : ℕ) → j < count → test (header_at stride p j) ≡ false))

  later :
      (p n : ℕ)
      → test p ≡ false
      → ((j : ℕ) → j < n → test (header_at stride (add32 p stride) j) ≡ false)
      → (j : ℕ) → j < suc n
      → test (header_at stride p j) ≡ false
  later p n miss h zero lt = miss
  later p n miss h (suc j) lt = h j (omega arith)

  IsFirstHeader-suc :
      (count p r : ℕ)
      → test p ≡ false
      → IsFirstHeader count (add32 p stride) r
      → IsFirstHeader (suc count) p r
  IsFirstHeader-suc count p r miss (inl (i, lt, at, hit, before)) =
      inl (suc i, omega arith, at, hit, later p i miss before)
  IsFirstHeader-suc count p r miss (inr (at, misses)) = inr (at, later p count miss misses)

  find_header-IsFirstHeader :
      (count p : ℕ) → IsFirstHeader count p (find_header test stride count p)
  unfolding find_header
  find_header-IsFirstHeader zero p = inr (refl, λ j lt. absurd (omega arith))
  find_header-IsFirstHeader (suc count) p = elim (Bool-cases (test p)) [
    | inl hit ↦
        rw (find_header, hit) (inl (0, omega arith, refl, hit, λ j lt. absurd (omega arith)))
    | inr miss ↦
        rw (find_header, miss)
          (IsFirstHeader-suc count p _ miss (find_header-IsFirstHeader count (add32 p stride)))
  ]

-- `elf32_get_section_by_name` returns the first section after section 0 that has the name, and
-- NULL if none has.
pub section_by_name-IsFirstHeader :
    (m : Mem) (ehdr base : ℕ) (name : List ℕ)
    → IsFirstHeader
        (λ p. is_named m (elf32_get_section_name m ehdr null p) name)
        (e_shentsize m ehdr)
        (e_shnum m ehdr - 1)
        (elf32_get_section_by_index m ehdr base (pos 1))
        (elf32_get_section_by_name m ehdr base (some name))
unfolding elf32_get_section_by_name find_shdr
section_by_name-IsFirstHeader m ehdr base name = find_header-IsFirstHeader _ _ _ _

-- The index of a section header in its table is the index that it was found by, for a table that
-- lies below the end of the address space and takes less than 2 ^ 31 bytes.
pub shidx_by_section_roundtrip :
    (m : Mem) (ehdr base i : ℕ)
    → ehdr ≢ null
    → i < e_shnum m ehdr
    → 0 < e_shentsize m ehdr
    → 0 < image_base ehdr base
    → image_base ehdr base + e_shoff m ehdr + e_shentsize m ehdr * i < w32
    → e_shentsize m ehdr * i < 2 ^ 31
    → elf32_get_shidx_by_section m ehdr base (elf32_get_section_by_index m ehdr base (pos i))
      ≡ pos i
unfolding elf32_get_shidx_by_section elf32_get_section_by_index
shidx_by_section_roundtrip m ehdr base i ne lt stride based low small =
    let b = image_base ehdr base in
    let off = e_shoff m ehdr in
    let k = e_shentsize m ehdr * i in
    let some_ehdr : (ehdr == null) ≡ false = ground arith in
    let in_table : leb (e_shnum m ehdr) i ≡ false = ground arith in
    let at : add32 b (off + k) ≡ b + off + k = omega arith in
    let some_shdr : (b + off + k == null) ≡ false = ground arith in
    let back : sub32 (sub32 (b + off + k) b) off ≡ k = omega arith in
    let positive : ltb k (2 ^ 31) ≡ true = ground arith in
    rw (some_ehdr, in_table, at, some_shdr, back, positive) (ap pos (mul-div_cancel_left i stride))
