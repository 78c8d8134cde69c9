-- ===== src/Elf/Segment.antt =====
-- The segment that `elf32_get_segment_by_section` finds.
use uld_fdpic.Common.{
  ℕ, zero, suc, ◌+◌, ◌<◌, ◌≤◌, ◌≡◌, ◌≢◌, ◌↔◌, refl, ap, ◌∙◌, arith, ◌⊎◌, inl, inr, true, false,
  ◌==◌, pos, Bool-cases,
}
use uld_fdpic.Mem.{Mem, null, add32}
use uld_fdpic.Elf.Fields.{
  sh_type, sh_addr, sh_offset, sh_size, p_type, p_offset, p_vaddr, p_filesz, p_memsz, e_phnum,
  e_phentsize, sht_nobits, pt_load, is_alloc,
}
use uld_fdpic.Elf.{
  SegmentResult, segment_holds, find_segment, elf32_get_segment_by_index,
  elf32_get_segment_by_section,
}
use uld_fdpic.Elf.Lookup.{header_at}

module _ (m : Mem) (shdr : ℕ) where
  -- A loadable segment whose memory holds the section, and whose file range does not both start
  -- behind the section's start and end before its end.
  abbrev pub Holds : ℕ → Type 0
  Holds p =
      (p_type m p ≡ pt_load)
      × (p_vaddr m p ≤ sh_addr m shdr)
      × (add32 (sh_addr m shdr) (sh_size m shdr) ≤ add32 (p_vaddr m p) (p_memsz m p))
      × ((sh_type m shdr ≡ sht_nobits)
          ⊎ (p_offset m p ≤ sh_offset m shdr)
          ⊎ (add32 (sh_offset m shdr) (sh_size m shdr) ≤ add32 (p_offset m p) (p_filesz m p)))

  segment_holds-Holds : (p : ℕ) → (segment_holds m shdr p ≡ true) ↔ Holds p
  unfolding segment_holds
  segment_holds-Holds p = ground arith

  -- The first segment of the table that holds the section, or none with the code 1.
  abbrev pub FirstSegment : ℕ → ℕ → ℕ → ℕ → SegmentResult → Type 0
  FirstSegment stride count idx p r =
      ((i : ℕ) × (i < count)
        × (r.ret ≡ pos 0)
        × (r.phidx ≡ pos (idx + i))
        × (r.phdr ≡ header_at stride p i)
        × Holds r.phdr
        × ((j : ℕ) → j < i → ¬ Holds (header_at stride p j)))
      ⊎ ((r.ret ≡ pos 1) × (r.phdr ≡ null) × ((j : ℕ) → j < count → ¬ Holds (header_at stride p j)))

  later :
      (stride p n : ℕ)
      → ¬ Holds p
      → ((j : ℕ) → j < n → ¬ Holds (header_at stride (add32 p stride) j))
      → (j : ℕ) → j < suc n
      → ¬ Holds (header_at stride p j)
  later stride p n miss h zero lt = miss
  later stride p n miss h (suc j) lt = h j (omega arith)

  FirstSegment-suc :
      (stride count idx p : ℕ) (r : SegmentResult)
      → ¬ Holds p
      → FirstSegment stride count (idx + 1) (add32 p stride) r
      → FirstSegment stride (suc count) idx p r
  FirstSegment-suc stride count idx p r miss (inl (i, lt, ok, at, here, hit, before)) =
      let place : idx + 1 + i ≡ idx + suc i = omega arith in
      inl (suc i, omega arith, ok, at ∙ ap pos place, here, hit, later stride p i miss before)
  FirstSegment-suc stride count idx p r miss (inr (ok, at, misses)) =
      inr (ok, at, later stride p count miss misses)

  find_segment-FirstSegment :
      (stride count idx p : ℕ)
      → FirstSegment stride count idx p (find_segment m shdr stride count idx p)
  unfolding find_segment
  find_segment-FirstSegment stride zero idx p = inr (refl, refl, λ j lt. absurd (omega arith))
  find_segment-FirstSegment stride (suc count) idx p = elim (Bool-cases (segment_holds m shdr p)) [
    | inl hit ↦
        let start : idx ≡ idx + 0 = omega arith in
        rw (find_segment, hit)
          (inl (
            0,
            omega arith,
            refl,
            ap pos start,
            refl,
            (segment_holds-Holds p).0 hit,
            λ j lt. absurd (omega arith),
          ))
    | inr miss ↦
        rw (find_segment, miss)
          (FirstSegment-suc stride count idx p _
            (λ h. let hit = (segment_holds-Holds p).1 h in ground arith)
            (find_segment-FirstSegment stride count (idx + 1) (add32 p stride)))
  ]

  -- For a section that takes memory, `elf32_get_segment_by_section` returns 0 with the first
  -- loadable segment that holds its addresses and 1 when there is none. The section's file range
  -- counts as outside only if it starts before the segment's and also ends behind it.
  pub segment_by_section-FirstSegment :
      (ehdr : ℕ)
      → ehdr ≢ null
      → shdr ≢ null
      → is_alloc m shdr ≡ true
      → FirstSegment
          (e_phentsize m ehdr)
          (e_phnum m ehdr)
          0
          (elf32_get_segment_by_index m ehdr null (pos 0))
          (elf32_get_segment_by_section m ehdr shdr true)
  unfolding elf32_get_segment_by_section
  segment_by_section-FirstSegment ehdr ne some_shdr alloc =
      let there : (ehdr == null) ≡ false = ground arith in
      let there' : (shdr == null) ≡ false = ground arith in
      rw (there, there', alloc) (find_segment-FirstSegment _ _ _ _)
