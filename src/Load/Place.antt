-- ===== src/Load/Place.antt =====
-- How `uld_load_alloc_mem_sections` fills the memory of a file.
use uld_fdpic.Common.{
  ℕ, ◌+◌, ◌-◌, ◌<◌, ◌≤◌, ◌≡◌, ◌≢◌, refl, sym, ◌∙◌, arith, inl, true, false, Option, none, some,
  List, [], ◌∷◌, ◌==◌, if◌then◌else◌, All, length, pos, bit_and, bit_or,
}
use mathlib.Core.Path.{subst}
use uld_fdpic.Mem.{Mem, null, w32, add32, sub32}
use uld_fdpic.Mem.Laws.{read32_agree}
use uld_fdpic.Libc.Copy.{inside, memcpy_lem, memset_lem}
use uld_fdpic.Elf.Fields.{sh_type, sh_offset, sh_size}
use uld_fdpic.Sal.{Section, flag_type_mem, flag_mem_loaded}
use uld_fdpic.Load.{
  Alloc, AllocResult, gap_before, place_bytes, alloc_loop, uld_load_alloc_mem_sections,
}
use uld_fdpic.Load.Laid.{size, total, IsOutside, PrevOutside, gaps, Agree, content, Laid}

module _ (m : Mem) (lo hi : ℕ) (low : hi < w32) where
  size-Agree :
      (c : Mem) (mid : ℕ) (s : Section)
      → Agree lo mid m c
      → mid ≤ hi
      → IsOutside m lo hi s
      → (size c s ≡ size m s) × (sh_type c s.shdr ≡ sh_type m s.shdr)
  unfolding sh_size sh_type
  size-Agree c mid s agree le out = (
    read32_agree m c (s.shdr + 20) (λ b p q. agree b (ground (arith, out.0))),
    read32_agree m c (s.shdr + 4) (λ b p q. agree b (ground (arith, out.0))),
  )

  offset-Agree :
      (c : Mem) (mid : ℕ) (s : Section)
      → Agree lo mid m c
      → mid ≤ hi
      → IsOutside m lo hi s
      → sh_offset c s.shdr ≡ sh_offset m s.shdr
  unfolding sh_offset
  offset-Agree c mid s agree le out =
      read32_agree m c (s.shdr + 16) (λ b p q. agree b (ground (arith, out.0)))

  gap-Agree :
      (c : Mem) (mid : ℕ) (prev : Option Section) (s : Section)
      → Agree lo mid m c
      → mid ≤ hi
      → PrevOutside m lo hi prev
      → IsOutside m lo hi s
      → gap_before c prev s ≡ gap_before m prev s
  unfolding gap_before
  gap-Agree c mid none s agree le before out = refl
  gap-Agree c mid (some p) s agree le before out =
      let same = size-Agree c mid p agree le before in
      rw (same.0, same.1, offset-Agree c mid p agree le before, offset-Agree c mid s agree le out)

  -- One section, placed at `ptr` in the memory `c` that has the ones before it.
  place_bytes_lem :
      (c : Mem) (ptr : ℕ) (s : Section) (a : ℕ)
      → Agree lo ptr m c
      → lo ≤ ptr
      → ptr + size m s ≤ hi
      → IsOutside m lo hi s
      → place_bytes c ptr s a ≡ (if inside ptr (size m s) a then content m s (a - ptr) else c a)
  unfolding place_bytes
  place_bytes_lem c ptr s a agree le top out =
      let same = size-Agree c ptr s agree (omega arith) out in
      rw (same.0, same.1)
        (ground (
          arith,
          memcpy_lem c ptr s.adjusted_lma (size m s) a (ground (arith, out.1)),
          memset_lem c ptr 0 (size m s) a,
          agree (s.adjusted_lma + (a - ptr)),
        ))

  -- The loop over the rest of the sections, where every section is a memory section.
  record Filled (c : Mem) (prev : Option Section) (base ptr : ℕ) (ss : List Section) (r : Alloc)
      : Type 0 where
    base_end : r.membase ≡ base + gaps m prev ss
    laid : Laid m r.memory ptr ss r.placed
    ptr_end : r.ptr ≡ ptr + total m ss
    rest : Agree ptr (ptr + total m ss) c r.memory

  -- The loop's state behind the section `s`.
  abbrev after : Mem → Option Section → ℕ → ℕ → Section → List Section → Alloc
  after c prev base ptr s ss =
      let done =
        alloc_loop (place_bytes c ptr s) (some s) (add32 base (gap_before c prev s))
          (ptr + size m s) ss in
      record done {
        placed =
            record s { adjusted_vma = ptr; flags = bit_or s.flags flag_mem_loaded } ∷ done.placed;
      }

  alloc_loop-after :
      (c : Mem) (prev : Option Section) (base ptr : ℕ) (s : Section) (ss : List Section)
      → (bit_and s.flags flag_type_mem == 0) ≡ false
      → add32 ptr (size c s) ≡ ptr + size m s
      → alloc_loop c prev base ptr (s ∷ ss) ≡ after c prev base ptr s ss
  unfolding alloc_loop
  alloc_loop-after c prev base ptr s ss flag e = rw (flag, e)

  alloc_loop-Filled :
      (c : Mem) (prev : Option Section) (base ptr : ℕ) (ss : List Section)
      → Agree lo ptr m c
      → lo ≤ ptr
      → ptr + total m ss ≤ hi
      → All (λ s. IsOutside m lo hi s × ((bit_and s.flags flag_type_mem == 0) ≡ false)) ss
      → PrevOutside m lo hi prev
      → base + gaps m prev ss < w32
      → Filled c prev base ptr ss (alloc_loop c prev base ptr ss)
  alloc_loop-Filled c prev base ptr [] agree le top ok before room =
      unfold alloc_loop in
      record { base_end = omega arith; laid = tt; ptr_end = omega arith; rest = λ a h. refl }
  alloc_loop-Filled c prev base ptr (s ∷ ss) agree le top ok before room =
      let gap = gap-Agree c ptr prev s agree (omega arith) before ok.0.0 in
      let base' : add32 base (gap_before c prev s) ≡ base + gap_before m prev s =
        omega (arith, gap) in
      let same = size-Agree c ptr s agree (omega arith) ok.0.0 in
      let e : add32 ptr (size c s) ≡ ptr + size m s = omega (arith, same.0) in
      let next : (a : ℕ)
          → place_bytes c ptr s a
            ≡ (if inside ptr (size m s) a then content m s (a - ptr) else c a) =
        λ a. place_bytes_lem c ptr s a agree le (omega arith) ok.0.0 in
      let agree' : Agree lo (ptr + size m s) m (place_bytes c ptr s) =
        λ a h. ground (arith, next a, agree a) in
      let ih =
        alloc_loop-Filled (place_bytes c ptr s) (some s) (add32 base (gap_before c prev s))
          (ptr + size m s) ss agree' (omega arith) (omega arith) ok.1 ok.0.0
          (omega (arith, base')) in
      subst (Filled c prev base ptr (s ∷ ss)) (sym (alloc_loop-after c prev base ptr s ss ok.0.1 e))
        (record {
          base_end = omega (arith, ih.base_end, base');
          laid = (
            refl,
            λ i lt. ih.rest (ptr + i) (inl (omega arith)) ∙ at_offset i lt (next (ptr + i)),
            ih.laid,
          );
          ptr_end = omega (arith, ih.ptr_end);
          rest = λ a h. ground (arith, ih.rest a, next a);
        })
    where
      at_offset :
          (i : ℕ)
          → i < size m s
          → place_bytes c ptr s (ptr + i)
            ≡ (if inside ptr (size m s) (ptr + i) then content m s (ptr + i - ptr) else c (ptr + i))
          → place_bytes c ptr s (ptr + i) ≡ content m s i
      at_offset i lt e =
          let off : ptr + i - ptr ≡ i = omega arith in
          let here : inside ptr (size m s) (ptr + i) ≡ true = ground arith in e ∙ rw (here, off)

module _ (m : Mem) (ehdr membase given : ℕ) (ss : List Section) (not_null : ehdr ≢ null)
    (base_pos : 0 < membase) (some_section : 0 < length ss) (low : membase + total m ss < w32)
    (ok : All
      (λ s.
        IsOutside m membase (membase + total m ss) s
        × ((bit_and s.flags flag_type_mem == 0) ≡ false))
      ss)
    (room : membase + gaps m none ss < w32) where
  abbrev result : AllocResult
  result = uld_load_alloc_mem_sections m ehdr membase given ss

  filled :
      Filled m membase
        (membase + total m ss)
        low
        m
        none
        membase
        membase
        ss
        (alloc_loop m none membase membase ss)
  filled =
      alloc_loop-Filled m membase (membase + total m ss) low m none membase membase ss (λ a h. refl)
        (omega arith) (omega arith) ok tt room

  result-eq :
      let a = alloc_loop m none membase membase ss in
      result ≡ record {
        ret = pos 0;
        allocated = sub32 a.ptr a.membase;
        memory = a.memory;
        sections = a.placed;
      }
  unfolding uld_load_alloc_mem_sections
  result-eq = ground arith

  -- For memory sections that fit below the end of the address space, and whose headers and bytes
  -- lie outside the area to fill, `uld_load_alloc_mem_sections` succeeds, lays the sections out one
  -- behind the other from `membase` on, each with its bytes from flash or, for a NOBITS section,
  -- zeros, and changes no other address.
  pub alloc_mem_sections-Laid :
      (result.ret ≡ pos 0)
      × Laid m result.memory membase ss result.sections
      × Agree membase (membase + total m ss) m result.memory
  alloc_mem_sections-Laid =
      subst
        (λ r.
          (r.ret ≡ pos 0)
          × Laid m r.memory membase ss r.sections
          × Agree membase (membase + total m ss) m r.memory)
        (sym result-eq) (refl, filled.laid, filled.rest)

  -- The size that `uld_load_alloc_mem_sections` reports is short, by the unused bytes in flash
  -- between the sections, of the size of the area that it fills.
  pub alloc_mem_sections_allocated : result.allocated ≡ sub32 (total m ss) (gaps m none ss)
  alloc_mem_sections_allocated = rw result-eq (omega (arith, filled.ptr_end, filled.base_end))
