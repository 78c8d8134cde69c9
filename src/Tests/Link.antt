-- ===== src/Tests/Link.antt =====
-- A relocation at the start of the data section.
use uld_fdpic.Common.{◌+◌, ◌≡◌, ◌≢◌, ◌⊎◌, inl, inr, refl, arith, true, [], ◌∷◌, pos}
use uld_fdpic.Mem.{Mem, null, read32, write32}
use uld_fdpic.Elf.Fields.{r_offset, sh_size, sh_type}
use uld_fdpic.Sal.{
  sec_hit, find_from, uld_section_find_in_list, uld_section_find_in_lists,
  uld_section_find_in_lists_by_lma, uld_section_lma_to_adjusted_ma,
}
use uld_fdpic.File.{uld_file_lma_to_adjusted_ma, uld_file_lma_to_adjusted_vma}
use uld_fdpic.Dyn.Resolve.{Resolution}
use uld_fdpic.Dyn.Link.{
  Linker, rel_dst, res_vma, uld_dyn_write_reso_funcdesc, uld_dyn_write_reso_funcdesc_value,
  uld_dyn_link_file_list,
}
use uld_fdpic.Dyn.Link.Walk.{IsTouched, link_file_list-IsTouched}
use uld_fdpic.Dyn.Link.Pool.{IsPool, link_file_list-IsPool}
use uld_fdpic.Dyn.Link.Write.{IsDescriptor, write_reso_funcdesc_lem, write_reso_funcdesc_value_lem}
use uld_fdpic.Tests.{section_memory, loaded}

-- The relocation at 0x500.
abbrev m : Mem
m = write32 section_memory 0x500 0x8000

-- By the symbol at offset 4 of the section.
abbrev by_symbol : Resolution
by_symbol = record { ptr = 0x8004; membase = 0x2000; match_sym = 0; file_idx = 0 }

abbrev linker : Linker
linker = record { memory = m; dl_alloc_base = 0x3000; dla_size = 0; res = by_symbol }

dst_there : rel_dst m loaded 0x500 ≡ 0x2000
unfolding r_offset sh_size sh_type read32 write32 sec_hit find_from uld_section_find_in_list
    uld_section_find_in_lists uld_section_find_in_lists_by_lma uld_section_lma_to_adjusted_ma
    uld_file_lma_to_adjusted_ma uld_file_lma_to_adjusted_vma
dst_there = refl

function_there : res_vma m (loaded ∷ []) by_symbol ≡ 0x2004
unfolding sh_size sh_type read32 write32 sec_hit find_from uld_section_find_in_list
    uld_section_find_in_lists uld_section_find_in_lists_by_lma uld_section_lma_to_adjusted_ma
    uld_file_lma_to_adjusted_ma uld_file_lma_to_adjusted_vma res_vma
function_there = refl

words_blank : (read32 m 0x8004 ≡ 0) × (read32 m 0x8008 ≡ 0)
unfolding read32 write32
words_blank = (refl, refl)

write_reso_funcdesc_lem_example :
    let out = uld_dyn_write_reso_funcdesc (loaded ∷ []) loaded 0x500 linker in
    (out.0 ≡ pos 0)
    × (((0x2000 ≡ null)
          × (read32 out.1.memory (rel_dst m loaded 0x500) ≡ 0x8004)
          × (out.1.dl_alloc_base ≡ 0x3000))
        ⊎ ((0x2000 ≢ null)
            × (read32 out.1.memory (rel_dst m loaded 0x500) ≡ 0x3000)
            × IsDescriptor out.1.memory 0x3000 (res_vma m (loaded ∷ []) by_symbol) 0x2000
            × (out.1.dl_alloc_base ≡ 0x3000 + 8)))
write_reso_funcdesc_lem_example =
    write_reso_funcdesc_lem (loaded ∷ []) loaded 0x500 linker (ground (arith, dst_there))
      (omega arith) (inr (omega (arith, dst_there))) (omega (arith, function_there)) (omega arith)
      (omega arith)

write_reso_funcdesc_value_lem_example :
    let out = uld_dyn_write_reso_funcdesc_value m (loaded ∷ []) loaded 0x500 by_symbol in
    (out.0 ≡ pos 0)
    × (((0x2000 ≡ null)
          × IsDescriptor out.1 (rel_dst m loaded 0x500) (read32 m 0x8004) (read32 m (0x8004 + 4)))
        ⊎ ((0x2000 ≢ null)
            × IsDescriptor out.1
                (rel_dst m loaded 0x500)
                (res_vma m (loaded ∷ []) by_symbol)
                0x2000))
write_reso_funcdesc_value_lem_example =
    write_reso_funcdesc_value_lem (loaded ∷ []) loaded 0x500 linker (ground (arith, dst_there))
      (omega (arith, dst_there)) (omega arith) (inl (omega (arith, dst_there)))
      (omega (arith, function_there)) (omega arith) (omega (arith, words_blank.0))
      (omega (arith, words_blank.1))

link_file_list-IsPool_example :
    IsPool 0x3000 (uld_dyn_link_file_list m (loaded ∷ []) 0x3000 true by_symbol).1
link_file_list-IsPool_example =
    link_file_list-IsPool m (loaded ∷ []) 0x3000 true by_symbol (omega arith)

link_file_list-IsTouched_example :
    ((uld_dyn_link_file_list m (loaded ∷ []) 0x3000 true by_symbol).1.memory 0x2000 ≡ m 0x2000)
    ⊎ IsTouched
        (loaded ∷ [])
        (record { memory = m; dl_alloc_base = 0x3000; dla_size = 0; res = by_symbol })
        0x2000
link_file_list-IsTouched_example =
    link_file_list-IsTouched m (loaded ∷ []) 0x3000 true by_symbol 0x2000
