-- ===== src/Dyn/Link/Write.antt =====
-- What a resolved relocation leaves in memory.
use uld_fdpic.Common.{ℕ, ◌+◌, ◌<◌, ◌≤◌, ◌≡◌, ◌≢◌, ◌∙◌, arith, ◌⊎◌, inr, List, pos}
use uld_fdpic.Mem.{Mem, null, w32, add32, read32, write32}
use uld_fdpic.Mem.Laws.{read32-write32_self, read32-write32_apart}
use uld_fdpic.File.{UldFile}
use uld_fdpic.Dyn.Resolve.{Resolution}
use uld_fdpic.Dyn.Link.{
  Linker, rel_dst, res_vma, uld_dyn_write_reso_funcdesc_value_dst, uld_dyn_write_reso_funcdesc,
  uld_dyn_write_reso_funcdesc_value,
}

-- The words `fn` and `base` at `p`: a function descriptor.
abbrev pub IsDescriptor : Mem → ℕ → ℕ → ℕ → Type 0
IsDescriptor m p fn base = (read32 m p ≡ fn) × (read32 m (p + 4) ≡ base)

write_value_dst-IsDescriptor :
    (m : Mem) (dst : ℕ) (files : List UldFile) (res : Resolution)
    → dst + 8 ≤ w32
    → res_vma m files res < w32
    → res.membase < w32
    → IsDescriptor
        (uld_dyn_write_reso_funcdesc_value_dst m dst files res)
        dst
        (res_vma m files res)
        res.membase
unfolding uld_dyn_write_reso_funcdesc_value_dst
write_value_dst-IsDescriptor m dst files res low fn base =
    let at : add32 dst 4 ≡ dst + 4 = omega arith in
    let first = write32 m dst (res_vma m files res) in
    rw at (
      read32-write32_apart first (dst + 4) dst res.membase (inr (omega arith))
          ∙ read32-write32_self m dst (res_vma m files res) fn,
      read32-write32_self first (dst + 4) res.membase base,
    )

module _ (files : List UldFile) (f : UldFile) (rel : ℕ) (st : Linker) where
  abbrev dst : ℕ
  dst = rel_dst st.memory f rel

  abbrev pool : ℕ
  pool = st.dl_alloc_base

  -- For a FUNCDESC relocation with a place in memory, the word at that place becomes the address
  -- of a descriptor: that of the resolution, if it was found by a relocation; else a new one in
  -- the pool, which grows by its 8 bytes and holds the function's address and its file's base. The
  -- pool's next 8 bytes do not meet the word nor the end of memory.
  pub write_reso_funcdesc_lem :
      dst ≢ null
      → pool + 8 < w32
      → (pool + 8 ≤ dst) ⊎ (dst + 4 ≤ pool)
      → res_vma st.memory files st.res < w32
      → st.res.membase < w32
      → st.res.ptr < w32
      → let out = uld_dyn_write_reso_funcdesc files f rel st in
        (out.0 ≡ pos 0)
        × (((st.res.membase ≡ null)
              × (read32 out.1.memory dst ≡ st.res.ptr)
              × (out.1.dl_alloc_base ≡ pool))
            ⊎ ((st.res.membase ≢ null)
                × (read32 out.1.memory dst ≡ pool)
                × IsDescriptor out.1.memory pool (res_vma st.memory files st.res) st.res.membase
                × (out.1.dl_alloc_base ≡ pool + 8)))
  unfolding uld_dyn_write_reso_funcdesc
  write_reso_funcdesc_lem there low apart fn base ptr =
      let made = uld_dyn_write_reso_funcdesc_value_dst st.memory pool files st.res in
      let desc = write_value_dst-IsDescriptor st.memory pool files st.res (omega arith) fn base in
      let first = read32-write32_apart made dst pool pool (ground arith) in
      let second = read32-write32_apart made dst (pool + 4) pool (ground arith) in
      ground (
        arith,
        desc,
        first,
        second,
        read32-write32_self made dst pool (omega arith),
        read32-write32_self st.memory dst st.res.ptr ptr,
      )

  -- For a FUNCDESC_VALUE relocation with a place in memory, that place becomes the descriptor
  -- itself: a copy of the one that the resolution points to, if it was found by a relocation, else
  -- the function's address and its file's base. The two descriptors do not meet.
  pub write_reso_funcdesc_value_lem :
      dst ≢ null
      → dst + 8 ≤ w32
      → st.res.ptr + 8 ≤ w32
      → (dst + 8 ≤ st.res.ptr) ⊎ (st.res.ptr + 8 ≤ dst)
      → res_vma st.memory files st.res < w32
      → st.res.membase < w32
      → read32 st.memory st.res.ptr < w32
      → read32 st.memory (st.res.ptr + 4) < w32
      → let out = uld_dyn_write_reso_funcdesc_value st.memory files f rel st.res in
        (out.0 ≡ pos 0)
        × (((st.res.membase ≡ null)
              × IsDescriptor out.1 dst
                  (read32 st.memory st.res.ptr)
                  (read32 st.memory (st.res.ptr + 4)))
            ⊎ ((st.res.membase ≢ null)
                × IsDescriptor out.1 dst (res_vma st.memory files st.res) st.res.membase))
  unfolding uld_dyn_write_reso_funcdesc_value
  write_reso_funcdesc_value_lem there low src_low apart fn base word word' =
      let m = st.memory in
      let src = st.res.ptr in
      let first = write32 m dst (read32 m src) in
      let desc = write_value_dst-IsDescriptor m dst files st.res low fn base in
      let src4 : add32 src 4 ≡ src + 4 = omega arith in
      let dst4 : add32 dst 4 ≡ dst + 4 = omega arith in
      let kept = read32-write32_apart m dst (src + 4) (read32 m src) (ground arith) in
      let low_word =
        read32-write32_apart first (dst + 4) dst (read32 first (src + 4)) (inr (omega arith)) in
      rw (src4, dst4)
        (ground (
          arith,
          desc,
          kept,
          low_word,
          read32-write32_self m dst (read32 m src) word,
          read32-write32_self first (dst + 4) (read32 first (src + 4)) (omega (arith, kept, word')),
        ))
