-- ===== src/Dyn/Link.antt =====
-- The writes of src/uld_dyn.c for resolved relocations, and the loop over all relocations of all
-- files. A write returns its code and the memory; the linker's own state is the memory, the pool
-- for new objects and the last resolution, which is not reset between relocations.
pub mod Pool
pub mod Touched
pub mod Reached
pub mod Walk
pub mod Write
use uld_fdpic.Common.{
  ℕ, zero, suc, ◌+◌, ◌-◌, ◌*◌, ◌/◌, ◌^◌, Bool, true, false, not, ◌&&◌, ◌||◌, Option, none, some,
  List, [], ◌∷◌, ◌==◌, ltb, if◌then◌else◌, get_elem?, length, ℤ, pos, negsuc, is_nonzero, is_zero,
}
use uld_fdpic.Mem.{Mem, null, add32, sub32, align, read32, write32}
use uld_fdpic.Libc.{memset}
use uld_fdpic.Elf.Fields.{
  r_type, r_offset, st_size, r_arm_abs32, r_arm_relative, r_arm_glob_dat, r_arm_funcdesc,
  r_arm_funcdesc_value,
}
use uld_fdpic.Sal.{Section}
use uld_fdpic.File.{UldFile, uld_file_lma_to_adjusted_vma}
use uld_fdpic.Dyn.Symbols.{sec_dynstr, sec_dynsym}
use uld_fdpic.Dyn.Resolve.{Resolution, sec_rel_dyn, rel_count, rel_at, uld_dyn_resolve_rel}

pub record Linker : Type 0 where
  pub memory : Mem
  pub dl_alloc_base : ℕ
  pub dla_size : ℕ
  pub res : Resolution

-- Where the relocation's offset lies in memory.
abbrev pub rel_dst : Mem → UldFile → ℕ → ℕ
rel_dst m f rel = uld_file_lma_to_adjusted_vma m f (r_offset m rel)

-- `uld_file_lma_to_adjusted_vma(&ufile_list[res->file_idx], res->ptr)`.
unfoldable pub res_vma : Mem → List UldFile → Resolution → ℕ
res_vma m files res = elim (get_elem? files res.file_idx) [
  | none ↦ null
  | some f ↦ uld_file_lma_to_adjusted_vma m f res.ptr
]

-- The address that a resolution gives: in its file, or as it is.
abbrev pub res_addr : Mem → List UldFile → Resolution → ℕ
res_addr m files res = if res.membase == null then res.ptr else res_vma m files res

unfoldable pub uld_dyn_update_relative : Mem → UldFile → ℕ → ℤ × Mem
uld_dyn_update_relative m f rel =
    let dst = rel_dst m f rel in
    if dst == null
    then (negsuc 0, m)
    else (pos 0, write32 m dst (uld_file_lma_to_adjusted_vma m f (read32 m dst)))

unfoldable pub uld_dyn_write_reso_abs32 : Mem → List UldFile → UldFile → ℕ → Resolution → ℤ × Mem
uld_dyn_write_reso_abs32 m files f rel res =
    let dst = rel_dst m f rel in
    if dst == null then (negsuc 0, m) else (pos 0, write32 m dst (res_addr m files res))

-- The end of an object of the matching symbol's size at the pool's base.
abbrev pub pool_end : Mem → ℕ → Resolution → ℕ
pool_end m base res = align (add32 base (st_size m res.match_sym)) 2

unfoldable pub uld_dyn_write_reso_glob_dat : List UldFile → UldFile → ℕ → Linker → ℤ × Linker
uld_dyn_write_reso_glob_dat files f rel st =
    let m = st.memory in
    let dst = rel_dst m f rel in
    let end = pool_end m st.dl_alloc_base st.res in
    if dst == null
    then (negsuc 0, st)
    else if st.res.ptr == null
    then (
      pos 0,
      record st {
        memory =
            write32 (memset m st.dl_alloc_base 0 (st_size m st.res.match_sym)).1 dst
              st.dl_alloc_base;
        dl_alloc_base = end;
        dla_size = add32 st.dla_size (sub32 end st.dl_alloc_base);
      },
    )
    else (pos 0, record st { memory = write32 m dst (res_addr m files st.res) })

unfoldable pub uld_dyn_write_reso_funcdesc_value_dst : Mem → ℕ → List UldFile → Resolution → Mem
uld_dyn_write_reso_funcdesc_value_dst m dst files res =
    write32 (write32 m dst (res_vma m files res)) (add32 dst 4) res.membase

unfoldable pub uld_dyn_write_reso_funcdesc : List UldFile → UldFile → ℕ → Linker → ℤ × Linker
uld_dyn_write_reso_funcdesc files f rel st =
    let m = st.memory in
    let dst = rel_dst m f rel in
    if dst == null
    then (negsuc 0, st)
    else if st.res.membase == null
    then (pos 0, record st { memory = write32 m dst st.res.ptr })
    else (
      pos 0,
      record st {
        memory =
            write32 (uld_dyn_write_reso_funcdesc_value_dst m st.dl_alloc_base files st.res) dst
              st.dl_alloc_base;
        dl_alloc_base = add32 st.dl_alloc_base 8;
        dla_size = add32 st.dla_size 8;
      },
    )

unfoldable pub uld_dyn_write_reso_funcdesc_value :
    Mem → List UldFile → UldFile → ℕ → Resolution → ℤ × Mem
uld_dyn_write_reso_funcdesc_value m files f rel res =
    let dst = rel_dst m f rel in
    let first = write32 m dst (read32 m res.ptr) in
    if dst == null
    then (negsuc 0, m)
    else if res.membase == null
    then (pos 0, write32 first (add32 dst 4) (read32 first (add32 res.ptr 4)))
    else (pos 0, uld_dyn_write_reso_funcdesc_value_dst m dst files res)

-- `if (!ret)` in front of a write whose code is dropped.
abbrev pub if_resolved : ℤ → Linker → Linker → ℤ × Linker
if_resolved ret st written = (ret, (if is_zero ret then written else st))

-- The switch on the relocation's type, for the file `f` at `file_idx`.
unfoldable pub link_rel : List UldFile → ℕ → UldFile → ℕ → ℕ → Linker → ℤ × Linker
link_rel files file_idx f rel rd_idx st =
    let m = st.memory in
    let type = r_type m rel in
    let resolved = uld_dyn_resolve_rel m files rel file_idx rd_idx st.res in
    let kept = record st { res = resolved.1 } in
    let moved = uld_dyn_update_relative m f rel in
    let abs = uld_dyn_write_reso_abs32 m files f rel resolved.1 in
    let value = uld_dyn_write_reso_funcdesc_value m files f rel resolved.1 in
    let desc = uld_dyn_write_reso_funcdesc files f rel kept in
    if type == r_arm_abs32
    then if_resolved resolved.0 kept (record kept { memory = abs.1 })
    else if type == r_arm_relative
    then (moved.0, record st { memory = moved.1 })
    else if type == r_arm_glob_dat
    then uld_dyn_write_reso_glob_dat files f rel kept
    else if type == r_arm_funcdesc
    then if_resolved resolved.0 kept desc.1
    else if type == r_arm_funcdesc_value
    then if_resolved resolved.0 kept (record kept { memory = value.1 })
    else (negsuc 0, st)

-- `if (ret) return -1;` in front of what follows.
abbrev pub after_rel : (Linker → ℤ × Linker) → ℤ × Linker → ℤ × Linker
after_rel rest r = if is_nonzero r.0 then (negsuc 0, r.1) else rest r.1

-- The relocations of one file from index `idx` on. The size of the table is read again for each;
-- no table has 2 ^ 29 entries of 8 bytes.
unfoldable pub link_rels : List UldFile → ℕ → UldFile → Section → ℕ → ℕ → Linker → ℤ × Linker
link_rels files file_idx f rel_dyn zero idx st = (pos 0, st)
link_rels files file_idx f rel_dyn (suc left) idx st =
    elim (ltb idx (rel_count st.memory (some rel_dyn))) [
      | false ↦ (pos 0, st)
      | true ↦
          after_rel (λ s. link_rels files file_idx f rel_dyn left (idx + 1) s)
            (link_rel files file_idx f (rel_at rel_dyn.adjusted_lma idx) idx st)
    ]

abbrev pub is_missing : Option Section → Bool
is_missing none = true
is_missing (some s) = false

unfoldable pub link_file : List UldFile → ℕ → UldFile → Linker → ℤ × Linker
link_file files file_idx f st = elim (sec_rel_dyn st.memory f) [
  | none ↦ (pos 0, st)
  | some rel_dyn ↦
      if is_missing (sec_dynsym st.memory f) || is_missing (sec_dynstr st.memory f)
      then (negsuc 0, st)
      else link_rels files file_idx f rel_dyn (2 ^ 29) 0 st
]

-- The files `fs`, the first of which has index `file_idx`.
unfoldable pub link_files : List UldFile → ℕ → List UldFile → Linker → ℤ × Linker
link_files files file_idx [] st = (pos 0, st)
link_files files file_idx (f ∷ fs) st =
    after_rel (λ s. link_files files (file_idx + 1) fs s) (link_file files file_idx f st)

-- `*dl_alloc_size` is tested for NULL by `wants_size` and not written. `res` is the uninitialised
-- local.
unfoldable pub uld_dyn_link_file_list : Mem → List UldFile → ℕ → Bool → Resolution → ℤ × Linker
uld_dyn_link_file_list m files dl_alloc_base wants_size res =
    let st : Linker = record {
      memory = m;
      dl_alloc_base = dl_alloc_base;
      dla_size = 0;
      res = res;
    } in
    if (length files == 0) || (dl_alloc_base == null) || not wants_size
    then (negsuc 0, st)
    else link_files files 0 files st
