-- ===== src/Load/LoadFile.antt =====
-- `uld_load_file` of src/uld_load.c: a file's sections, its area of memory, and its fixups.
pub mod Frame
use uld_fdpic.Common.{
  ℕ, Bool, true, false, Option, none, some, List, [], ◌∷◌, ◌==◌, if◌then◌else◌, length, ℤ, pos,
  negsuc, is_nonzero,
}
use uld_fdpic.Mem.{Mem, null}
use uld_fdpic.Fs.{FsEntry}
use uld_fdpic.File.{UldFile}
use uld_fdpic.Sal.{Section}
use uld_fdpic.Load.{
  AllocResult, uld_load_create_file, uld_load_get_next_membase, uld_load_alloc_mem_sections,
}
use uld_fdpic.Rofixup.{FixupResult, uld_rofixup_apply_mem_fixups}

-- The result, `*membase`, `*allocated`, the memory and `*ufile`.
pub record LoadResult : Type 0 where
  pub ret : ℤ
  pub membase : ℕ
  pub allocated : ℕ
  pub memory : Mem
  pub file : UldFile

-- `if (ufile->num.mem)`, with the new base `mb`. `unset` is what the local section of the fixups
-- holds.
unfoldable pub load_mem : Mem → UldFile → Section → ℕ → ℕ → ℕ → LoadResult
load_mem m u unset ehdr mb allocated =
    let placed = uld_load_alloc_mem_sections m ehdr mb allocated u.mem in
    let based = record u { membase = mb; mem = placed.sections } in
    let fixed = uld_rofixup_apply_mem_fixups placed.memory unset ehdr null placed.sections mb in
    if is_nonzero placed.ret
    then record {
      ret = placed.ret;
      membase = mb;
      allocated = placed.allocated;
      memory = placed.memory;
      file = based;
    }
    else record {
      ret = fixed.ret;
      membase = mb;
      allocated = placed.allocated;
      memory = fixed.memory;
      file = record based { memsz = placed.allocated; mem = fixed.sections };
    }

-- `given` says that `membase` and `allocated` are not NULL, `old` is what `*ufile` held.
unfoldable pub uld_load_file :
    ℕ → Mem → Bool → UldFile → FsEntry → Section → Section → ℕ → ℕ → ℕ → ℕ → LoadResult
uld_load_file bss_end m given old fse blank unset snum mask membase allocated =
    let refused : LoadResult = record {
      ret = negsuc 0;
      membase = membase;
      allocated = allocated;
      memory = m;
      file = old;
    } in
    elim given [
      | false ↦ refused
      | true ↦ elim (uld_load_create_file m fse blank snum mask) as (λ x. LoadResult) [
        | none ↦ refused
        | some u ↦
            if length u.mem == 0
            then record refused { ret = pos 0; file = u }
            else load_mem m u unset fse.base (uld_load_get_next_membase bss_end membase allocated)
                allocated
      ]
    ]
