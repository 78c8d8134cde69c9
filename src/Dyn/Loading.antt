-- ===== src/Dyn/Loading.antt =====
-- `uld_dyn_load_fse_dep_list` of src/uld_dyn.c: the files of the dependency list, loaded one
-- behind the other, and the number of sections that they need.
pub mod OneFile
pub mod Areas
pub mod Entries
use uld_fdpic.Common.{
  ℕ, ◌-◌, ◌+◌, Bool, true, false, ◌&&◌, not, List, [], ◌∷◌, map, if◌then◌else◌, ℤ, pos, negsuc,
  is_neg, is_nonzero, ◌+ℤ◌,
}
use uld_fdpic.Mem.{Mem, null, add32, sub32}
use uld_fdpic.Fs.{FsEntry}
use uld_fdpic.File.{UldFile, uld_file_get_sec_count}
use uld_fdpic.Sal.{Section, flag_none}
use uld_fdpic.Load.{uld_load_get_sec_count, uld_load_get_next_membase}
use uld_fdpic.Load.LoadFile.{uld_load_file}

-- Flash and memory sections; the linking tables count as flash.
abbrev pub uld_dyn_load_section_type_mask : ℕ
uld_dyn_load_section_type_mask = 0x00000030

unfoldable pub uld_dyn_get_dep_list_sec_count : Mem → List FsEntry → ℕ → ℤ
uld_dyn_get_dep_list_sec_count m [] mask = pos 0
uld_dyn_get_dep_list_sec_count m (e ∷ es) mask =
    uld_dyn_get_dep_list_sec_count m es mask +ℤ uld_load_get_sec_count m e.base null mask

-- What `memset` leaves in a section and in a file.
abbrev pub zero_section : Section
zero_section = record {
  ehdr = null;
  phdr = null;
  shdr = null;
  name = null;
  lma = null;
  adjusted_lma = null;
  faddr = null;
  adjusted_vma = null;
  flags = flag_none;
  phidx = pos 0;
  shidx = pos 0;
}

abbrev pub zero_file : FsEntry → UldFile
zero_file nothing = record {
  fse = nothing;
  flash = [];
  mem = [];
  other = [];
  adjusted_entry = null;
  membase = null;
  memsz = 0;
  flags = 0;
}

-- The result, `load_file_membase`, `load_file_allocated`, the memory and `ufile_list`.
pub record Loaded : Type 0 where
  pub ret : ℤ
  pub membase : ℕ
  pub allocated : ℕ
  pub memory : Mem
  pub files : List UldFile

-- A file that is not reached stays zero; `none_entry` is the entry that NULL stands for.
module _ (bss_end : ℕ) (none_entry : FsEntry) (unset : Section) where
  -- `left` slots of the list of sections are still unused.
  unfoldable pub load_deps : Mem → ℕ → ℕ → ℕ → List FsEntry → Loaded
  load_deps m left membase allocated [] = record {
    ret = pos 0;
    membase = membase;
    allocated = allocated;
    memory = m;
    files = [];
  }
  load_deps m left membase allocated (e ∷ es) =
      let r =
        uld_load_file bss_end m true (zero_file none_entry) e zero_section unset left
          uld_dyn_load_section_type_mask membase allocated in
      let rest =
        load_deps r.memory (left - uld_file_get_sec_count r.file) r.membase r.allocated es in
      if is_nonzero r.ret
      then record {
        ret = r.ret;
        membase = r.membase;
        allocated = r.allocated;
        memory = r.memory;
        files = r.file ∷ map (λ x. zero_file none_entry) es;
      }
      else record rest { files = r.file ∷ rest.files }

  -- `given` says that no pointer is NULL. In the result `membase` and `allocated` are what is
  -- stored behind those pointers.
  unfoldable pub uld_dyn_load_fse_dep_list :
      Mem → Bool → List FsEntry → List UldFile → ℤ → ℕ → ℕ → Loaded
  uld_dyn_load_fse_dep_list m given deps old (negsuc _) membase allocated = record {
    ret = negsuc 0;
    membase = membase;
    allocated = allocated;
    memory = m;
    files = old;
  }
  uld_dyn_load_fse_dep_list m given deps old (pos sec_count) membase allocated =
      let start = uld_load_get_next_membase bss_end membase 0 in
      let out = load_deps m sec_count start 0 deps in
      if not given
      then record {
        ret = negsuc 0;
        membase = membase;
        allocated = allocated;
        memory = m;
        files = old;
      }
      else if is_nonzero out.ret
      then record out { membase = start; allocated = allocated }
      else record out { membase = start; allocated = add32 (sub32 out.membase start) out.allocated }
