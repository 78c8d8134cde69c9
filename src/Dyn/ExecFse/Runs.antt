-- ===== src/Dyn/ExecFse/Runs.antt =====
-- What `uld_dyn_exec_fse` runs, once the dependencies are found and loaded.
use mathlib.Core.Path.{subst}
use uld_fdpic.Common.{
  ℕ, zero, suc, ◌-◌, ◌%◌, ◌<◌, ◌≡◌, refl, ap, ◌∙◌, arith, inl, inr, true, Option, some, List, [],
  ◌∷◌, ◌++◌, get_elem?, length, length-append, ℤ, pos,
}
use uld_fdpic.Mem.{Mem, null, add32}
use uld_fdpic.Elf.{elf32_get_adjusted_entry}
use uld_fdpic.Fs.{FsEntry, uld_fs_get_file_count}
use uld_fdpic.File.{UldFile}
use uld_fdpic.Dyn.Deps.{
  requirements, dep_list, uld_dyn_create_fse_dep_list, uld_dyn_get_fse_dep_count,
}
use uld_fdpic.Dyn.Deps.Needs.{Listed, Ordered, IsAcyclic}
use uld_fdpic.Dyn.Deps.Order.{Reached, dep_list-Reached}
use uld_fdpic.Dyn.Deps.Exact.{dep_list-Same}
use uld_fdpic.Dyn.Link.{uld_dyn_link_file_list}
use uld_fdpic.Dyn.Loading.{
  Loaded, uld_dyn_load_section_type_mask, uld_dyn_get_dep_list_sec_count, uld_dyn_load_fse_dep_list,
}
use uld_fdpic.Dyn.Loading.Entries.{entries, load_fse_dep_list-entries}
use uld_fdpic.Exec.{uld_exec_file}
use uld_fdpic.Dyn.ExecFse.{Machine, call_inits, run_deps, uld_dyn_exec_fse}

-- The file at the place of the last entry.
record LastFile (fs : List UldFile) (e : FsEntry) (n : ℕ) : Type 0 where
  before : List UldFile
  file : UldFile
  split : fs ≡ before ++ file ∷ []
  entry : file.fse ≡ e
  at : get_elem? fs n ≡ some file

entries-LastFile :
    (fs : List UldFile) (es : List FsEntry) (e : FsEntry)
    → entries fs ≡ es ++ e ∷ []
    → LastFile fs e (length es)
entries-LastFile [] [] e h = cc
entries-LastFile [] (x ∷ es) e h = cc
entries-LastFile (f ∷ []) [] e h = record {
  before = [];
  file = f;
  split = refl;
  entry = cc;
  at = refl;
}
entries-LastFile (f ∷ g ∷ fs) [] e h = cc
entries-LastFile (f ∷ fs) (x ∷ es) e h =
    let same : entries fs ≡ es ++ e ∷ [] = cc in
    let rest = entries-LastFile fs es e same in
    record {
      before = f ∷ rest.before;
      file = rest.file;
      split = ap (λ l. f ∷ l) rest.split;
      entry = rest.entry;
      at = rest.at;
    }

exec_file-eq :
    (call_entry : ℕ → ℕ → ℕ → Option (List (List ℕ)) → ℕ → Mem → ℤ × Mem) (f : UldFile)
    (sp_base argc : ℕ) (argv : List (List ℕ)) (m : Mem)
    → uld_exec_file call_entry (some f) sp_base (pos argc) (some argv) m
      ≡ call_entry
          (elf32_get_adjusted_entry m f.fse.base null)
          (sp_base - sp_base % 8)
          argc
          (some argv)
          f.membase
          m
unfolding uld_exec_file
exec_file-eq call_entry f sp_base zero argv m = refl
exec_file-eq call_entry f sp_base (suc argc) argv m = refl

module _ (mc : Machine) (m : Mem) (files : List FsEntry) (rank : ℕ → ℕ)
    (acyclic : IsAcyclic (requirements m mc.unset) files rank) where
  abbrev pub loaded : List FsEntry → ℕ → Loaded
  loaded deps sec_count =
      uld_dyn_load_fse_dep_list mc.bss_end mc.none_entry mc.unset m true deps [] (pos sec_count)
        null 0

  -- The memory in front of the entry's call.
  abbrev pub inited : Loaded → Mem
  inited l =
      call_inits mc l.files
        (uld_dyn_link_file_list l.memory l.files (add32 l.membase l.allocated) true mc.res).1.memory

  abbrev run : List FsEntry → Option FsEntry → ℕ → ℕ → List (List ℕ) → Option (ℤ × Mem)
  run deps fse sp_base argc argv = uld_dyn_exec_fse mc m files fse sp_base (pos argc) (some argv)

  -- The files of `deps` are loaded in that order, which ends in `fse`, each behind all that it
  -- needs; and the run ends with the entry of `fse`, on its base.
  pub record Runs (fse : FsEntry) (deps : List FsEntry) (l : Loaded) (sp_base argc : ℕ)
      (argv : List (List ℕ)) : Type 0 where
    pub before : List UldFile
    pub file : UldFile
    pub split : l.files ≡ before ++ file ∷ []
    pub entry : file.fse ≡ fse
    pub all_entries : entries l.files ≡ deps
    pub ordered : Ordered (requirements m mc.unset) files [] deps
    pub returns :
        uld_dyn_exec_fse mc m files (some fse) sp_base (pos argc) (some argv)
        ≡ some (
          pos 0,
          (mc.call_entry
              (elf32_get_adjusted_entry (inited l) file.fse.base null)
              (sp_base - sp_base % 8)
              argc
              (some argv)
              file.membase
              (inited l)).1,
        )

  -- The order of the list, and its last file.
  found_order :
      (fse : FsEntry) (deps : List FsEntry)
      → Reached
          (requirements m mc.unset)
          files
          (uld_fs_get_file_count files)
          rank
          acyclic
          fse
          []
          (some (pos 0, deps))
      → Ordered (requirements m mc.unset) files [] deps
        × ((es : List FsEntry) × (deps ≡ es ++ fse ∷ []))
  found_order fse deps (kept, there, inl (old, e)) = cc
  found_order fse deps (kept, there, inr (es, e, below)) = (kept.0, (es, e))

  -- With the list found, the count is exact and so is the second search.
  exec_fse-run_deps :
      (fse : FsEntry) (deps : List FsEntry) (sec_count sp_base : ℕ) (argc : ℤ)
      (argv : Option (List (List ℕ)))
      → uld_dyn_create_fse_dep_list m mc.unset files mc.depth fse [] (uld_fs_get_file_count files)
        ≡ some (pos 0, deps)
      → uld_dyn_get_dep_list_sec_count m deps uld_dyn_load_section_type_mask ≡ pos sec_count
      → uld_dyn_exec_fse mc m files (some fse) sp_base argc argv
        ≡ some (run_deps mc m deps sec_count sp_base argc argv)
  unfolding uld_dyn_exec_fse uld_dyn_get_fse_dep_count
  exec_fse-run_deps fse deps sec_count sp_base argc argv found count =
      let again : uld_dyn_create_fse_dep_list m mc.unset files mc.depth fse [] (length deps)
          ≡ some (pos 0, deps) =
        unfold uld_dyn_create_fse_dep_list in
        (dep_list-Same (requirements m mc.unset) files (uld_fs_get_file_count files) (length deps)
            mc.depth fse [] deps found).1
          (omega arith) in
      let exact : uld_dyn_get_fse_dep_count m mc.unset files mc.depth (some fse)
          ≡ some (pos (length deps)) =
        rw (uld_dyn_get_fse_dep_count, found) refl in
      rw (uld_dyn_exec_fse, exact, again, count) refl

  -- Let no file need itself, directly or through others, and let the search for a file of the table
  -- find its dependencies, and their loading succeed. Then `uld_dyn_exec_fse`, which searches twice,
  -- first for the size of the list, loads the files of that list in its order, in which each stands
  -- behind all that it needs and the file itself last; and it returns 0 with the memory that the
  -- entry of that file leaves, called on the file's base behind the init functions of all files.
  pub exec_fse-Runs :
      (fse : FsEntry) (deps : List FsEntry) (sec_count sp_base argc : ℕ) (argv : List (List ℕ))
      → Listed fse files
      → rank fse.at < mc.depth
      → uld_dyn_create_fse_dep_list m mc.unset files mc.depth fse [] (uld_fs_get_file_count files)
        ≡ some (pos 0, deps)
      → uld_dyn_get_dep_list_sec_count m deps uld_dyn_load_section_type_mask ≡ pos sec_count
      → (loaded deps sec_count).ret ≡ pos 0
      → Runs fse deps (loaded deps sec_count) sp_base argc argv
  unfolding run_deps
  exec_fse-Runs fse deps sec_count sp_base argc argv here deep found count fine =
      let l = loaded deps sec_count in
      let reached =
        dep_list-Reached (requirements m mc.unset) files (uld_fs_get_file_count files) rank acyclic
          mc.depth fse [] here deep (tt, omega arith) in
      let listed : dep_list (requirements m mc.unset) files (uld_fs_get_file_count files) mc.depth
            fse []
          ≡ some (pos 0, deps) =
        unfold uld_dyn_create_fse_dep_list in found in
      let (ordered, (es, last)) = found_order fse deps (
        subst
          (Reached (requirements m mc.unset) files (uld_fs_get_file_count files) rank acyclic fse
            [])
          listed reached) in
      let all =
        load_fse_dep_list-entries mc.bss_end mc.none_entry mc.unset m deps [] sec_count null 0
          fine in
      let top = entries-LastFile l.files es fse (all ∙ last) in
      let place : length deps - 1 ≡ length es =
        omega (arith, ap length last, length-append es (fse ∷ [])) in
      let run = exec_fse-run_deps fse deps sec_count sp_base (pos argc) (some argv) found count in
      record {
        before = top.before;
        file = top.file;
        split = top.split;
        entry = top.entry;
        all_entries = all;
        ordered = ordered;
        returns =
            run
            ∙ rw (run_deps, place, top.at)
                (ap (λ r. some (pos 0, r.1))
                  (exec_file-eq mc.call_entry top.file sp_base argc argv (inited l)));
      }
