-- ===== src/Dyn/ExecFse.antt =====
-- `uld_dyn_exec_fse` of src/uld_dyn.c: the list of dependencies, the loading, the linking and the
-- calls. As in the code, the results of the steps are printed and not looked at. Printing is left
-- out. The loaded code is a parameter, as in Exec.
pub mod Runs
pub mod Order
use uld_fdpic.Common.{
  ℕ, ◌-◌, true, Option, none, some, List, [], ◌∷◌, get_elem?, length, ℤ, pos, negsuc,
}
use uld_fdpic.Mem.{Mem, null, add32}
use uld_fdpic.Fs.{FsEntry}
use uld_fdpic.File.{UldFile}
use uld_fdpic.Sal.{Section}
use uld_fdpic.Dyn.Deps.{uld_dyn_create_fse_dep_list, uld_dyn_get_fse_dep_count}
use uld_fdpic.Dyn.Resolve.{Resolution}
use uld_fdpic.Dyn.Link.{uld_dyn_link_file_list}
use uld_fdpic.Dyn.Loading.{
  uld_dyn_load_section_type_mask, uld_dyn_get_dep_list_sec_count, uld_dyn_load_fse_dep_list,
}
use uld_fdpic.Exec.{uld_exec_elf_call_init_funcs, uld_exec_file}

-- The environment of a run: the end of the loader's data, what local variables hold before they
-- are set, the depth of the dependency search, and the loaded code.
pub record Machine : Type 0 where
  pub bss_end : ℕ
  pub none_entry : FsEntry
  pub unset : Section
  pub res : Resolution
  pub depth : ℕ
  pub call : ℕ → ℕ → Mem → Mem
  pub call_entry : ℕ → ℕ → ℕ → Option (List (List ℕ)) → ℕ → Mem → ℤ × Mem

module _ (mc : Machine) where
  -- The init functions of every file, in the order of the list.
  unfoldable pub call_inits : List UldFile → Mem → Mem
  call_inits [] m = m
  call_inits (f ∷ fs) m = call_inits fs (uld_exec_elf_call_init_funcs mc.call (some f) m).1

  -- From the loading on, with the list of dependencies.
  unfoldable pub run_deps : Mem → List FsEntry → ℕ → ℕ → ℤ → Option (List (List ℕ)) → ℤ × Mem
  run_deps m deps sec_count sp_base argc argv =
      let l =
        uld_dyn_load_fse_dep_list mc.bss_end mc.none_entry mc.unset m true deps [] (pos sec_count)
          null 0 in
      let linked =
        uld_dyn_link_file_list l.memory l.files (add32 l.membase l.allocated) true mc.res in
      let inited = call_inits l.files linked.1.memory in
      let ran =
        uld_exec_file mc.call_entry (get_elem? l.files (length deps - 1)) sp_base argc argv
          inited in
      (pos 0, ran.1)

  -- `none` is a run that does not return here: a search without end, or a negative number of
  -- files or sections, which the code passes to `alloca`.
  unfoldable pub uld_dyn_exec_fse :
      Mem → List FsEntry → Option FsEntry → ℕ → ℤ → Option (List (List ℕ)) → Option (ℤ × Mem)
  uld_dyn_exec_fse m files none sp_base argc argv = none
  uld_dyn_exec_fse m files (some fse) sp_base argc argv =
      elim (uld_dyn_get_fse_dep_count m mc.unset files mc.depth (some fse)) [
        | none ↦ none
        | some (negsuc _) ↦ none
        | some (pos n) ↦ elim (uld_dyn_create_fse_dep_list m mc.unset files mc.depth fse [] n) [
          | none ↦ none
          | some (r, deps) ↦
              elim (uld_dyn_get_dep_list_sec_count m deps uld_dyn_load_section_type_mask) [
                | negsuc _ ↦ none
                | pos sec_count ↦ some (run_deps m deps sec_count sp_base argc argv)
              ]
        ]
      ]
