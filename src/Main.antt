-- ===== src/Main.antt =====
-- src/uld.c: what the program does for each boot action. The list of files and the store are read
-- from memory, at `pstore`.
use uld_fdpic.Common.{
  ℕ, zero, suc, ◌+◌, ◌^◌, Bool, true, false, Option, none, some, List, [], ◌∷◌, ◌==◌, if◌then◌else◌,
  ℤ, pos,
}
use uld_fdpic.Mem.{Mem, null, read32}
use uld_fdpic.Fs.{FsEntry, Pstore, uld_fs_get_file_by_name, uld_fs_find_free_space}
use uld_fdpic.Sal.Crc.{fs_entry_at, table_base, table_size, table_crc}
use uld_fdpic.Cpu.{Flash}
use uld_fdpic.Reloc.{uld_reloc_move_fse}
use uld_fdpic.Dyn.ExecFse.{Machine, uld_dyn_exec_fse}

-- The list behind `head`; no list has more entries than the address space has bytes.
read_entries : ℕ → Mem → ℕ → List FsEntry
read_entries zero m p = []
read_entries (suc left) m p = elim (p == null) [
  | true ↦ []
  | false ↦ fs_entry_at m p ∷ read_entries left m (read32 m (p + 4))
]

unfoldable pub files_at : Mem → ℕ → List FsEntry
unfolding read_entries
files_at m pstore = read_entries (2 ^ 32) m (read32 m (pstore + 12))

unfoldable pub pstore_at : Mem → ℕ → Pstore
pstore_at m pstore = record {
  boot_action = read32 m pstore;
  files_base = read32 m (pstore + 4);
  files_size = read32 m (pstore + 8);
  files = files_at m pstore;
  table_base = table_base m pstore;
  table_size = table_size m pstore;
  table_crc = table_crc m pstore;
}

-- What the switch sets.
pub record Setup : Type 0 where
  pub uld_verbose : ℕ
  pub exec_name : List ℕ
  pub move_name : Option (List ℕ)
  pub argc : ℕ
  pub argv : Option (List (List ℕ))
  pub on_estack : Bool

abbrev pub hello_world_static_elf : List ℕ
hello_world_static_elf =
    104 ∷ 101 ∷ 108 ∷ 108 ∷ 111 ∷ 95 ∷ 119 ∷ 111 ∷ 114 ∷ 108 ∷ 100 ∷ 95 ∷ 115 ∷ 116 ∷ 97 ∷ 116 ∷ 105
    ∷ 99 ∷ 46 ∷ 101 ∷ 108 ∷ 102 ∷ []

abbrev pub hello_world_elf : List ℕ
hello_world_elf =
    104 ∷ 101 ∷ 108 ∷ 108 ∷ 111 ∷ 95 ∷ 119 ∷ 111 ∷ 114 ∷ 108 ∷ 100 ∷ 46 ∷ 101 ∷ 108 ∷ 102 ∷ []

abbrev pub dyn_test_elf : List ℕ
dyn_test_elf = 100 ∷ 121 ∷ 110 ∷ 95 ∷ 116 ∷ 101 ∷ 115 ∷ 116 ∷ 46 ∷ 101 ∷ 108 ∷ 102 ∷ []

abbrev pub libexc_so : List ℕ
libexc_so = 108 ∷ 105 ∷ 98 ∷ 101 ∷ 120 ∷ 99 ∷ 46 ∷ 115 ∷ 111 ∷ []

-- The texts "moved", "hello", "world", "woof", "bark", "stack", "reset".
abbrev moved_text : List ℕ
moved_text = 109 ∷ 111 ∷ 118 ∷ 101 ∷ 100 ∷ []

abbrev hello_text : List ℕ
hello_text = 104 ∷ 101 ∷ 108 ∷ 108 ∷ 111 ∷ []

abbrev world_text : List ℕ
world_text = 119 ∷ 111 ∷ 114 ∷ 108 ∷ 100 ∷ []

abbrev woof_text : List ℕ
woof_text = 119 ∷ 111 ∷ 111 ∷ 102 ∷ []

abbrev bark_text : List ℕ
bark_text = 98 ∷ 97 ∷ 114 ∷ 107 ∷ []

abbrev stack_text : List ℕ
stack_text = 115 ∷ 116 ∷ 97 ∷ 99 ∷ 107 ∷ []

abbrev reset_text : List ℕ
reset_text = 114 ∷ 101 ∷ 115 ∷ 101 ∷ 116 ∷ []

-- Action 1 sets its own arguments, which the fall through into action 2 replaces; `uld_verbose`
-- stays. `none` is the default case, which leaves the name to run unset.
unfoldable pub boot_setup : ℕ → Option Setup
boot_setup action =
    if action == 0
    then some (record {
      uld_verbose = 0;
      exec_name = hello_world_static_elf;
      move_name = none;
      argc = 0;
      argv = none;
      on_estack = false;
    })
    else if action == 1
    then some (record {
      uld_verbose = 1;
      exec_name = hello_world_elf;
      move_name = some hello_world_elf;
      argc = 3;
      argv = some (moved_text ∷ hello_text ∷ world_text ∷ []);
      on_estack = false;
    })
    else if action == 2
    then some (record {
      uld_verbose = 0;
      exec_name = hello_world_elf;
      move_name = some hello_world_elf;
      argc = 3;
      argv = some (moved_text ∷ hello_text ∷ world_text ∷ []);
      on_estack = false;
    })
    else if action == 3
    then some (record {
      uld_verbose = 0;
      exec_name = dyn_test_elf;
      move_name = none;
      argc = 2;
      argv = some (woof_text ∷ bark_text ∷ []);
      on_estack = false;
    })
    else if action == 4
    then some (record {
      uld_verbose = 2;
      exec_name = dyn_test_elf;
      move_name = none;
      argc = 0;
      argv = none;
      on_estack = false;
    })
    else if action == 5
    then some (record {
      uld_verbose = 1;
      exec_name = dyn_test_elf;
      move_name = some libexc_so;
      argc = 2;
      argv = some (moved_text ∷ libexc_so ∷ []);
      on_estack = false;
    })
    else if action == 6
    then some (record {
      uld_verbose = 0;
      exec_name = dyn_test_elf;
      move_name = none;
      argc = 2;
      argv = some (stack_text ∷ reset_text ∷ []);
      on_estack = true;
    })
    else none

-- `none` is a stop at a breakpoint that a NULL pointer follows.
module _ (mc : Machine) (pstore estack : ℕ) where
  -- `if (move_name)`: the file moves to the free space that is found, if any; the result of the
  -- move is not looked at.
  unfoldable pub move_named : Flash → Option (List ℕ) → Option Flash
  move_named f none = some f
  move_named f (some move_name) =
      let ps = pstore_at f.memory pstore in
      elim (uld_fs_get_file_by_name ps.files move_name) [
        | none ↦ none
        | some fse ↦
            let ufile_dest = uld_fs_find_free_space (some ps) fse.size in
            some (uld_reloc_move_fse f pstore mc.unset fse.at ufile_dest).1
      ]

  unfoldable pub start_moved : Setup → FsEntry → Option Flash → Option (ℤ × Mem)
  start_moved s exec_fse none = none
  start_moved s exec_fse (some f) =
      uld_dyn_exec_fse mc f.memory (files_at f.memory pstore)
        (some (fs_entry_at f.memory exec_fse.at)) (if s.on_estack then estack else null)
        (pos s.argc) s.argv

  unfoldable pub start : Flash → Option Setup → Option (ℤ × Mem)
  start f none = none
  start f (some s) = elim (uld_fs_get_file_by_name (files_at f.memory pstore) s.exec_name) [
    | none ↦ none
    | some exec_fse ↦ start_moved s exec_fse (move_named f s.move_name)
  ]

  unfoldable pub uld_main : Flash → Option (ℤ × Mem)
  uld_main f = start f (boot_setup (read32 f.memory pstore))
