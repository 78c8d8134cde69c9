-- ===== src/Tests/Store.antt =====
-- The store of two files.
use uld_fdpic.Common.{◌+◌, ◌%◌, ◌<◌, ◌≤◌, refl, ◌≡◌, ◌≢◌, arith, ◌⊎◌, inr, some, [], ◌∷◌, All}
use uld_fdpic.Mem.{null}
use uld_fdpic.Fs.{Pstore, uld_fs_find_free_space}
use uld_fdpic.Fs.Sorted.{Clear}
use uld_fdpic.Fs.Space.{IsStore, rounded, find_free_space_sound, find_free_space_complete}
use uld_fdpic.Load.{uld_load_get_next_membase}
use uld_fdpic.Load.Membase.{next_membase_lem}
use uld_fdpic.Tests.{file_a, file_b}

abbrev store : Pstore
store = record {
  boot_action = 0;
  files_base = 0x1000;
  files_size = 0x1000;
  files = file_b ∷ file_a ∷ [];
  table_base = 0x800;
  table_size = 64;
  table_crc = 0;
}

store-IsStore : IsStore store
store-IsStore = record {
  base_pos = omega arith;
  area = omega arith;
  apart = (omega arith, omega arith, (inr (omega arith), tt), (omega arith, omega arith, tt, tt));
  above = (omega arith, (omega arith, tt));
}

-- The space for 20 bytes is right behind the first file, off the multiples of 8.
free_behind_a : uld_fs_find_free_space (some store) 20 ≡ 0x1064
unfolding uld_fs_find_free_space
free_behind_a = refl

find_free_space_sound_example :
    let found = uld_fs_find_free_space (some store) 20 in
    (found ≡ null)
    ⊎ (0x1000 ≤ found)
      × (found + rounded 20 ≤ 0x1000 + 0x1000)
      × All (Clear found (rounded 20)) (file_b ∷ file_a ∷ [])
find_free_space_sound_example =
    find_free_space_sound store 20 store-IsStore (omega arith) (omega arith)

find_free_space_complete_example : uld_fs_find_free_space (some store) 20 ≢ null
find_free_space_complete_example =
    find_free_space_complete store 20 store-IsStore (omega arith) (omega arith) 0x1400 (omega arith)
      (omega arith) (inr (omega arith), (inr (omega arith), tt))

next_membase_lem_example :
    let r = uld_load_get_next_membase 0x2000 0x3000 0x105 in
    (r % 8 ≡ 0)
    × (0x2000 ≤ r)
    × (((0x2000 ≤ 0x3000) × (0x3000 + 0x105 ≤ r) × (r < 0x3000 + 0x105 + 8))
        ⊎ ((0x3000 < 0x2000) × (r < 0x2000 + 8)))
next_membase_lem_example = next_membase_lem 0x2000 0x3000 0x105 (omega arith) (omega arith)
