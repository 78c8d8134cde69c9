-- ===== src/Fs.antt =====
-- src/uld_fs.c: the table of files in flash. The singly linked list of entries is the list of
-- them in the order of `next`.
pub mod Space
pub mod Sorted
use uld_fdpic.Common.{
  ℕ, zero, suc, ◌+◌, Bool, true, false, not, ◌&&◌, ◌||◌, Option, none, some, List, [], ◌∷◌, ◌==◌,
  ltb, if◌then◌else◌, bytes_eq, ℤ, pos, negsuc,
}
use uld_fdpic.Mem.{null, add32, sub32, align, sle}

-- struct uld_fs_entry; `at` is the address of the struct itself, by which pointers compare.
pub record FsEntry : Type 0 where
  pub at : ℕ
  pub base : ℕ
  pub size : ℕ
  pub crc : ℕ
  pub flags : ℕ
  pub name : List ℕ

-- struct uld_pstore with its struct uld_fs_table.
pub record Pstore : Type 0 where
  pub boot_action : ℕ
  pub files_base : ℕ
  pub files_size : ℕ
  pub files : List FsEntry
  pub table_base : ℕ
  pub table_size : ℕ
  pub table_crc : ℕ

unfoldable pub uld_fs_get_file_count : List FsEntry → ℕ
uld_fs_get_file_count [] = 0
uld_fs_get_file_count (e ∷ es) = uld_fs_get_file_count es + 1

-- A negative index only moves away from 0.
unfoldable pub uld_fs_get_file_by_index : List FsEntry → ℤ → Option FsEntry
uld_fs_get_file_by_index [] i = none
uld_fs_get_file_by_index (e ∷ es) (pos zero) = some e
uld_fs_get_file_by_index (e ∷ es) (pos (suc i)) = uld_fs_get_file_by_index es (pos i)
uld_fs_get_file_by_index (e ∷ es) (negsuc i) = uld_fs_get_file_by_index es (negsuc (i + 1))

unfoldable pub uld_fs_get_file_by_name : List FsEntry → List ℕ → Option FsEntry
uld_fs_get_file_by_name [] name = none
uld_fs_get_file_by_name (e ∷ es) name =
    if bytes_eq e.name name then some e else uld_fs_get_file_by_name es name

-- The insertion loop: in front of the first entry with a higher base.
pub insert_fse : FsEntry → List FsEntry → List FsEntry
insert_fse e [] = e ∷ []
insert_fse e (x ∷ xs) = if ltb e.base x.base then e ∷ x ∷ xs else x ∷ insert_fse e xs

pub sort_fses : List FsEntry → List FsEntry → List FsEntry
sort_fses [] sorted = sorted
sort_fses (e ∷ es) sorted = sort_fses es (insert_fse e sorted)

-- The first gap of `size` bytes at or behind `ptr`, which ends at `limit`.
scan_gaps : ℕ → ℕ → List FsEntry → ℕ → ℕ
scan_gaps size limit [] ptr = if sle size (sub32 limit ptr) then ptr else null
scan_gaps size limit (x ∷ xs) ptr =
    if sle size (sub32 x.base ptr) then ptr else scan_gaps size limit xs (add32 x.base x.size)

-- A NULL `pstore` is `none`.
unfoldable pub uld_fs_find_free_space : Option Pstore → ℕ → ℕ
unfolding insert_fse sort_fses scan_gaps
uld_fs_find_free_space none size = null
uld_fs_find_free_space (some ps) size =
    if size == 0
    then null
    else scan_gaps (align size 3) (add32 ps.files_base ps.files_size) (sort_fses ps.files [])
        ps.files_base
