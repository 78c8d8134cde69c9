-- ===== src/Sal/Crc.antt =====
-- The CRCs of src/uld_sal.c, of the table of files and of a file. They read the persistent store
-- and an entry of the table in memory: a pointer to one is its address, `pstore` that of
-- `_uld_pstore`.
pub mod Verify
use uld_fdpic.Common.{ℕ, zero, suc, ◌+◌, Bool, List, [], ◌∷◌, ◌==◌, ℤ}
use uld_fdpic.Mem.{Mem, read32, cstr}
use uld_fdpic.Util.{crc32}
use uld_fdpic.Fs.{FsEntry}
use uld_fdpic.Cpu.{Flash, cpu_flash_write_word}

-- UTIL_CRC32_INIT.
abbrev pub util_crc32_init : ℕ
util_crc32_init = 0x00000000

-- The `n` bytes from `p` on.
unfoldable pub bytes_at : Mem → ℕ → ℕ → List ℕ
bytes_at m p zero = []
bytes_at m p (suc n) = m p ∷ bytes_at m (p + 1) n

-- The entry at an address, as the loader reads it.
unfoldable pub fs_entry_at : Mem → ℕ → FsEntry
fs_entry_at m fse = record {
  at = fse;
  base = read32 m fse;
  size = read32 m (fse + 8);
  crc = read32 m (fse + 12);
  flags = read32 m (fse + 16);
  name = cstr m (fse + 20);
}

-- `fs_table_pri` of the store.
unfoldable pub table_base : Mem → ℕ → ℕ
table_base m pstore = read32 m (pstore + 16)

unfoldable pub table_size : Mem → ℕ → ℕ
table_size m pstore = read32 m (pstore + 20)

unfoldable pub table_crc : Mem → ℕ → ℕ
table_crc m pstore = read32 m (pstore + 24)

unfoldable pub uld_crc_calc_fst : Mem → ℕ → ℕ
uld_crc_calc_fst m pstore =
    crc32 (bytes_at m (table_base m pstore) (table_size m pstore)) util_crc32_init

-- The result and `*crc`.
unfoldable pub uld_crc_verify_fst : Mem → ℕ → Bool × ℕ
uld_crc_verify_fst m pstore = let c = uld_crc_calc_fst m pstore in (table_crc m pstore == c, c)

unfoldable pub uld_crc_update_fst : Flash → ℕ → (ℤ × Flash) × ℕ
uld_crc_update_fst f pstore =
    let c = uld_crc_calc_fst f.memory pstore in (cpu_flash_write_word f (pstore + 24) c, c)

unfoldable pub uld_crc_calc_fse : Mem → ℕ → ℕ
uld_crc_calc_fse m fse = crc32 (bytes_at m (read32 m fse) (read32 m (fse + 8))) util_crc32_init

unfoldable pub uld_crc_verify_fse : Mem → ℕ → Bool × ℕ
uld_crc_verify_fse m fse = let c = uld_crc_calc_fse m fse in (read32 m (fse + 12) == c, c)

unfoldable pub uld_crc_update_fse : Flash → ℕ → (ℤ × Flash) × ℕ
uld_crc_update_fse f fse =
    let c = uld_crc_calc_fse f.memory fse in (cpu_flash_write_word f (fse + 12) c, c)
