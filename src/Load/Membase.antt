-- ===== src/Load/Membase.antt =====
-- The base of the next file's memory.
use uld_fdpic.Common.{ℕ, ◌+◌, ◌%◌, ◌<◌, ◌≤◌, ◌≡◌, arith, ◌⊎◌}
use uld_fdpic.Mem.{w32}
use uld_fdpic.Load.{uld_load_get_next_membase}

-- If neither the end of the loader's own data nor the end of the last file's memory (its base
-- plus its size) wraps around when 8 is added, `uld_load_get_next_membase` puts the next file on a
-- multiple of 8, not below the end of the loader's data, and, if the last base is not below that
-- end, not below the end of the last file's memory; and fewer than 8 bytes are left unused.
pub next_membase_lem :
    (bss_end last size : ℕ)
    → bss_end + 8 < w32
    → last + size + 8 < w32
    → let r = uld_load_get_next_membase bss_end last size in
      (r % 8 ≡ 0)
      × (bss_end ≤ r)
      × (((bss_end ≤ last) × (last + size ≤ r) × (r < last + size + 8))
          ⊎ ((last < bss_end) × (r < bss_end + 8)))
unfolding uld_load_get_next_membase
next_membase_lem bss_end last size h k = ground arith
