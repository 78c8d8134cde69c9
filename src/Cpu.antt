-- ===== src/Cpu.antt =====
-- src/cpu.c: the flash of the emulated target, an area of memory behind a lock. The messages are
-- left out. A source in a local variable is the word or the list of bytes that it holds.
pub mod Trace
use uld_fdpic.Common.{ℕ, Bool, true, false, if◌then◌else◌, ℤ, pos, negsuc}
use uld_fdpic.Mem.{Mem, write32}
use uld_fdpic.Libc.{memmove, memset}

-- `cpu_flash_lock_state` and the address space.
pub record Flash : Type 0 where
  pub locked : Bool
  pub memory : Mem

unfoldable pub cpu_flash_is_locked : Flash → Bool
cpu_flash_is_locked f = f.locked

unfoldable pub cpu_flash_unlock : Flash → ℤ × Flash
cpu_flash_unlock f = (pos 0, record f { locked = false })

unfoldable pub cpu_flash_lock : Flash → ℤ × Flash
cpu_flash_lock f = (pos 0, record f { locked = true })

-- A change of memory that the lock refuses.
unfoldable pub when_unlocked : Flash → Mem → ℤ × Flash
when_unlocked f m = if f.locked then (negsuc 0, f) else (pos 0, record f { memory = m })

unfoldable pub cpu_flash_erase : Flash → ℕ → ℕ → ℤ × Flash
cpu_flash_erase f s n = when_unlocked f (memset f.memory s 0 n).1

unfoldable pub cpu_flash_write : Flash → ℕ → ℕ → ℕ → ℤ × Flash
cpu_flash_write f dest src n = when_unlocked f (memmove f.memory dest src n).1

-- The same with a source of 4 bytes in a local variable.
unfoldable pub cpu_flash_write_word : Flash → ℕ → ℕ → ℤ × Flash
cpu_flash_write_word f dest v = when_unlocked f (write32 f.memory dest v)
