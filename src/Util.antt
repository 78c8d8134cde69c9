-- ===== src/Util.antt =====
-- src/util.c: the CRC. A buffer that is only read is the list of its bytes.
pub mod Crc
pub mod Number
use uld_fdpic.Common.{
  ℕ, zero, suc, ◌+◌, ◌-◌, ◌*◌, ◌/◌, ◌%◌, ◌^◌, Bool, true, false, not, ◌&&◌, ◌||◌, List, [], ◌∷◌,
  ◌==◌, ltb, leb, if◌then◌else◌, bit_xor, ℤ, pos, negsuc,
}
use uld_fdpic.Mem.{Mem, null, w32, update, cstr}
use uld_fdpic.Libc.{memmove}

abbrev pub util_crc32_poly : ℕ
util_crc32_poly = 0xEDB88320

abbrev pub all_ones : ℕ
all_ones = 0xffffffff

-- The body of the loop over a byte's bits.
unfoldable pub crc_bit : ℕ → ℕ
crc_bit crc = if crc % 2 == 1 then bit_xor (crc / 2) util_crc32_poly else crc / 2

-- `i` bits to go.
unfoldable pub crc_bits : ℕ → ℕ → ℕ
crc_bits zero crc = crc
crc_bits (suc i) crc = crc_bits i (crc_bit crc)

unfoldable pub crc_bytes : List ℕ → ℕ → ℕ
crc_bytes [] crc = crc
crc_bytes (b ∷ bs) crc = crc_bytes bs (crc_bits 8 (bit_xor crc b))

unfoldable pub crc32 : List ℕ → ℕ → ℕ
crc32 buf crc = bit_xor (crc_bytes buf (bit_xor crc all_ones)) all_ones
