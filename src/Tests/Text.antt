-- ===== src/Tests/Text.antt =====
-- Buffers and texts.
use uld_fdpic.Common.{
  ℕ, ◌+◌, ◌-◌, ◌≡◌, ◌≢◌, arith, some, List, [], ◌∷◌, ◌++◌, refl, pos, if◌then◌else◌,
}
use uld_fdpic.Mem.{IsCstr}
use uld_fdpic.Libc.{memmove, strcmp}
use uld_fdpic.Libc.Copy.{inside, memmove_lem}
use uld_fdpic.Libc.Strings.{strcmp-compare_texts}
use uld_fdpic.Util.{crc_bit, crc_bits, crc_bytes, crc32}
use uld_fdpic.Util.Crc.{crc32_detects_byte}
use uld_fdpic.Dyn.Symbols.{uld_dyn_elf_hash}
use uld_fdpic.Tests.{text_memory}

-- The CRC of "a", as zlib computes it.
crc32_a : crc32 (97 ∷ []) 0 ≡ 0xe8b7be43
unfolding crc32 crc_bytes crc_bits crc_bit
crc32_a = refl

-- The hash of "printf" in the System V ABI's tables.
hash_printf : uld_dyn_elf_hash (112 ∷ 114 ∷ 105 ∷ 110 ∷ 116 ∷ 102 ∷ []) ≡ 0x77905a6
unfolding uld_dyn_elf_hash
hash_printf = refl

memmove_lem_example :
    ((memmove text_memory 65 64 3).0 ≡ 65)
    × ((memmove text_memory 65 64 3).1 67
        ≡ (if inside 65 3 67 then text_memory (64 + (67 - 65)) else text_memory 67))
memmove_lem_example = memmove_lem text_memory 65 64 3 67

abbrev got : List ℕ
got = 103 ∷ 111 ∷ 116 ∷ []

abbrev go : List ℕ
go = 103 ∷ 111 ∷ []

got_text : IsCstr text_memory 64 got
got_text = (refl, ground arith, (refl, ground arith, (refl, ground arith, refl)))

go_text : IsCstr text_memory 80 go
go_text = (refl, ground arith, (refl, ground arith, refl))

strcmp-compare_texts_example : strcmp 4 text_memory 64 80 ≡ some (pos 116)
strcmp-compare_texts_example =
    strcmp-compare_texts 4 text_memory 64 80 got go got_text go_text (omega arith)

crc32_detects_byte_example : crc32 (got ++ 7 ∷ go) 0 ≢ crc32 (got ++ 8 ∷ go) 0
crc32_detects_byte_example =
    crc32_detects_byte got go 7 8 0 (omega arith, (omega arith, (omega arith, tt)))
      (omega arith, (omega arith, tt)) (omega arith) (omega arith) (omega arith) (ground arith)
