-- ===== src/Tests/Symbols.antt =====
-- A hash table with one bucket for the symbol "got".
use uld_fdpic.Common.{ℕ, zero, suc, ◌≡◌, ◌<◌, refl, arith, true, false, List, [], ◌∷◌}
use uld_fdpic.Mem.{Mem, read32, write32, writes, IsCstr}
use uld_fdpic.Mem.Laws.{cstr-IsCstr}
use uld_fdpic.Elf.Fields.{st_name}
use uld_fdpic.Dyn.Symbols.{uld_dyn_elf_hash, hash_find, linear_find}
use uld_fdpic.Dyn.Symbols.Chain.{IsTable, fits, first_link, next_link, hash_find_is_linear}
use uld_fdpic.Tests.{blank_memory}

-- The table at 0x100, the symbols at 0x200, their names at 0x300.
abbrev symbol_memory : Mem
symbol_memory =
    writes (write32 (write32 (write32 (write32 blank_memory 0x100 1) 0x104 2) 0x108 1) 0x210 1)
      0x301 (103 ∷ 111 ∷ 116 ∷ [])

abbrev got : List ℕ
got = 103 ∷ 111 ∷ 116 ∷ []

one_bucket : read32 symbol_memory 0x100 ≡ 1
unfolding read32 write32
one_bucket = refl

first_is_1 : first_link symbol_memory got 0x100 0x300 0x200 ≡ 1
unfolding uld_dyn_elf_hash
first_is_1 = rw one_bucket first_word
  where
    first_word : read32 symbol_memory 0x108 ≡ 1
    first_word = unfold read32 write32 in refl

ends_there : next_link symbol_memory got 0x100 0x300 0x200 1 ≡ 0
ends_there = rw one_bucket (unfold read32 write32 in refl)

name_at_0 : st_name symbol_memory 0x200 ≡ 0
unfolding st_name read32 write32
name_at_0 = refl

name_at_1 : st_name symbol_memory 0x210 ≡ 1
unfolding st_name read32 write32
name_at_1 = refl

got_text : IsCstr symbol_memory 0x301 got
unfolding write32
got_text = (refl, ground arith, (refl, ground arith, (refl, ground arith, refl)))

miss_0 : fits symbol_memory got 0x100 0x300 0x200 0 ≡ false
unfolding write32
miss_0 = rw (name_at_0, cstr-IsCstr symbol_memory 0x300 [] refl (omega arith)) refl

hit_1 : fits symbol_memory got 0x100 0x300 0x200 1 ≡ true
hit_1 = rw (name_at_1, cstr-IsCstr symbol_memory 0x301 got got_text (omega arith)) refl

only_1 : (i : ℕ) → i < 2 → fits symbol_memory got 0x100 0x300 0x200 i ≡ true → i ≡ 1
only_1 zero lt e = absurd (ground (arith, miss_0))
only_1 (suc zero) lt e = refl
only_1 (suc (suc i)) lt e = absurd (omega arith)

got-IsTable : IsTable symbol_memory got 0x100 0x300 0x200 2 (1 ∷ [])
got-IsTable = record {
  is_chain = (first_is_1, ground arith, ends_there);
  ends = omega arith;
  below = λ i e. ground arith;
  holds = λ i lt e. ground (arith, only_1 i lt e);
  unique = λ i j lt lt' e e'. omega (arith, only_1 i lt e, only_1 j lt' e');
}

hash_find_is_linear_example :
    hash_find symbol_memory got 0x100 0x300 0x200 ≡ linear_find symbol_memory got 0x300 0x200 2 0
hash_find_is_linear_example =
    hash_find_is_linear symbol_memory got 0x100 0x300 0x200 2 (1 ∷ []) got-IsTable
