-- ===== src/Dyn/Symbols/Hash.antt =====
-- The bound of the ELF hash of src/uld_dyn.c.
use uld_fdpic.Common.{
  ℕ, ◌+◌, ◌-◌, ◌*◌, ◌/◌, ◌%◌, ◌^◌, ◌<◌, ◌≡◌, refl, arith, List, [], ◌∷◌, bit_and, bit_xor,
}
use uld_fdpic.Bits.{bit_and-div, bit_and-shifted, bit_xor-div, bit_xor-zero, nibble}
use uld_fdpic.Mem.{w32}
use uld_fdpic.Dyn.Symbols.{hash_step, hash_from, uld_dyn_elf_hash}

-- The masks of the top four bits.
top_bits : (h : ℕ) → h < w32 → bit_and h 0xf0000000 ≡ h / 2 ^ 28 * 2 ^ 28
top_bits h lt = omega (arith, bit_and-shifted 28 h 15, nibble (h / 2 ^ 28) (omega arith))

-- Clearing with the mask leaves no top bits.
cleared : (x n : ℕ) → x / 2 ^ 28 ≡ n → n < 16 → bit_and x (0xffffffff - n * 2 ^ 28) < 2 ^ 28
cleared x n top lt =
    let mask : (0xffffffff - n * 2 ^ 28) / 2 ^ 28 ≡ 15 - n = omega arith in
    let d = bit_and-div 28 x (0xffffffff - n * 2 ^ 28) in
    omega (arith, rw (mask, top) at d, nibble n lt)

folded : (h n : ℕ) → h / 2 ^ 28 ≡ n → n < 16 → bit_xor h (n * 2 ^ 28 / 2 ^ 24) / 2 ^ 28 ≡ n
folded h n top lt =
    let small : n * 2 ^ 28 / 2 ^ 24 / 2 ^ 28 ≡ 0 = omega arith in
    let d = bit_xor-div 28 h (n * 2 ^ 28 / 2 ^ 24) in
    omega (arith, rw (small, top) at d, bit_xor-zero n)

-- One round leaves a value below 2 ^ 28, whatever the value and the byte are.
hash_step-lt : (h c : ℕ) → hash_step h c < 2 ^ 28
unfolding hash_step
hash_step-lt h c =
    let h1 = (h * 16 + c) % w32 in
    let lt : h1 < w32 = omega arith in
    let n = h1 / 2 ^ 28 in
    let top = top_bits h1 lt in
    let none_set = cleared h1 n refl (omega arith) in
    let some_set =
      cleared (bit_xor h1 (n * 2 ^ 28 / 2 ^ 24)) n (folded h1 n refl (omega arith)) (omega arith) in
    rw top (ground (arith, none_set, some_set))

hash_from-lt : (h : ℕ) (cs : List ℕ) → h < 2 ^ 28 → hash_from h cs < 2 ^ 28
unfolding hash_from
hash_from-lt h [] lt = lt
hash_from-lt h (c ∷ cs) lt = hash_from-lt (hash_step h c) cs (hash_step-lt h c)

-- The hash of every name is below 2 ^ 28.
pub elf_hash_lt : (name : List ℕ) → uld_dyn_elf_hash name < 2 ^ 28
unfolding uld_dyn_elf_hash
elf_hash_lt name = hash_from-lt 0 name (omega arith)
