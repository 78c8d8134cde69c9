-- ===== src/Mem.antt =====
-- The 32-bit address space: bytes at addresses, little-endian half words and words, pointer
-- arithmetic modulo 2 ^ 32, and the text that a `const char *` points to. It serves every .c
-- file; a pointer is its address and NULL is 0.
pub mod Laws
use uld_fdpic.Common.{
  ℕ, zero, suc, ◌+◌, ◌-◌, ◌*◌, ◌/◌, ◌%◌, ◌^◌, ◌≡◌, ◌≢◌, Bool, true, false, List, [], ◌∷◌, ◌==◌,
  if◌then◌else◌, leb,
}

abbrev pub Mem : Type 0
Mem = ℕ → ℕ

abbrev pub null : ℕ
null = 0

abbrev pub w32 : ℕ
w32 = 2 ^ 32

-- uint32_t and pointer arithmetic; `-` on ℕ stops at 0, so the modulus is added first.
abbrev pub add32 : ℕ → ℕ → ℕ
add32 a b = (a + b) % w32

abbrev pub sub32 : ℕ → ℕ → ℕ
sub32 a b = (a + w32 - b) % w32

abbrev pub update : Mem → ℕ → ℕ → Mem
update m a v b = if b == a then v else m b

-- Bytes at consecutive addresses.
abbrev pub writes : Mem → ℕ → List ℕ → Mem
writes m a [] = m
writes m a (x ∷ xs) = writes (update m a x) (a + 1) xs

unfoldable pub read16 : Mem → ℕ → ℕ
read16 m a = m a + 256 * m (a + 1)

unfoldable pub read32 : Mem → ℕ → ℕ
read32 m a = m a + 256 * m (a + 1) + 65536 * m (a + 2) + 16777216 * m (a + 3)

unfoldable pub write32 : Mem → ℕ → ℕ → Mem
write32 m a v =
    update
      (update (update (update m a (v % 256)) (a + 1) (v / 256 % 256)) (a + 2) (v / 65536 % 256))
      (a + 3) (v / 16777216 % 256)

unfoldable pub cstr_scan : ℕ → Mem → ℕ → List ℕ
cstr_scan zero m p = []
cstr_scan (suc k) m p = elim (m p == 0) [ true ↦ [] | false ↦ m p ∷ cstr_scan k m (p + 1) ]

-- The characters before the NUL at or behind `p`; no text is longer than the address space.
unfoldable pub cstr : Mem → ℕ → List ℕ
unfolding cstr_scan
cstr m p = cstr_scan w32 m p

-- `p` points to the text `xs`, with its NUL.
abbrev pub IsCstr : Mem → ℕ → List ℕ → Type 0
IsCstr m p [] = m p ≡ 0
IsCstr m p (x ∷ xs) = (m p ≡ x) × (x ≢ 0) × IsCstr m (p + 1) xs

-- ALIGN(val, bits) of include/uld_def.h: add the mask, then clear it.
abbrev pub align : ℕ → ℕ → ℕ
align v bits = let x = add32 v (2 ^ bits - 1) in x - x % 2 ^ bits

-- a <= b between 32-bit patterns that are read as signed numbers.
abbrev pub sle : ℕ → ℕ → Bool
sle a b = leb (add32 a (2 ^ 31)) (add32 b (2 ^ 31))
