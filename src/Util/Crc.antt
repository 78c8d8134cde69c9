-- ===== src/Util/Crc.antt =====
-- The CRC over parts of a buffer, and the errors that it detects.
use uld_fdpic.Common.{
  ℕ, zero, suc, ◌+◌, ◌*◌, ◌/◌, ◌^◌, ◌<◌, ◌≡◌, ◌≢◌, refl, sym, ap, ◌∙◌, arith, List, [], ◌∷◌, ◌++◌,
  if◌then◌else◌, bit_xor, All, ltb,
}
use uld_fdpic.Bits.{bit_xor-cancel, bit_xor_comm, bit_xor-lt, bit_xor-div}
use uld_fdpic.Util.{util_crc32_poly, all_ones, crc_bit, crc_bits, crc_bytes, crc32}

crc_bytes-append : (xs ys : List ℕ) (c : ℕ) → crc_bytes (xs ++ ys) c ≡ crc_bytes ys (crc_bytes xs c)
unfolding crc_bytes
crc_bytes-append [] ys c = refl
crc_bytes-append (x ∷ xs) ys c = crc_bytes-append xs ys _

-- The CRC of a buffer in two parts is the CRC of the second part from that of the first, so that
-- a file may be read in pieces.
pub crc32-append : (xs ys : List ℕ) (c : ℕ) → crc32 (xs ++ ys) c ≡ crc32 ys (crc32 xs c)
unfolding crc32
crc32-append xs ys c =
    rw bit_xor-cancel (ap (λ t. bit_xor t all_ones) (crc_bytes-append xs ys (bit_xor c all_ones)))

-- The bit step can be undone: the polynomial's top bit tells whether it was mixed in.
uncrc_bit : ℕ → ℕ
uncrc_bit o = if ltb o (2 ^ 31) then o * 2 else bit_xor o util_crc32_poly * 2 + 1

uncrc_bit-crc_bit : (c : ℕ) → c < 2 ^ 32 → uncrc_bit (crc_bit c) ≡ c
unfolding uncrc_bit crc_bit
uncrc_bit-crc_bit c h =
    ground (arith, bit_xor-cancel (c / 2) util_crc32_poly, bit_xor-div 31 (c / 2) util_crc32_poly)

crc_bit-lt : (c : ℕ) → c < 2 ^ 32 → crc_bit c < 2 ^ 32
unfolding crc_bit
crc_bit-lt c h = ground (arith, bit_xor-lt 32 (c / 2) util_crc32_poly)

crc_bits-lt : (i c : ℕ) → c < 2 ^ 32 → crc_bits i c < 2 ^ 32
unfolding crc_bits
crc_bits-lt zero c h = h
crc_bits-lt (suc i) c h = crc_bits-lt i (crc_bit c) (crc_bit-lt c h)

crc_bit-injective : (a b : ℕ) → a < 2 ^ 32 → b < 2 ^ 32 → crc_bit a ≡ crc_bit b → a ≡ b
crc_bit-injective a b p q e = sym (uncrc_bit-crc_bit a p) ∙ ap uncrc_bit e ∙ uncrc_bit-crc_bit b q

crc_bits-injective : (i a b : ℕ) → a < 2 ^ 32 → b < 2 ^ 32 → crc_bits i a ≡ crc_bits i b → a ≡ b
unfolding crc_bits
crc_bits-injective zero a b p q e = e
crc_bits-injective (suc i) a b p q e =
    crc_bit-injective a b p q
      (crc_bits-injective i (crc_bit a) (crc_bit b) (crc_bit-lt a p) (crc_bit-lt b q) e)

bit_xor-injective : (k a b : ℕ) → bit_xor a k ≡ bit_xor b k → a ≡ b
bit_xor-injective k a b e = sym (bit_xor-cancel a k) ∙ ap (λ t. bit_xor t k) e ∙ bit_xor-cancel b k

abbrev pub IsBytes : List ℕ → Type 0
IsBytes xs = All (λ x. x < 256) xs

byte_in-lt : (c b : ℕ) → c < 2 ^ 32 → b < 256 → bit_xor c b < 2 ^ 32
byte_in-lt c b p q = bit_xor-lt 32 c b p (omega arith)

crc_bytes-injective :
    (xs : List ℕ) (a b : ℕ)
    → IsBytes xs
    → a < 2 ^ 32
    → b < 2 ^ 32
    → crc_bytes xs a ≡ crc_bytes xs b
    → a ≡ b
unfolding crc_bytes
crc_bytes-injective [] a b h p q e = e
crc_bytes-injective (x ∷ xs) a b h p q e =
    let p' = byte_in-lt a x p h.0 in
    let q' = byte_in-lt b x q h.0 in
    bit_xor-injective x a b (
      crc_bits-injective 8 (bit_xor a x) (bit_xor b x) p' q'
        (crc_bytes-injective xs _ _ h.1 (crc_bits-lt 8 _ p') (crc_bits-lt 8 _ q') e))

crc_bytes-lt : (xs : List ℕ) (c : ℕ) → IsBytes xs → c < 2 ^ 32 → crc_bytes xs c < 2 ^ 32
unfolding crc_bytes
crc_bytes-lt [] c h p = p
crc_bytes-lt (x ∷ xs) c h p = crc_bytes-lt xs _ h.1 (crc_bits-lt 8 _ (byte_in-lt c x p h.0))

-- Two buffers that differ in exactly one byte have different CRCs, from any starting value.
pub crc32_detects_byte :
    (xs ys : List ℕ) (b b' c : ℕ)
    → IsBytes xs
    → IsBytes ys
    → b < 256
    → b' < 256
    → c < 2 ^ 32
    → b ≢ b'
    → crc32 (xs ++ b ∷ ys) c ≢ crc32 (xs ++ b' ∷ ys) c
unfolding crc32 crc_bytes
crc32_detects_byte xs ys b b' c hx hy hb hb' hc ne e =
    let s = crc_bytes xs (bit_xor c all_ones) in
    let s_lt =
      crc_bytes-lt xs (bit_xor c all_ones) hx (bit_xor-lt 32 c all_ones hc (omega arith)) in
    let same : crc_bytes (xs ++ b ∷ ys) (bit_xor c all_ones)
        ≡ crc_bytes (xs ++ b' ∷ ys) (bit_xor c all_ones) =
      bit_xor-injective all_ones _ _ e in
    let tail : crc_bytes (b ∷ ys) s ≡ crc_bytes (b' ∷ ys) s =
      sym (crc_bytes-append xs (b ∷ ys) _) ∙ same ∙ crc_bytes-append xs (b' ∷ ys) _ in
    let p = byte_in-lt s b s_lt hb in
    let q = byte_in-lt s b' s_lt hb' in
    let mixed : bit_xor s b ≡ bit_xor s b' =
      crc_bits-injective 8 _ _ p q
        (crc_bytes-injective ys _ _ hy (crc_bits-lt 8 _ p) (crc_bits-lt 8 _ q) tail) in
    ne (bit_xor-injective s b b' (bit_xor_comm b s ∙ mixed ∙ bit_xor_comm s b'))

pub crc32_lt : (xs : List ℕ) (c : ℕ) → IsBytes xs → c < 2 ^ 32 → crc32 xs c < 2 ^ 32
unfolding crc32
crc32_lt xs c h p =
    bit_xor-lt 32 _ all_ones (crc_bytes-lt xs _ h (bit_xor-lt 32 c all_ones p (omega arith)))
      (omega arith)
