-- ===== src/Util/Number/Decimal.antt =====
-- The decimal text of a number, and its value.
use uld_fdpic.Common.{
  ℕ, zero, suc, ◌+◌, ◌-◌, ◌*◌, ◌/◌, ◌^◌, ◌<◌, ◌≤◌, ◌≡◌, refl, ap, ◌∙◌, arith, inl, inr, Bool, true,
  false, ◌&&◌, List, [], ◌∷◌, ◌==◌, leb, All, length, ℤ, pos, negsuc, Bool-cases, if◌then◌else◌,
  bit_xor,
}
use uld_fdpic.Mem.{w32, add32}
use native.Mathlib.Nat.{pow-suc}
use uld_fdpic.Bits.{bit_xor-ones}
use uld_fdpic.Util.{all_ones}
use uld_fdpic.Util.Number.{dec_loop, dec_text, minus_sign}

-- The value of digits behind those whose value is `n`.
unfoldable pub value_from : ℕ → List ℕ → ℕ
value_from n [] = n
value_from n (c ∷ cs) = value_from (n * 10 + (c - 48)) cs

-- The value of a text with a sign in front or none.
unfoldable pub int_value : List ℕ → ℤ
int_value [] = pos 0
int_value (c ∷ cs) =
    if c == minus_sign then negsuc (value_from 0 cs - 1) else pos (value_from 0 (c ∷ cs))

-- The `int` that has these 32 bits.
abbrev pub as_int : ℕ → ℤ
as_int v = if leb (2 ^ 31) v then negsuc (w32 - v - 1) else pos v

abbrev pub IsDigit : ℕ → Type 0
IsDigit c = (48 ≤ c) × (c ≤ 57)

dec_loop-last :
    (left v : ℕ) (acc : List ℕ)
    → (v / 10 == 0) ≡ true
    → dec_loop (suc left) v acc ≡ (v - 10 * (v / 10) + 48) ∷ acc
unfolding dec_loop
dec_loop-last left v acc last = rw (dec_loop, last) refl

dec_loop-more :
    (left v : ℕ) (acc : List ℕ)
    → (v / 10 == 0) ≡ false
    → dec_loop (suc left) v acc ≡ dec_loop left (v / 10) ((v - 10 * (v / 10) + 48) ∷ acc)
unfolding dec_loop
dec_loop-more left v acc more = rw (dec_loop, more) refl

some_left_lem : (left v : ℕ) → v / 10 < 10 ^ left → (v / 10 == 0) ≡ false → 0 < left
some_left_lem zero v lt more = absurd (ground (arith, lt, more))
some_left_lem (suc left) v lt more = omega arith

dec_loop-value :
    (left v : ℕ) (acc : List ℕ)
    → v < 10 ^ left
    → 0 < left
    → value_from 0 (dec_loop left v acc) ≡ value_from v acc
unfolding dec_loop value_from
dec_loop-value zero v acc lt h = absurd (omega arith)
dec_loop-value (suc left) v acc lt h = elim (Bool-cases (v / 10 == 0)) [
  | inl last ↦
      let e : 0 * 10 + (v - 10 * (v / 10) + 48 - 48) ≡ v = ground (arith, last) in
      rw (dec_loop-last left v acc last) (ap (λ n. value_from n acc) e)
  | inr more ↦
      let below : v / 10 < 10 ^ left = omega (arith, pow-suc 10 left, lt) in
      let some_left : 0 < left = some_left_lem left v below more in
      let e : v / 10 * 10 + (v - 10 * (v / 10) + 48 - 48) ≡ v = omega arith in
      rw (dec_loop-more left v acc more) (
        dec_loop-value left (v / 10) ((v - 10 * (v / 10) + 48) ∷ acc) below some_left
        ∙ ap (λ n. value_from n acc) e)
]

-- The length, and the digits.
dec_loop-length : (left v : ℕ) (acc : List ℕ) → length (dec_loop left v acc) ≤ left + length acc
unfolding dec_loop
dec_loop-length zero v acc = omega arith
dec_loop-length (suc left) v acc = elim (Bool-cases (v / 10 == 0)) [
  | inl last ↦ rw (dec_loop-last left v acc last) (omega arith)
  | inr more ↦
      rw (dec_loop-more left v acc more)
        (omega (arith, dec_loop-length left (v / 10) ((v - 10 * (v / 10) + 48) ∷ acc)))
]

dec_loop-IsDigit : (left v : ℕ) (acc : List ℕ) → All IsDigit acc → All IsDigit (dec_loop left v acc)
unfolding dec_loop
dec_loop-IsDigit zero v acc h = h
dec_loop-IsDigit (suc left) v acc h =
    let digit : All IsDigit ((v - 10 * (v / 10) + 48) ∷ acc) = ((omega arith, omega arith), h) in
    elim (Bool-cases (v / 10 == 0)) [
      | inl last ↦ rw (dec_loop-last left v acc last) digit
      | inr more ↦ rw (dec_loop-more left v acc more) (dec_loop-IsDigit left (v / 10) _ digit)
    ]

-- A text of digits is not empty and has no sign.
digits-int_value :
    (cs : List ℕ) → All IsDigit cs → 0 < length cs → int_value cs ≡ pos (value_from 0 cs)
unfolding int_value
digits-int_value [] h some_text = absurd (omega arith)
digits-int_value (c ∷ cs) h some_text =
    let plain : (c == minus_sign) ≡ false = ground (arith, h.0) in rw plain refl

dec_loop_some :
    (left v : ℕ) (acc : List ℕ) → 0 < left + length acc → 0 < length (dec_loop left v acc)
unfolding dec_loop
dec_loop_some zero v acc h = omega (arith, h)
dec_loop_some (suc left) v acc h = elim (Bool-cases (v / 10 == 0)) [
  | inl last ↦ rw (dec_loop-last left v acc last) (omega arith)
  | inr more ↦
      rw (dec_loop-more left v acc more)
        (dec_loop_some left (v / 10) ((v - 10 * (v / 10) + 48) ∷ acc) (omega arith))
]

loop_10 : (v : ℕ) → v < w32 → value_from 0 (dec_loop 10 v []) ≡ v
unfolding value_from
loop_10 v lt = dec_loop-value 10 v [] (omega arith) (omega arith)

-- The text of `uitoa` for a 32-bit number has at most 11 characters, which leaves room for the NUL
-- in its buffer of 12, and its value is the number, as an `int` if it is to be signed.
pub dec_text-int_value :
    (v : ℕ) (is_signed : Bool)
    → v < w32
    → (length (dec_text v is_signed) ≤ 11)
      × (int_value (dec_text v is_signed) ≡ (if is_signed then as_int v else pos v))
unfolding dec_text int_value
dec_text-int_value v is_signed lt = elim (Bool-cases (is_signed && leb (2 ^ 31) v)) [
  | inl negative ↦
      let big : 2 ^ 31 ≤ v = ground (arith, negative) in
      let flipped : add32 (bit_xor v all_ones) 1 ≡ w32 - v =
        omega (arith, bit_xor-ones 32 v lt, big) in
      let text : dec_text v is_signed ≡ minus_sign ∷ dec_loop 10 (w32 - v) [] =
        rw (dec_text, negative, flipped) refl in
      let signed : (if is_signed then as_int v else pos v) ≡ negsuc (w32 - v - 1) =
        ground (arith, negative, big) in
      rw (text, signed)
        (
          omega (arith, dec_loop-length 10 (w32 - v) []),
          ap (λ n. negsuc (n - 1)) (loop_10 (w32 - v) (omega (arith, big))),
        )
  | inr plain ↦
      let text : dec_text v is_signed ≡ dec_loop 10 v [] = rw (dec_text, plain) refl in
      let signed : (if is_signed then as_int v else pos v) ≡ pos v = ground (arith, plain) in
      rw (text, signed)
        (
          omega (arith, dec_loop-length 10 v []),
          digits-int_value (dec_loop 10 v []) (dec_loop-IsDigit 10 v [] tt)
                (dec_loop_some 10 v [] (omega arith))
              ∙ ap pos (loop_10 v lt),
        )
]
