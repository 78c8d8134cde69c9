-- ===== src/Bits.antt =====
-- The laws of `&` and `^` on words that the components use, each from the lowest binary digit up.
use Prim.Native.Nat.{differ, digits, bit_and-bitwise, bit_xor-bitwise}
use native.Mathlib.Nat.{pow-suc, div-div-eq-div-mul}
use uld_fdpic.Common.{
  ℕ, zero, suc, ◌+◌, ◌*◌, ◌/◌, ◌%◌, ◌^◌, ◌<◌, ◌≤◌, ◌≡◌, refl, sym, ◌∙◌, arith, min, bit_and,
  bit_xor, ap, Bool, true, ◌&&◌, ◌==◌, ◌-◌,
}

module _ (z : ℕ → ℕ) (f : ℕ → ℕ → ℕ) where
  digits-zero : (n b : ℕ) → digits z f n 0 b ≡ z b
  digits-zero zero b = refl
  digits-zero (suc n) b = refl

  -- Any two counts of rounds that reach the first number agree.
  digits_agree : (a b n k : ℕ) → a ≤ n → a ≤ k → digits z f n a b ≡ digits z f k a b
  digits_agree zero b n k p q = digits-zero n b ∙ sym (digits-zero k b)
  digits_agree (suc a) b n k p q = agree_at n (suc a) b k p q
    where
      agree_at : (n a b k : ℕ) → a ≤ n → a ≤ k → digits z f n a b ≡ digits z f k a b
      agree_at n zero b k p q = digits-zero n b ∙ sym (digits-zero k b)
      agree_at zero (suc a) b k p q = absurd (omega arith)
      agree_at (suc n) (suc a) b zero p q = absurd (omega arith)
      agree_at (suc n) (suc a) b (suc k) p q =
          rw (agree_at n (suc a / 2) (b / 2) k (omega arith) (omega arith))

  digits_step :
      (a b : ℕ)
      → digits z f (suc a) (suc a) b
        ≡ digits z f (suc a / 2) (suc a / 2) (b / 2) * 2 + f (suc a % 2) (b % 2)
  digits_step a b = rw (digits_agree (suc a / 2) (b / 2) a (suc a / 2) (omega arith) (omega arith))

bit_and_low : (x y : ℕ) → bit_and x y ≡ min (x % 2) (y % 2) + 2 * bit_and (x / 2) (y / 2)
bit_and_low zero y = simp bit_and-bitwise (omega arith)
bit_and_low (suc x) y =
    let step = digits_step (λ _. 0) min x y in simp bit_and-bitwise (omega (arith, step))

differ-mod : (a b : ℕ) → a < 2 → b < 2 → differ a b ≡ (a + b) % 2
differ-mod zero b p q = omega arith
differ-mod (suc zero) zero p q = refl
differ-mod (suc zero) (suc zero) p q = refl
differ-mod (suc zero) (suc (suc b)) p q = absurd (omega arith)
differ-mod (suc (suc a)) b p q = absurd (omega arith)

pub bit_xor_low : (x y : ℕ) → bit_xor x y ≡ (x % 2 + y % 2) % 2 + 2 * bit_xor (x / 2) (y / 2)
bit_xor_low zero y = simp bit_xor-bitwise (omega arith)
bit_xor_low (suc x) y =
    let low = differ-mod (suc x % 2) (y % 2) (omega arith) (omega arith) in
    let step = digits_step (λ y. y) differ x y in simp bit_xor-bitwise (omega (arith, step, low))

bit_and-zero_upto : (n a : ℕ) → a ≤ n → bit_and a 0 ≡ 0
bit_and-zero_upto n zero h = refl
bit_and-zero_upto zero (suc a) h = absurd (omega arith)
bit_and-zero_upto (suc n) (suc a) h =
    omega (arith, bit_and_low (suc a) 0, bit_and-zero_upto n (suc a / 2) (omega arith))

pub bit_and-zero : (a : ℕ) → bit_and a 0 ≡ 0
bit_and-zero a = bit_and-zero_upto a a (omega arith)

bit_xor-zero_upto : (n a : ℕ) → a ≤ n → bit_xor a 0 ≡ a
bit_xor-zero_upto zero a h = let a0 : a ≡ 0 = omega arith in rw a0
bit_xor-zero_upto (suc n) a h =
    omega (arith, bit_xor_low a 0, bit_xor-zero_upto n (a / 2) (omega arith))

pub bit_xor-zero : (a : ℕ) → bit_xor a 0 ≡ a
bit_xor-zero a = bit_xor-zero_upto a a (omega arith)

bit_xor-cancel_upto : (n a b : ℕ) → a ≤ n → b ≤ n → bit_xor (bit_xor a b) b ≡ a
bit_xor-cancel_upto zero a b p q =
    let a0 : a ≡ 0 = omega arith in let b0 : b ≡ 0 = omega arith in rw (a0, b0)
bit_xor-cancel_upto (suc n) a b p q =
    let half : bit_xor a b / 2 ≡ bit_xor (a / 2) (b / 2) = omega (arith, bit_xor_low a b) in
    let step = bit_xor_low (bit_xor a b) b in
    let rest = bit_xor-cancel_upto n (a / 2) (b / 2) (omega arith) (omega arith) in
    omega (arith, rw half at step, bit_xor_low a b, rest)

-- `x ^ k ^ k` is `x`.
pub bit_xor-cancel : (a b : ℕ) → bit_xor (bit_xor a b) b ≡ a
bit_xor-cancel a b = bit_xor-cancel_upto (a + b) a b (omega arith) (omega arith)

bit_xor_comm_upto : (n a b : ℕ) → a ≤ n → b ≤ n → bit_xor a b ≡ bit_xor b a
bit_xor_comm_upto zero a b p q =
    let a0 : a ≡ 0 = omega arith in let b0 : b ≡ 0 = omega arith in rw (a0, b0)
bit_xor_comm_upto (suc n) a b p q = omega (
  arith,
  bit_xor_low a b,
  bit_xor_low b a,
  bit_xor_comm_upto n (a / 2) (b / 2) (omega arith) (omega arith),
)

pub bit_xor_comm : (a b : ℕ) → bit_xor a b ≡ bit_xor b a
bit_xor_comm a b = bit_xor_comm_upto (a + b) a b (omega arith) (omega arith)

pub bit_xor-lt : (k a b : ℕ) → a < 2 ^ k → b < 2 ^ k → bit_xor a b < 2 ^ k
bit_xor-lt zero a b p q =
    let a0 : a ≡ 0 = omega arith in let b0 : b ≡ 0 = omega arith in rw (a0, b0) (omega arith)
bit_xor-lt (suc k) a b p q = omega (
  arith,
  pow-suc 2 k,
  bit_xor_low a b,
  bit_xor-lt k (a / 2) (b / 2) (omega (arith, pow-suc 2 k)) (omega (arith, pow-suc 2 k)),
)

halve : (a k : ℕ) → a / 2 ^ suc k ≡ a / 2 / 2 ^ k
halve a k =
    let two : 2 ^ suc k ≡ 2 * 2 ^ k = omega (arith, pow-suc 2 k) in
    rw two (sym (div-div-eq-div-mul a 2 (2 ^ k)))

-- The digits from place `k` on are those of the two numbers.
pub bit_xor-div : (k a b : ℕ) → bit_xor a b / 2 ^ k ≡ bit_xor (a / 2 ^ k) (b / 2 ^ k)
bit_xor-div zero a b =
    let a1 : a / 1 ≡ a = omega arith in
    let b1 : b / 1 ≡ b = omega arith in
    let x1 : bit_xor a b / 1 ≡ bit_xor a b = omega arith in rw (x1, a1, b1)
bit_xor-div (suc k) a b =
    let half : bit_xor a b / 2 ≡ bit_xor (a / 2) (b / 2) = omega (arith, bit_xor_low a b) in
    rw (halve (bit_xor a b) k, halve a k, halve b k, half) (bit_xor-div k (a / 2) (b / 2))

bit_and_half : (a b : ℕ) → bit_and a b / 2 ≡ bit_and (a / 2) (b / 2)
bit_and_half a b = omega (arith, bit_and_low a b)

pub bit_and-div : (k a b : ℕ) → bit_and a b / 2 ^ k ≡ bit_and (a / 2 ^ k) (b / 2 ^ k)
bit_and-div zero a b =
    let a1 : a / 1 ≡ a = omega arith in
    let b1 : b / 1 ≡ b = omega arith in
    let x1 : bit_and a b / 1 ≡ bit_and a b = omega arith in rw (x1, a1, b1)
bit_and-div (suc k) a b =
    rw (halve (bit_and a b) k, halve a k, halve b k, bit_and_half a b)
      (bit_and-div k (a / 2) (b / 2))

-- `a & (b << k)` is `(a >> k & b) << k`.
pub bit_and-shifted : (k a b : ℕ) → bit_and a (b * 2 ^ k) ≡ bit_and (a / 2 ^ k) b * 2 ^ k
bit_and-shifted zero a b =
    let a1 : a / 1 ≡ a = omega arith in
    let b1 : b * 1 ≡ b = omega arith in rw (a1, b1) (omega arith)
bit_and-shifted (suc k) a b =
    let double : b * 2 ^ suc k ≡ 2 * (b * 2 ^ k) =
      omega (arith, ap (λ (t : ℕ). b * t) (pow-suc 2 k)) in
    let half : b * 2 ^ suc k / 2 ≡ b * 2 ^ k = omega (arith, double) in
    let step = bit_and_low a (b * 2 ^ suc k) in
    let rest = bit_and-shifted k (a / 2) b in
    let place : bit_and (a / 2 / 2 ^ k) b * 2 ^ suc k ≡ 2 * (bit_and (a / 2 / 2 ^ k) b * 2 ^ k) =
      omega (arith, ap (λ (t : ℕ). bit_and (a / 2 / 2 ^ k) b * t) (pow-suc 2 k)) in
    rw halve (omega (arith, rw half at step, double, rest, place))

-- Every value below a small bound, by evaluation.
unfoldable pub check_below : ℕ → (ℕ → Bool) → Bool
check_below zero p = true
check_below (suc n) p = p n && check_below n p

pub check_below_sound : (n : ℕ) (p : ℕ → Bool) (x : ℕ) → check_below n p ≡ true → x < n → p x ≡ true
unfolding check_below
check_below_sound zero p x h lt = absurd (omega arith)
check_below_sound (suc n) p x h lt = ground (arith, check_below_sound n p x)

nibble_table : check_below 16 (λ n. (bit_and n 15 == n) && (bit_and n (15 - n) == 0)) ≡ true
unfolding check_below
nibble_table = refl

pub nibble : (n : ℕ) → n < 16 → (bit_and n 15 ≡ n) × (bit_and n (15 - n) ≡ 0)
nibble n h =
    let t =
      check_below_sound 16 (λ n. (bit_and n 15 == n) && (bit_and n (15 - n) == 0)) n nibble_table
        h in
    ground arith

pow_pos : (k : ℕ) → 0 < 2 ^ k
pow_pos zero = omega arith
pow_pos (suc k) = omega (arith, pow-suc 2 k, pow_pos k)

-- All bits turned over.
pub bit_xor-ones : (k v : ℕ) → v < 2 ^ k → bit_xor v (2 ^ k - 1) ≡ 2 ^ k - 1 - v
bit_xor-ones zero v lt = let v0 : v ≡ 0 = omega arith in rw v0 refl
bit_xor-ones (suc k) v lt =
    let double = pow-suc 2 k in
    let low = bit_xor_low v (2 ^ suc k - 1) in
    let half : (2 ^ suc k - 1) / 2 ≡ 2 ^ k - 1 = omega (arith, double, pow_pos k) in
    let ih = bit_xor-ones k (v / 2) (omega (arith, double, lt)) in
    omega (arith, low, ap (λ y. bit_xor (v / 2) y) half, ih, double, lt, pow_pos k)
