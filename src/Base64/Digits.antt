-- ===== src/Base64/Digits.antt =====
-- Bits that `|` puts behind others.
use uld_fdpic.Common.{ℕ, ◌+◌, ◌*◌, ◌/◌, ◌%◌, ◌<◌, ◌≡◌, refl, arith, true, ◌==◌, bit_or}
use uld_fdpic.Bits.{check_below, check_below_sound}

or_table :
    (check_below 64 (λ n. bit_or (n / 16 * 16) (n % 16) == n) ≡ true)
    × (check_below 64 (λ n. bit_or (n / 4 * 4) (n % 4) == n) ≡ true)
unfolding check_below
or_table = (refl, refl)

pub or_16 : (x y : ℕ) → x < 4 → y < 16 → bit_or (x * 16) y ≡ x * 16 + y
or_16 x y h k =
    let t =
      check_below_sound 64 (λ n. bit_or (n / 16 * 16) (n % 16) == n) (x * 16 + y) or_table.0
        (omega arith) in
    let high : (x * 16 + y) / 16 * 16 ≡ x * 16 = omega arith in
    let low : (x * 16 + y) % 16 ≡ y = omega arith in ground (arith, rw (high, low) at t)

pub or_4 : (x y : ℕ) → x < 16 → y < 4 → bit_or (x * 4) y ≡ x * 4 + y
or_4 x y h k =
    let t =
      check_below_sound 64 (λ n. bit_or (n / 4 * 4) (n % 4) == n) (x * 4 + y) or_table.1
        (omega arith) in
    let high : (x * 4 + y) / 4 * 4 ≡ x * 4 = omega arith in
    let low : (x * 4 + y) % 4 ≡ y = omega arith in ground (arith, rw (high, low) at t)
