-- ===== src/Base64/Bytes.antt =====
-- What one byte adds to a line of src/base64.c.
use uld_fdpic.Common.{
  ℕ, zero, suc, ◌+◌, ◌-◌, ◌*◌, ◌/◌, ◌%◌, ◌<◌, ◌≤◌, ◌≡◌, ◌≢◌, refl, ap, arith, ◌⊎◌, inl, inr, false,
  Option, some, List, [], ◌∷◌, ◌++◌, ◌==◌, All, length,
}
use uld_fdpic.Mem.{Mem, sub32, update, writes}
use uld_fdpic.Base64.{base64_char, Loop, encode_byte, encode_loop}
use uld_fdpic.Base64.Text.{text_from}
use uld_fdpic.Base64.Digits.{or_16, or_4}

-- With `rem` places left on the line and `k` bytes of a group of three read, the line ends with a
-- whole group.
abbrev pub Fits : ℕ → ℕ → Type 0
Fits k rem = (k ≤ 2) × ((rem + k) % 4 ≡ 1) × (3 ≤ rem) × (rem < 256)

-- The bits that are left over from the last byte.
abbrev pub IsLeft : ℕ → ℕ → Type 0
IsLeft zero r = Unit
IsLeft (suc zero) r = r < 4
IsLeft (suc (suc k)) r = r < 16

abbrev pub IsPlain : List ℕ → Type 0
IsPlain cs = All (λ c. c ≢ 0) cs

-- The loop wrote the characters `cs`, the first ones of `whole`, to a line with `rem` places from
-- `p` on. The line is full and closed, or the bytes are used up.
pub record IsRun (m : Mem) (p rem : ℕ) (whole : List ℕ) (out : Loop × List ℕ) (cs : List ℕ)
    : Type 0 where
  pub text : whole ≡ cs ++ text_from out.0.brem out.0.brem_len out.1
  pub plain : IsPlain cs
  pub left : IsLeft out.0.brem_len out.0.brem
  pub ends :
      ((out.0.dest_rem ≡ 0)
        × (out.0.brem_len ≡ 0)
        × (length cs + 1 ≡ rem)
        × (out.0.memory ≡ writes m p (cs ++ 0 ∷ [])))
      ⊎ ((out.1 ≡ [])
          × (out.0.dest_rem + length cs ≡ rem)
          × Fits out.0.brem_len out.0.dest_rem
          × (out.0.memory ≡ writes m p cs))

-- One character in front.
pub IsRun-cons :
    (m : Mem) (p rem c : ℕ) (whole : List ℕ) (out : Loop × List ℕ) (cs : List ℕ)
    → c ≢ 0
    → 0 < rem
    → IsRun (update m p c) (p + 1) (rem - 1) whole out cs
    → IsRun m p rem (c ∷ whole) out (c ∷ cs)
IsRun-cons m p rem c whole out cs plain pos_rem h = record {
  text = ap (λ t. c ∷ t) h.text;
  plain = (plain, h.plain);
  left = h.left;
  ends = elim h.ends [
    | inl (full, whole_group, len, mem) ↦ inl (full, whole_group, omega (arith, len), mem)
    | inr (used, len, fits, mem) ↦ inr (used, omega (arith, len), fits, mem)
  ];
}

abbrev pub vars : Mem → ℕ → ℕ → ℕ → ℕ → Loop
vars m p rem r k = record { memory = m; destp = p; dest_rem = rem; brem = r; brem_len = k }

-- A run over the bytes `bs`, which writes something if there are any, and uses some up.
abbrev pub Runs : Mem → ℕ → ℕ → List ℕ → List ℕ → Option (Loop × List ℕ) → Type 0
Runs m p rem bs whole o =
    (out : Loop × List ℕ) × (cs : List ℕ) × (o ≡ some out)
    × IsRun m p rem whole out cs
    × (0 < length bs → (0 < length cs) × (length out.1 < length bs))
    × (length out.1 ≤ length bs)
    × (All (λ b. b < 256) out.1)

-- A byte behind which the line goes on.
pub goes_on :
    (m : Mem) (p rem r k b : ℕ) (w : Loop) (bs : List ℕ)
    → encode_byte k (vars m p rem r k) b ≡ some w
    → 2 ≤ w.dest_rem
    → encode_loop (vars m p rem r k) (b ∷ bs) ≡ encode_loop w bs
unfolding encode_loop
goes_on m p rem r k b w bs e more =
    let one : (w.dest_rem == 1) ≡ false = ground (arith, more) in
    let none_left : (w.dest_rem == 0) ≡ false = ground (arith, more) in
    rw (encode_loop, e, one, none_left) refl

-- What each byte does, by its place in the group.
pub byte_0 :
    (m : Mem) (p rem r b : ℕ)
    → Fits 0 rem
    → encode_byte 0 (vars m p rem r 0) b
      ≡ some (vars (update m p (base64_char (b / 4))) (p + 1) (rem - 1) (b % 4) 1)
unfolding encode_byte
byte_0 m p rem r b fits = let e : sub32 rem 1 ≡ rem - 1 = omega (arith, fits.2, fits.3) in rw e refl

pub byte_1 :
    (m : Mem) (p rem r b : ℕ)
    → Fits 1 rem
    → r < 4
    → b < 256
    → encode_byte 1 (vars m p rem r 1) b
      ≡ some (vars (update m p (base64_char (r * 16 + b / 16))) (p + 1) (rem - 1) (b % 16) 2)
unfolding encode_byte
byte_1 m p rem r b fits low byte =
    let e : sub32 rem 1 ≡ rem - 1 = omega (arith, fits.2, fits.3) in
    rw (or_16 r (b / 16) low (omega arith), e) refl

pub byte_2 :
    (m : Mem) (p rem r b : ℕ)
    → Fits 2 rem
    → r < 16
    → b < 256
    → encode_byte 2 (vars m p rem r 2) b
      ≡ some (
          vars
            (update (update m p (base64_char (r * 4 + b / 64))) (p + 1) (base64_char (b % 64)))
            (p + 1 + 1)
            (rem - 2)
            0
            0)
unfolding encode_byte
byte_2 m p rem r b fits low byte =
    let e : sub32 (sub32 rem 1) 1 ≡ rem - 2 = omega (arith, fits.2, fits.3) in
    let next : p + 2 ≡ p + 1 + 1 = omega arith in
    rw (or_4 r (b / 64) low (omega arith), e, next) refl
