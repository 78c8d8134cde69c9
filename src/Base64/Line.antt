-- ===== src/Base64/Line.antt =====
-- What one run of the encoder's loop writes.
use mathlib.Core.Path.{subst}
use uld_fdpic.Common.{
  ℕ, zero, suc, ◌+◌, ◌-◌, ◌*◌, ◌/◌, ◌%◌, ◌<◌, ◌≤◌, ◌≡◌, refl, ◌∙◌, arith, inl, inr, true, false,
  some, List, [], ◌∷◌, ◌==◌, All, Bool-cases,
}
use uld_fdpic.Mem.{Mem, sub32, update}
use uld_fdpic.Base64.{base64_char, Loop, encode_byte, encode_loop}
use uld_fdpic.Base64.Text.{text_from, char_lem}
use uld_fdpic.Base64.Bytes.{
  Fits, IsLeft, IsRun, IsRun-cons, Runs, byte_0, byte_1, byte_2, goes_on, vars,
}

-- A byte that fills the line.
stops :
    (m : Mem) (p rem r k b : ℕ) (w : Loop) (bs : List ℕ)
    → encode_byte k (vars m p rem r k) b ≡ some w
    → w.dest_rem ≡ 1
    → encode_loop (vars m p rem r k) (b ∷ bs)
      ≡ some (record w { memory = update w.memory w.destp 0; dest_rem = 0 }, bs)
unfolding encode_loop
stops m p rem r k b w bs e last =
    let one : (w.dest_rem == 1) ≡ true = ground (arith, last) in
    let zero_left : sub32 w.dest_rem 1 ≡ 0 = omega (arith, last) in
    rw (encode_loop, e, one, zero_left) refl

next_Fits : (rem : ℕ) → Fits 2 rem → (rem == 3) ≡ false → Fits 0 (rem - 2) × (2 ≤ rem - 2)
next_Fits rem fits more =
    let big : 7 ≤ rem = ground (arith, fits.1, fits.2, more) in
    (
      (omega arith, omega (arith, fits.1), omega (arith, big), omega (arith, fits.3)),
      omega (arith, big),
    )

-- The loop, whatever the bytes.
pub encode_loop-Runs :
    (bs : List ℕ) (m : Mem) (p rem r k : ℕ)
    → Fits k rem
    → IsLeft k r
    → All (λ b. b < 256) bs
    → Runs m p rem bs (text_from r k bs) (encode_loop (vars m p rem r k) bs)
unfolding text_from encode_loop
encode_loop-Runs [] m p rem r k fits low bytes = (
  (vars m p rem r k, []),
  [],
  refl,
  record { text = refl; plain = tt; left = low; ends = inr (refl, omega arith, fits, refl) },
  λ h. absurd (omega (arith, h)),
  omega arith,
  tt,
)
encode_loop-Runs (b ∷ bs) m p rem r zero fits low bytes =
    let step = byte_0 m p rem r b fits in
    let (out, cs, e, run, grows, le, small) =
      encode_loop-Runs bs _ (p + 1) (rem - 1) (b % 4) 1 (ground (arith, fits)) (omega arith)
        bytes.1 in
    (
      out,
      base64_char (b / 4) ∷ cs,
      goes_on m p rem r 0 b _ bs step (omega (arith, fits.1, fits.2)) ∙ e,
      IsRun-cons m p rem _ _ out cs (char_lem (b / 4) (omega (arith, bytes.0))).1
          (omega (arith, fits.2)) run,
      λ h. (omega arith, omega (arith, le)),
      omega (arith, le),
      small,
    )
encode_loop-Runs (b ∷ bs) m p rem r (suc zero) fits low bytes =
    let step = byte_1 m p rem r b fits low bytes.0 in
    let (out, cs, e, run, grows, le, small) =
      encode_loop-Runs bs _ (p + 1) (rem - 1) (b % 16) 2 (ground (arith, fits)) (omega arith)
        bytes.1 in
    (
      out,
      base64_char (r * 16 + b / 16) ∷ cs,
      goes_on m p rem r 1 b _ bs step (omega (arith, fits.1, fits.2)) ∙ e,
      IsRun-cons m p rem _ _ out cs (char_lem (r * 16 + b / 16) (omega (arith, low, bytes.0))).1
          (omega (arith, fits.2)) run,
      λ h. (omega arith, omega (arith, le)),
      omega (arith, le),
      small,
    )
encode_loop-Runs (b ∷ bs) m p rem r (suc (suc (suc k))) fits low bytes =
    absurd (omega (arith, fits.0))
encode_loop-Runs (b ∷ bs) m p rem r (suc (suc zero)) fits low bytes =
    let c = base64_char (r * 4 + b / 64) in
    let d = base64_char (b % 64) in
    let plain_c = (char_lem (r * 4 + b / 64) (omega (arith, low, bytes.0))).1 in
    let plain_d = (char_lem (b % 64) (omega (arith, bytes.0))).1 in
    let step = byte_2 m p rem r b fits low bytes.0 in
    elim (Bool-cases (rem == 3)) [
      | inl full ↦
          let last : rem ≡ 3 = ground (arith, full) in
          (
            _,
            c ∷ d ∷ [],
            stops m p rem r 2 b _ bs step (omega (arith, last)),
            record {
              text = refl;
              plain = (plain_c, (plain_d, tt));
              left = tt;
              ends = inl (refl, refl, omega (arith, last), refl);
            },
            λ h. (omega arith, omega arith),
            omega arith,
            bytes.1,
          )
      | inr more ↦
          let (out, cs, e, run, grows, le, small) =
            encode_loop-Runs bs (update (update m p c) (p + 1) d) (p + 1 + 1) (rem - 2) 0 0
              (next_Fits rem fits more).0 tt bytes.1 in
          (
            out,
            c ∷ d ∷ cs,
            goes_on m p rem r 2 b _ bs step (next_Fits rem fits more).1 ∙ e,
            IsRun-cons m p rem c _ out (d ∷ cs) plain_c (omega (arith, fits.2)) (
                IsRun-cons (update m p c) (p + 1) (rem - 1) d _ out cs plain_d
                  (omega (arith, fits.2))
                  (subst
                    (λ x.
                      IsRun (update (update m p c) (p + 1) d) (p + 1 + 1) x (text_from 0 0 bs) out
                        cs)
                    (omega arith) run)),
            λ h. (omega arith, omega (arith, le)),
            omega (arith, le),
            small,
          )
    ]
