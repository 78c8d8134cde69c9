-- ===== src/Base64/Text.antt =====
-- Base64 text by itself, without lines and buffers: what a sequence of bytes is encoded to, and
-- its decoding.
use uld_fdpic.Common.{
  ℕ, zero, suc, ◌+◌, ◌*◌, ◌/◌, ◌%◌, ◌<◌, ◌≡◌, ◌≢◌, refl, ap, arith, true, false, ◌&&◌, Option, none,
  some, List, [], ◌∷◌, ◌==◌, not, if◌then◌else◌, All,
}
use uld_fdpic.Bits.{check_below, check_below_sound}
use uld_fdpic.Base64.{base64_table, base64_char, equals_sign}

-- The characters for the bytes, and the padding, when the last byte left the low bits `r` over,
-- as the `k`-th of a group of three.
unfoldable pub text_from : ℕ → ℕ → List ℕ → List ℕ
text_from r zero [] = []
text_from r (suc zero) [] = base64_char (r * 16) ∷ equals_sign ∷ equals_sign ∷ []
text_from r (suc (suc k)) [] = base64_char (r * 4) ∷ equals_sign ∷ []
text_from r zero (b ∷ bs) = base64_char (b / 4) ∷ text_from (b % 4) 1 bs
text_from r (suc zero) (b ∷ bs) = base64_char (r * 16 + b / 16) ∷ text_from (b % 16) 2 bs
text_from r (suc (suc k)) (b ∷ bs) =
    base64_char (r * 4 + b / 64) ∷ base64_char (b % 64) ∷ text_from 0 0 bs

-- The Base64 text of RFC 4648.
abbrev pub base64_text : List ℕ → List ℕ
base64_text bs = text_from 0 0 bs

-- The value of a character, which is its place in the table.
value_from : ℕ → List ℕ → ℕ → ℕ
value_from i [] c = 64
value_from i (t ∷ ts) c = if t == c then i else value_from (i + 1) ts c

pub char_value : ℕ → ℕ
unfolding value_from
char_value c = value_from 0 base64_table c

char_table :
    check_below 64 (λ i.
      (char_value (base64_char i) == i)
      && not (base64_char i == 0)
      && not (base64_char i == equals_sign))
    ≡ true
unfolding check_below char_value base64_char
char_table = refl

-- A character is that of its place in the table, and neither the NUL nor the padding.
pub char_lem :
    (i : ℕ)
    → i < 64
    → (char_value (base64_char i) ≡ i)
      × (base64_char i ≢ 0)
      × ((base64_char i == equals_sign) ≡ false)
char_lem i lt =
    let t =
      check_below_sound 64
        (λ i.
          (char_value (base64_char i) == i)
          && not (base64_char i == 0)
          && not (base64_char i == equals_sign))
        i char_table lt in
    (ground (arith, t), ground (arith, t), ground (arith, t))

-- A decoder of groups of four characters; a padded group is the last.
pub decode : List ℕ → Option (List ℕ)
decode (a ∷ b ∷ c ∷ d ∷ cs) =
    let rest = decode cs in
    let x = char_value a * 4 + char_value b / 16 in
    let y = char_value b % 16 * 16 + char_value c / 4 in
    let z = char_value c % 4 * 64 + char_value d in
    if d == equals_sign
    then (if c == equals_sign then some (x ∷ []) else some (x ∷ y ∷ []))
    else elim rest [ none ↦ none | some bs ↦ some (x ∷ y ∷ z ∷ bs) ]
decode [] = some []
decode cs = none

-- The three bytes of a group from the values of its characters.
first_byte :
    (a y : ℕ)
    → a < 256
    → y < 16
    → char_value (base64_char (a / 4)) * 4 + char_value (base64_char (a % 4 * 16 + y)) / 16 ≡ a
first_byte a y h lt =
    let p = (char_lem (a / 4) (omega arith)).0 in
    let q = (char_lem (a % 4 * 16 + y) (omega arith)).0 in omega (arith, p, q)

second_byte :
    (x b z : ℕ)
    → x < 4
    → b < 256
    → z < 4
    → char_value (base64_char (x * 16 + b / 16)) % 16 * 16
        + char_value (base64_char (b % 16 * 4 + z)) / 4
      ≡ b
second_byte x b z lt h lt' =
    let p = (char_lem (x * 16 + b / 16) (omega arith)).0 in
    let q = (char_lem (b % 16 * 4 + z) (omega arith)).0 in omega (arith, p, q)

third_byte :
    (y c : ℕ)
    → y < 16
    → c < 256
    → char_value (base64_char (y * 4 + c / 64)) % 4 * 64 + char_value (base64_char (c % 64)) ≡ c
third_byte y c lt h =
    let p = (char_lem (y * 4 + c / 64) (omega arith)).0 in
    let q = (char_lem (c % 64) (omega arith)).0 in omega (arith, p, q)

-- Decoding the text gives back the bytes.
pub decode-base64_text : (bs : List ℕ) → All (λ b. b < 256) bs → decode (base64_text bs) ≡ some bs
unfolding decode text_from
decode-base64_text [] h = refl
decode-base64_text (a ∷ []) h =
    let e : a % 4 * 16 ≡ a % 4 * 16 + 0 = omega arith in
    ap (λ x. some (x ∷ [])) (rw e (first_byte a 0 h.0 (omega arith)))
decode-base64_text (a ∷ b ∷ []) h =
    let e : b % 16 * 4 ≡ b % 16 * 4 + 0 = omega arith in
    let plain = (char_lem (b % 16 * 4) (omega arith)).2 in
    rw (plain, first_byte a (b / 16) h.0 (omega (arith, h.1.0)), e)
      (ap (λ x. some (a ∷ x ∷ [])) (second_byte (a % 4) b 0 (omega arith) h.1.0 (omega arith)))
decode-base64_text (a ∷ b ∷ c ∷ bs) h =
    let plain = (char_lem (c % 64) (omega arith)).2 in
    rw
      (
        plain,
        decode-base64_text bs h.1.1.1,
        first_byte a (b / 16) h.0 (omega (arith, h.1.0)),
        second_byte (a % 4) b (c / 64) (omega arith) h.1.0 (omega (arith, h.1.1.0)),
        third_byte (b % 16) c (omega arith) h.1.1.0,
      )
      refl
