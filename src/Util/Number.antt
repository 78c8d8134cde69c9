-- ===== src/Util/Number.antt =====
-- The printers of src/util.c: numbers as text, and a copy that ends at a pointer. A text is built
-- as the list of its characters and stored at once with its NUL.
pub mod Decimal
use uld_fdpic.Common.{
  ℕ, zero, suc, ◌+◌, ◌-◌, ◌*◌, ◌/◌, ◌%◌, ◌^◌, Bool, true, false, not, ◌&&◌, ◌||◌, Option, none,
  some, List, [], ◌∷◌, ◌++◌, ◌==◌, ltb, leb, if◌then◌else◌, get_or, length, ℤ, pos, negsuc, bit_xor,
}
use uld_fdpic.Mem.{Mem, null, w32, add32, sub32, writes}
use uld_fdpic.Libc.{memmove, strlen}
use uld_fdpic.Util.{all_ones}

-- "0123456789abcdef".
abbrev pub hexchar : ℕ → ℕ
hexchar i =
    get_or (48 ∷ 49 ∷ 50 ∷ 51 ∷ 52 ∷ 53 ∷ 54 ∷ 55 ∷ 56 ∷ 57 ∷ 97 ∷ 98 ∷ 99 ∷ 100 ∷ 101 ∷ 102 ∷ []) i
      0

-- The loop with `left` digits to go, so that `c` is `8 - left` in it; `started` says that `r` is
-- not 0. `l` digits are written at least, which is 0 in `utohex`.
unfoldable pub hex_loop : ℕ → ℕ → Bool → ℕ → List ℕ
hex_loop l zero started v = []
hex_loop l (suc left) started v =
    let t = v / 2 ^ 28 in
    let rest = v * 16 % w32 in
    elim (not (t == 0) || started || ltb 8 (l + (8 - left))) [
      | true ↦ hexchar t ∷ hex_loop l left true rest
      | false ↦ hex_loop l left started rest
    ]

unfoldable pub hex_text : ℕ → ℕ → List ℕ
hex_text l v = hex_loop l 8 false v

unfoldable pub utohex : Mem → ℕ → ℕ → ℤ × Mem
utohex m s v =
    if s == null
    then (negsuc 0, m)
    else (pos (length (hex_text 0 v)), writes m s (hex_text 0 v ++ 0 ∷ []))

unfoldable pub utohex_pad : Mem → ℕ → ℕ → ℤ → ℤ × Mem
utohex_pad m s v (negsuc _) = (negsuc 0, m)
utohex_pad m s v (pos l) =
    if (s == null) || ltb 8 l
    then (negsuc 0, m)
    else (pos (length (hex_text l v)), writes m s (hex_text l v ++ 0 ∷ []))

-- The loop goes backwards from the last digit; ten steps are enough for 32 bits.
unfoldable pub dec_loop : ℕ → ℕ → List ℕ → List ℕ
dec_loop zero v acc = acc
dec_loop (suc left) v acc =
    let t = v / 10 in
    let acc' = (v - 10 * t + 48) ∷ acc in
    elim (t == 0) [ true ↦ acc' | false ↦ dec_loop left t acc' ]

abbrev pub minus_sign : ℕ
minus_sign = 45

unfoldable pub dec_text : ℕ → Bool → List ℕ
dec_text v is_signed =
    if is_signed && leb (2 ^ 31) v
    then minus_sign ∷ dec_loop 10 (add32 (bit_xor v all_ones) 1) []
    else dec_loop 10 v []

-- The NUL is `s[11]`.
unfoldable pub uitoa : Mem → ℕ → ℕ → Bool → ℤ × Mem
uitoa m s v is_signed =
    let text = dec_text v is_signed in
    if s == null
    then (negsuc 0, m)
    else (pos (length text), writes m (s + 11 - length text) (text ++ 0 ∷ []))

-- `strlen` takes fuel.
unfoldable pub stprcpy : ℕ → Mem → ℕ → ℕ → Option (ℕ × Mem)
stprcpy k m dest src = elim (strlen k m src) [
  | none ↦ none
  | some l ↦ some (sub32 dest l, (memmove m (sub32 dest l) src (l + 1)).1)
]
