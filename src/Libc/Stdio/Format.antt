-- ===== src/Libc/Stdio/Format.antt =====
-- `_uld_vfprintf` of src/libc.c and the functions that call it. The arguments are a function of
-- their position.
use uld_fdpic.Common.{
  ℕ, ◌+◌, ◌-◌, ◌*◌, ◌%◌, ◌^◌, Bool, true, false, ◌&&◌, ◌||◌, Option, none, some, List, [], ◌∷◌,
  ◌++◌, ◌==◌, ltb, leb, if◌then◌else◌, ℤ, pos, int_of, word_of,
}
use uld_fdpic.Mem.{w32}
use uld_fdpic.Libc.Stdio.{File, Flags, eof, _uld_fwrite_hex, _uld_fwrite_dec, _uld_fwrite_str}

-- Between two directives, with the characters since the last write, and whether the outer loop is
-- in its round; or in a directive.
pub data Mode : Type 0 where
  literal : Bool → List ℕ → Mode
  directive : Flags → ℕ → Mode

-- What the switch at `next_flag_mod` makes of a character.
pub data Modifier : Type 0 where
  changes : Flags → ℕ → Modifier
  conversion : Modifier

abbrev pub no_flags : Flags
no_flags = record { ljust = false; lspace = false; zero_pad = false; long = false; signed = false }

-- The characters ' ', '-', 'l', '0' and the other digits. The width, an `int`, is kept as a 32-bit
-- word, which wraps around (C leaves an overflow open); the breakpoint at a second 'l' has no effect.
unfoldable pub modifier : ℕ → Flags → ℕ → Modifier
modifier c flags width =
    if c == 32
    then changes (record flags { lspace = true }) width
    else if c == 45
    then changes (record flags { ljust = true }) width
    else if c == 108
    then changes (record flags { long = true }) width
    else if c == 48
    then (if width == 0
        then changes (record flags { zero_pad = true }) width
        else changes flags (width * 10 % w32))
    else if leb 49 c && leb c 57
    then changes flags ((width * 10 + (c - 48)) % w32)
    else conversion

-- The width that the word stands for. A negative one is below every length, so that it pads
-- nothing and is no maximum, like 0.
abbrev pub int_width : ℕ → ℕ
int_width width = if ltb width (2 ^ 31) then width else 0

-- An argument: its word, and the text that it points to if it is a `char *`, of fewer than 2 ^ 31
-- characters.
pub record Arg : Type 0 where
  pub word : ℕ
  pub text : List ℕ

-- The result, the number of arguments used, and the devices.
abbrev pub Printed : Type 0 → Type 0
Printed S = Option (ℤ × ℕ × S)

abbrev pub used : {S : Type 0} → ℕ → Option (ℤ × S) → Printed S
used i none = none
used i (some (r, s)) = some (r, i, s)

module _ {S : Type 0} (stream : File S) (va : ℕ → Arg) where
  -- The second switch: '%', 'p', 'd', 'u', 's', 'X' and 'x'; another character stops at a
  -- breakpoint and prints nothing.
  unfoldable pub convert : ℕ → Flags → ℕ → ℕ → S → Printed S
  convert c flags width i s =
      if c == 37
      then some (pos 1, i, (stream.dputchar_f stream.fd 37 s).1)
      else if c == 112
      then used (i + 1)
          (_uld_fwrite_hex stream (va i).word 8 (record no_flags { zero_pad = true }) s)
      else if c == 100
      then used (i + 1)
          (_uld_fwrite_dec stream (va i).word width (record flags { signed = true }) s)
      else if c == 117
      then used (i + 1) (_uld_fwrite_dec stream (va i).word width flags s)
      else if c == 115
      then used (i + 1) (_uld_fwrite_str stream (va i).text width flags s)
      else if (c == 88) || (c == 120)
      then used (i + 1) (_uld_fwrite_hex stream (va i).word width flags s)
      else some (pos 0, i, s)

  -- `count += ...` in front of the rest, with the `int` count as a 32-bit word.
  abbrev pub then_count : ℕ → (ℕ → ℕ → S → Option (ℤ × S)) → Printed S → Option (ℤ × S)
  then_count count next none = none
  then_count count next (some (r, i, s)) = next ((count + word_of r) % w32) i s

  abbrev pub flush : List ℕ → ℕ → S → Printed S
  flush text i s = let r = stream.write_f stream.fd text s in some (r.0, i, r.1)

  -- The loop, character by character.
  unfoldable pub format_loop : Mode → List ℕ → ℕ → ℕ → S → Option (ℤ × S)
  format_loop (literal false text) [] count i s = some (int_of count, s)
  format_loop (literal true text) [] count i s =
      then_count count (λ n j t. some (int_of n, t)) (flush text i s)
  format_loop (directive flags width) [] count i s = some (int_of count, s)
  format_loop (literal b text) (c ∷ cs) count i s = elim (c == 37) [
    | true ↦
        then_count count (λ n j t. format_loop (directive no_flags 0) cs n j t) (flush text i s)
    | false ↦ format_loop (literal true (text ++ c ∷ [])) cs count i s
  ]
  format_loop (directive flags width) (c ∷ cs) count i s = elim (modifier c flags width) [
    | changes flags' width' ↦ format_loop (directive flags' width') cs count i s
    | conversion ↦
        then_count count (λ n j t. format_loop (literal false []) cs n j t)
          (convert c flags (int_width width) i s)
  ]

  -- A NULL format is `none`; the stream is not NULL.
  unfoldable pub _uld_vfprintf : Option (List ℕ) → S → Option (ℤ × S)
  _uld_vfprintf none s = some (eof, s)
  _uld_vfprintf (some format) s = format_loop (literal false []) format 0 0 s

  -- These take the arguments in another way only, and `printf` and `vprintf` the standard output.
  unfoldable pub _uld_fprintf : Option (List ℕ) → S → Option (ℤ × S)
  _uld_fprintf format s = _uld_vfprintf format s

  unfoldable pub _uld_vprintf : Option (List ℕ) → S → Option (ℤ × S)
  _uld_vprintf format s = _uld_vfprintf format s

  unfoldable pub _uld_printf : Option (List ℕ) → S → Option (ℤ × S)
  _uld_printf format s = _uld_vfprintf format s

-- The same device functions with another descriptor.
unfoldable pub _uld_vdprintf :
    {S : Type 0} → File S → (ℕ → Arg) → ℕ → Option (List ℕ) → S → Option (ℤ × S)
_uld_vdprintf stdout va fd format s = _uld_vfprintf (record stdout { fd = fd }) va format s

unfoldable pub _uld_dprintf :
    {S : Type 0} → File S → (ℕ → Arg) → ℕ → Option (List ℕ) → S → Option (ℤ × S)
_uld_dprintf stdout va fd format s = _uld_vdprintf stdout va fd format s
