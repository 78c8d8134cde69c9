-- ===== src/Libc/Stdio.antt =====
-- The output functions of src/libc.c. A FILE is its two functions and its descriptor, over any
-- state of the devices; a text in memory is given by its characters, and the buffers for numbers
-- are local. `none` is a run without end, against a device that takes nothing.
pub mod Format
pub mod Count
use uld_fdpic.Common.{
  ℕ, zero, suc, ◌+◌, ◌-◌, ◌*◌, ◌/◌, Bool, true, false, not, ◌&&◌, ◌||◌, Option, none, some, List,
  [], ◌∷◌, ◌++◌, ◌==◌, ltb, if◌then◌else◌, length, min, max, ℤ, pos, negsuc, is_neg, int_eq,
}
use uld_fdpic.Mem.{w32}
use uld_fdpic.Util.Number.{hex_text, dec_text, minus_sign}

-- `data` is not used.
pub record File (S : Type 0) : Type 0 where
  pub write_f : ℕ → List ℕ → S → ℤ × S
  pub dputchar_f : ℕ → ℕ → S → ℤ × S
  pub fd : ℕ

abbrev pub eof : ℤ
eof = negsuc 0

abbrev pub newline : ℕ
newline = 10

-- ULD_FWRITE_FLAGS_*, those that are used.
pub record Flags : Type 0 where
  pub ljust : Bool
  pub lspace : Bool
  pub zero_pad : Bool
  pub long : Bool
  pub signed : Bool

unfoldable pub replicate : ℕ → ℕ → List ℕ
replicate zero c = []
replicate (suc n) c = c ∷ replicate n c

-- A count that a `ssize_t` holds; a negative one is given back as it is.
abbrev pub count_of : ℤ → ℕ
count_of (pos n) = n
count_of (negsuc n) = 0

module _ {S : Type 0} (stream : File S) where
  unfoldable pub _uld_write : List ℕ → S → ℤ × S
  _uld_write buf s = stream.write_f stream.fd buf s

  unfoldable pub _uld_fputc : ℕ → S → ℤ × S
  _uld_fputc c s = stream.dputchar_f stream.fd c s

  unfoldable pub _uld_putc : ℕ → S → ℤ × S
  _uld_putc c s = stream.dputchar_f stream.fd c s

  unfoldable pub _uld_putchar : ℕ → S → ℤ × S
  _uld_putchar c s = stream.dputchar_f stream.fd c s

  unfoldable pub _uld_fputs : List ℕ → S → ℤ × S
  _uld_fputs text s =
      let r = stream.write_f stream.fd text s in
      if int_eq r.0 (pos (length text)) then (pos (length text), r.1) else (eof, r.1)

  unfoldable pub _uld_puts : List ℕ → S → ℤ × S
  _uld_puts text s =
      let r = _uld_fputs text s in
      let c = stream.dputchar_f stream.fd newline r.1 in
      if is_neg r.0
      then (eof, r.1)
      else if int_eq c.0 (pos newline)
      then (pos (count_of r.0 + 1), c.1)
      else (eof, c.1)

  -- `buf` is the `size * nmemb` bytes; EOF comes back as a `size_t`, and `size` is not 0.
  unfoldable pub _uld_fwrite : List ℕ → ℕ → S → ℕ × S
  _uld_fwrite buf size s =
      let r = stream.write_f stream.fd buf s in
      if is_neg r.0 then (w32 - 1, r.1) else (count_of r.0 / size, r.1)

  -- Each round takes one character at least; a device takes no more than it is given.
  unfoldable pub pad_loop : ℕ → ℕ → ℕ → ℕ → S → Option (ℤ × S)
  pad_loop zero count char zero s = some (pos count, s)
  pad_loop zero count char (suc c) s = none
  pad_loop (suc left) count char zero s = some (pos count, s)
  pad_loop (suc left) count char (suc c) s =
      let r = stream.write_f stream.fd (replicate (min (suc c) 10) char) s in
      elim (is_neg r.0) as (λ x. Option (ℤ × S)) [
        | true ↦ some (eof, r.1)
        | false ↦ pad_loop left count char (suc c - count_of r.0) r.1
      ]

  unfoldable pub _uld_fwrite_pad : ℕ → Bool → S → Option (ℤ × S)
  unfolding pad_loop
  _uld_fwrite_pad count zero_pad s = pad_loop count count (if zero_pad then 48 else 32) count s

  -- `if (... == EOF) return EOF;` in front of the next step.
  abbrev pub unless_eof : (S → Option (ℤ × S)) → Option (ℤ × S) → Option (ℤ × S)
  unless_eof next none = none
  unless_eof next (some (r, s)) = if int_eq r eof then some (eof, s) else next s

  -- A padding of `width - bytes`, if the text is short and on that side.
  abbrev pub pad_if : Bool → ℕ → ℕ → Bool → S → Option (ℤ × S)
  pad_if side width bytes zero_pad s =
      if side && ltb bytes width
      then _uld_fwrite_pad (width - bytes) zero_pad s
      else some (pos 0, s)

  -- The text between its paddings; `bytes` is what it counts for.
  unfoldable pub fwrite_text : List ℕ → ℕ → ℕ → Flags → S → Option (ℤ × S)
  fwrite_text text bytes width flags s =
      unless_eof
        (λ s₁.
          unless_eof
            (λ s₂.
              unless_eof (λ s₃. some (pos (max bytes width), s₃))
                (pad_if flags.ljust width bytes false s₂))
            (some (stream.write_f stream.fd text s₁)))
        (pad_if (not flags.ljust) width bytes flags.zero_pad s)

  unfoldable pub _uld_fwrite_hex : ℕ → ℕ → Flags → S → Option (ℤ × S)
  _uld_fwrite_hex v width flags s = fwrite_text (hex_text 0 v) (length (hex_text 0 v)) width flags s

  unfoldable pub _uld_fwrite_str : List ℕ → ℕ → Flags → S → Option (ℤ × S)
  _uld_fwrite_str text width flags s = fwrite_text text (length text) width flags s

  -- A sign, or the blank that stands for it, goes in front of the padding.
  unfoldable pub fwrite_signed : List ℕ → ℕ → Flags → S → Option (ℤ × S)
  fwrite_signed [] width flags s = fwrite_text [] 0 width flags s
  fwrite_signed (c ∷ cs) width flags s =
      let rest = c ∷ cs in
      elim (c == minus_sign) as (λ x. Option (ℤ × S)) [
        | true ↦
            unless_eof (λ s₁. fwrite_text cs (length rest) width flags s₁)
              (some (stream.dputchar_f stream.fd c s))
        | false ↦ elim (flags.lspace && flags.signed) as (λ x. Option (ℤ × S)) [
          | true ↦
              unless_eof (λ s₁. fwrite_text rest (length rest + 1) width flags s₁)
                (some (stream.dputchar_f stream.fd 32 s))
          | false ↦ fwrite_text rest (length rest) width flags s
        ]
      ]

  unfoldable pub _uld_fwrite_dec : ℕ → ℕ → Flags → S → Option (ℤ × S)
  _uld_fwrite_dec v width flags s = fwrite_signed (dec_text v flags.signed) width flags s
