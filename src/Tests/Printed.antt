-- ===== src/Tests/Printed.antt =====
-- Numbers as text and formats, on a device that keeps the characters it is given.
use uld_fdpic.Common.{
  ℕ, zero, suc, ◌+◌, ◌%◌, ◌≤◌, ◌≡◌, refl, arith, true, some, List, [], ◌∷◌, ◌++◌, length,
  length-append, pos, negsuc, int_of,
}
use uld_fdpic.Mem.{w32}
use uld_fdpic.Util.Number.{hex_loop, hex_text, dec_loop, dec_text}
use uld_fdpic.Util.Number.Decimal.{int_value, dec_text-int_value}
use uld_fdpic.Libc.Stdio.{
  File, replicate, pad_loop, _uld_fwrite_pad, fwrite_text, _uld_fwrite_hex, _uld_fwrite_str,
  fwrite_signed, _uld_fwrite_dec,
}
use uld_fdpic.Libc.Stdio.Format.{Arg, modifier, convert, format_loop, _uld_vfprintf}
use uld_fdpic.Libc.Stdio.Count.{IsTaking}
use uld_fdpic.Libc.Stdio.Count.Formats.{vfprintf_count}

abbrev minus_42 : ℕ
minus_42 = 0xffffffd6

dec_text-int_value_example :
    (length (dec_text minus_42 true) ≤ 11) × (int_value (dec_text minus_42 true) ≡ negsuc 41)
dec_text-int_value_example = dec_text-int_value minus_42 true (omega arith)

abbrev pub keeps : File (List ℕ)
keeps = record {
  write_f = λ fd buf s. (pos (length buf), s ++ buf);
  dputchar_f = λ fd c s. (pos c, s ++ c ∷ []);
  fd = 1;
}

pub keeps-IsTaking : IsTaking (List ℕ) keeps length
keeps-IsTaking = record {
  write_count = λ buf s. refl;
  write_all = λ buf s. length-append s buf;
  put_char = λ c s. refl;
  put_one = λ c s. length-append s (c ∷ []);
}

-- The number -42, the text "got" and the word 64.
abbrev three_args : ℕ → Arg
three_args zero = record { word = minus_42; text = [] }
three_args (suc zero) = record { word = 80; text = 103 ∷ 111 ∷ 116 ∷ [] }
three_args (suc (suc i)) = record { word = 64; text = [] }

-- "%5d|%-4s|%x\n"
abbrev three : List ℕ
three = 37 ∷ 53 ∷ 100 ∷ 124 ∷ 37 ∷ 45 ∷ 52 ∷ 115 ∷ 124 ∷ 37 ∷ 120 ∷ 10 ∷ []

vfprintf_count_example :
    (k : ℕ) × (after : List ℕ) × (_uld_vfprintf keeps three_args (some three) []
      ≡ some (int_of (k % w32), after))
    × (length after ≡ 0 + k)
vfprintf_count_example = vfprintf_count (List ℕ) keeps length keeps-IsTaking three_args three []

-- "-  42|got |40\n", the sign in front of the padding.
printed_three :
    _uld_vfprintf keeps three_args (some three) []
    ≡ some (pos 14, 45 ∷ 32 ∷ 32 ∷ 52 ∷ 50 ∷ 124 ∷ 103 ∷ 111 ∷ 116 ∷ 32 ∷ 124 ∷ 52 ∷ 48 ∷ 10 ∷ [])
unfolding _uld_vfprintf format_loop modifier convert _uld_fwrite_hex _uld_fwrite_str _uld_fwrite_dec
    pad_loop replicate fwrite_signed fwrite_text _uld_fwrite_pad dec_text hex_text hex_loop dec_loop
printed_three = refl

-- The width of "%4294967299s" is 3.
wide : List ℕ
wide = 37 ∷ 52 ∷ 50 ∷ 57 ∷ 52 ∷ 57 ∷ 54 ∷ 55 ∷ 50 ∷ 57 ∷ 57 ∷ 115 ∷ []

printed_wide :
    _uld_vfprintf keeps (λ i. record { word = 0; text = 103 ∷ [] }) (some wide) []
    ≡ some (pos 3, 32 ∷ 32 ∷ 103 ∷ [])
unfolding wide _uld_vfprintf format_loop modifier convert _uld_fwrite_str pad_loop replicate
    fwrite_text _uld_fwrite_pad
printed_wide = refl

-- `%x` of 0 prints nothing.
hex_text_0 : hex_text 0 0 ≡ []
unfolding hex_text hex_loop
hex_text_0 = refl
