-- ===== src/Example/Print.antt =====
-- src/example/ex_lib_print.c. The loop of `ex_print_nputchar` takes at most `patience` rounds, and is
-- `none` after them: a device that takes nothing keeps it going.
pub mod Returns
pub mod Shows
pub mod Box
use uld_fdpic.Common.{
  ℕ, zero, suc, ◌+◌, ◌-◌, ◌==◌, Bool, true, false, ◌&&◌, Option, none, some, List, [], ◌∷◌, ◌++◌,
  map, leb, if◌then◌else◌, min, max, length, ℤ, pos, negsuc,
}
use uld_fdpic.Mem.{sub32}
use uld_fdpic.Libc.Stdio.{File, newline, replicate, _uld_fwrite, _uld_fputs, _uld_putc, _uld_puts}
use uld_fdpic.Print.{chars, Printer, ◌>>◌, continue, result, str, fprintf}

-- The table of characters is 16 long.
abbrev pub moo_str : List ℕ
moo_str =
    chars
      " ______\n< moo! >\n ------\n        \\   ^__^\n         \\  (oo)\\_______\n            (__)\\       )\\/\\\n                ||----w |\n                ||     ||\n"

unfoldable pub to_upper : ℕ → ℕ
to_upper c = if leb 97 c && leb c 122 then c - 97 + 65 else c

unfoldable pub to_lower : ℕ → ℕ
to_lower c = if leb 65 c && leb c 90 then c - 65 + 97 else c

module _ {S : Type 0} (stdout : File S) (patience : ℕ) where
  abbrev pub putc : ℕ → Printer S
  putc c s = some (_uld_putc stdout c s)

  unfoldable pub nput_loop : ℕ → ℕ → ℕ → Printer S
  nput_loop zero c n s = if n == 0 then some (pos 0, s) else none
  nput_loop (suc left) c n s =
      let r = _uld_fwrite stdout (replicate (min n 16) c) 1 s in
      elim (n == 0) as (λ x. Option (ℤ × S)) [
        | true ↦ some (pos 0, s)
        | false ↦ nput_loop left c (sub32 n r.0) r.1
      ]

  unfoldable pub ex_print_nputchar : ℕ → ℕ → Printer S
  unfolding nput_loop
  ex_print_nputchar c n = nput_loop patience c n

  unfoldable pub ex_print_lmr : ℕ → ℕ → ℕ → ℕ → Printer S
  ex_print_lmr left middle right n = do
    putc left
    ex_print_nputchar middle n
    putc right
    putc newline

  unfoldable pub ex_print_box_top : ℕ → Printer S
  ex_print_box_top x = ex_print_lmr 47 45 92 x

  unfoldable pub ex_print_box_bottom : ℕ → Printer S
  ex_print_box_bottom x = ex_print_lmr 92 45 47 x

  -- The loop over the `y` inner lines.
  unfoldable pub box_lines : ℕ → ℕ → Printer S
  box_lines zero x = result (pos 0)
  box_lines (suc y) x = do putc 124; ex_print_nputchar 32 x; putc 124; putc newline; box_lines y x

  -- A negative size counts as 0 here.
  unfoldable pub ex_print_box : ℕ → ℕ → Printer S
  ex_print_box x y = do
    ex_print_box_top (max x 2 - 2)
    box_lines (max y 2 - 2) (max x 2 - 2)
    ex_print_box_bottom (max x 2 - 2)
    result (pos 0)

  -- A NULL text is `none`.
  unfoldable pub ex_print_box_text : Option (List ℕ) → Printer S
  ex_print_box_text none = result (negsuc 0)
  ex_print_box_text (some t) = do
    ex_print_box_top (length t)
    fprintf stdout "|%s|\n" (str t ∷ [])
    ex_print_box_bottom (length t)
    result (pos 0)

  unfoldable pub ex_print_case : Option (List ℕ) → Bool → Printer S
  ex_print_case none toupper s = some (negsuc 0, s)
  ex_print_case (some t) toupper s =
      some (pos 0, (_uld_fputs stdout (map (if toupper then to_upper else to_lower) t) s).1)

  unfoldable pub ex_print_upper : Option (List ℕ) → Printer S
  ex_print_upper t = ex_print_case t true

  unfoldable pub ex_print_lower : Option (List ℕ) → Printer S
  ex_print_lower t = ex_print_case t false

  unfoldable pub ex_print_cow : Printer S
  ex_print_cow s = some (_uld_puts stdout moo_str s)
