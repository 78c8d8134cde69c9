-- ===== src/Print.antt =====
-- src/uld_print.c: the dumps of a file's entry and of its sections. A dump is a chain of calls on a
-- stream; it has no end against a device that takes nothing, as `_uld_vfprintf`.
pub mod Gdb
pub mod Names
pub mod Tables
pub mod Returns
use Prim.Native.String.{String}
use Prim.Native.Char.{code}
use uld_fdpic.Common.{
  ℕ, zero, suc, ◌-◌, ◌==◌, Bool, true, false, Option, none, some, List, [], ◌∷◌, if◌then◌else◌, ℤ,
  pos, negsuc,
}
use uld_fdpic.Mem.{Mem, null, w32, cstr}
use uld_fdpic.Elf.Fields.{sh_addr, sh_offset, sh_size}
use uld_fdpic.Sal.{Section}
use uld_fdpic.File.{UldFile}
use uld_fdpic.Libc.Stdio.{File, _uld_fputs, _uld_putc, newline}
use uld_fdpic.Libc.Stdio.Format.{Arg, _uld_fprintf}

-- The characters of a literal of the source.
unfoldable pub chars : String → List ℕ
chars String.[] = []
chars (String.◌∷◌ c s) = code c ∷ chars s

-- A result with the devices after it.
abbrev pub Printer : Type 0 → Type 0
Printer S = S → Option (ℤ × S)

abbrev pub continue : {S : Type 0} → (ℤ → Printer S) → Option (ℤ × S) → Option (ℤ × S)
continue next none = none
continue next (some (r, s)) = next r s

infixl 5 ◌>>=◌ ◌>>◌
abbrev pub ◌>>=◌ : {S : Type 0} → Printer S → (ℤ → Printer S) → Printer S
(p >>= next) s = continue next (p s)

abbrev pub ◌>>◌ : {S : Type 0} → Printer S → Printer S → Printer S
(p >> q) s = continue (λ r. q) (p s)

abbrev pub result : {S : Type 0} → ℤ → Printer S
result r s = some (r, s)

-- `for` over the elements of a list.
unfoldable pub each : {S A : Type 0} → (A → Printer S) → List A → Printer S
each f [] = result (pos 0)
each f (x ∷ xs) = f x >> each f xs

abbrev pub when : {S : Type 0} → Bool → Printer S → Printer S
when b p = if b then p else result (pos 0)

-- Arguments: a number or a pointer, an `int`, a text, and a text in memory.
abbrev pub num : ℕ → Arg
num n = record { word = n; text = [] }

abbrev pub int : ℤ → Arg
int (pos n) = num n
int (negsuc n) = num (w32 - 1 - n)

abbrev pub str : List ℕ → Arg
str t = record { word = null; text = t }

abbrev pub str_at : Mem → ℕ → Arg
str_at m p = record { word = p; text = cstr m p }

-- An argument past the last one is not read.
unfoldable pub arg : List Arg → ℕ → Arg
arg [] i = num 0
arg (a ∷ rest) zero = a
arg (a ∷ rest) (suc i) = arg rest i

module _ {S : Type 0} (stream : File S) where
  unfoldable pub fprintf : String → List Arg → Printer S
  unfolding arg chars
  fprintf format args = _uld_fprintf stream (arg args) (some (chars format))

  abbrev pub fputs : String → Printer S
  fputs t s = some (_uld_fputs stream (chars t) s)

  abbrev pub put_newline : Printer S
  put_newline s = some (_uld_putc stream newline s)

  -- A NULL file is `none`; the stream is not NULL.
  unfoldable pub uld_fprint_fse_file : Option UldFile → Printer S
  uld_fprint_fse_file none = result (negsuc 0)
  uld_fprint_fse_file (some f) = if f.fse.at == null then result (negsuc 0) else do
    fprintf "[<%p>] %-26s %p %08x %08lx %08lx\n\n" (
        num f.fse.base
        ∷ str f.fse.name
        ∷ num f.fse.base
        ∷ num f.fse.size
        ∷ num f.fse.crc
        ∷ num f.fse.flags
        ∷ [])
    result (pos 0)

  module _ (m : Mem) where
    unfoldable pub uld_fprint_section : Option Section → Printer S
    uld_fprint_section none = result (negsuc 0)
    uld_fprint_section (some x) = do
      fprintf "[<%p>]   %2u  %-20s %p %p %p %p\n" (
          num x.shdr
          ∷ int x.shidx
          ∷ str_at m x.name
          ∷ num x.lma
          ∷ num x.adjusted_lma
          ∷ num (sh_offset m x.shdr)
          ∷ num x.faddr
          ∷ [])
      fprintf "               %2d                       %p %p %08lx %08lx\n" (
          int x.phidx
          ∷ num (sh_addr m x.shdr)
          ∷ num x.adjusted_vma
          ∷ num (sh_size m x.shdr)
          ∷ num x.flags
          ∷ [])
      result (pos 0)

    abbrev pub print_section_header : Printer S
    print_section_header =
        fputs
          " &shdr       shidx name                 lma      adj_lma  fileoff  faddr\n             phidx                      vma      adj_vma  size     uldflag\n"

    unfoldable pub uld_fprint_section_list : Option (List Section) → Bool → Printer S
    uld_fprint_section_list none print_hdr = result (negsuc 0)
    uld_fprint_section_list (some ss) print_hdr = do
      when print_hdr print_section_header
      each (λ x. uld_fprint_section (some x)) ss
      result (pos 0)

    -- An empty list prints nothing.
    unfoldable pub uld_fprint_section_file : Option UldFile → Printer S
    uld_fprint_section_file none = result (negsuc 0)
    uld_fprint_section_file (some f) = do
      print_section_header
      each (λ ss. uld_fprint_section_list (some ss) false) (f.flash ∷ f.mem ∷ f.other ∷ [])
      put_newline
      result (pos 0)
