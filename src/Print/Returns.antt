-- ===== src/Print/Returns.antt =====
-- A dump on a device that takes all it is given returns, and takes back nothing it has written.
use uld_fdpic.Common.{
  ℕ, zero, suc, ◌<◌, ◌≤◌, ◌≡◌, ◌⊎◌, inl, inr, refl, ap, ◌∙◌, arith, ◌==◌, true, false, ◌||◌, Option,
  some, List, [], ◌∷◌, if◌then◌else◌, bytes_eq, ℤ, pos, negsuc, is_nonzero, bit_and,
}
use Prim.Native.String.{String}
use uld_fdpic.Mem.{Mem, null, add32, cstr}
use uld_fdpic.Elf.Fields.{e_shentsize}
use uld_fdpic.Elf.{elf32_get_section_name_shstrtab_faddr}
use uld_fdpic.Sal.{Section, flag_type_flash, uld_section_get_type}
use uld_fdpic.Load.{uld_load_create_section}
use uld_fdpic.File.{UldFile}
use uld_fdpic.File.CopySec.{uld_file_copy_sec_by_name}
use uld_fdpic.Libc.Stdio.{File, newline, _uld_putc}
use uld_fdpic.Libc.Stdio.Format.{Arg, _uld_fprintf}
use uld_fdpic.Libc.Stdio.Count.{IsTaking}
use uld_fdpic.Libc.Stdio.Count.Formats.{vfprintf_count}
use uld_fdpic.Print.{
  Printer, ◌>>◌, continue, result, each, num, str, arg, chars, fprintf, put_newline,
}
use uld_fdpic.Print.Gdb.{
  dot_text, print_sec, print_headers, is_text, print_flash, uld_fprint_gdb_sym_cmd,
}

zero_or_not : (r : ℤ) → (r ≡ pos 0) ⊎ (is_nonzero r ≡ true)
zero_or_not (pos zero) = inl refl
zero_or_not (pos (suc n)) = inr refl
zero_or_not (negsuc n) = inr refl

module _ (S : Type 0) (stream : File S) (written : S → ℕ) (takes : IsTaking S stream written) where
  pub record Returns (s : S) (o : Option (ℤ × S)) : Type 0 where
    pub value : ℤ
    pub after : S
    pub returns : o ≡ some (value, after)
    pub more : written s ≤ written after

  pub Returns-result : (r : ℤ) (s : S) → Returns s (result r s)
  Returns-result r s = record { value = r; after = s; returns = refl; more = omega arith }

  -- What follows a dump may rely on at least as much written.
  pub Returns-continue :
      (s : S) (o : Option (ℤ × S)) (next : ℤ → Printer S)
      → Returns s o
      → ((r : ℤ) (t : S) → Returns t (next r t))
      → Returns s (continue next o)
  Returns-continue s o next now later =
      let rest = later now.value now.after in
      record {
        value = rest.value;
        after = rest.after;
        returns = ap (continue next) now.returns ∙ rest.returns;
        more = omega (arith, now.more, rest.more);
      }

  Returns-each :
      {A : Type 0} (f : A → Printer S)
      → ((x : A) (s : S) → Returns s (f x s))
      → (xs : List A) (s : S) → Returns s (each f xs s)
  unfolding each
  Returns-each f one [] s = Returns-result (pos 0) s
  Returns-each f one (x ∷ xs) s =
      Returns-continue s _ (λ r. each f xs) (one x s) (λ r t. Returns-each f one xs t)

  pub Returns-fprintf :
      (format : String) (args : List Arg) (s : S) → Returns s (fprintf stream format args s)
  unfolding fprintf _uld_fprintf
  Returns-fprintf format args s =
      let run = vfprintf_count S stream written takes (arg args) (chars format) s in
      record { value = _; after = run.1; returns = run.2; more = omega (arith, run.3) }

  -- The end of a dump: the result 0, and something is written.
  abbrev Writes : S → Option (ℤ × S) → Type 0
  Writes s o = (after : S) × (o ≡ some (pos 0, after)) × (written s < written after)

  Writes-continue :
      (s : S) (o : Option (ℤ × S)) (next : ℤ → Printer S)
      → Returns s o
      → ((r : ℤ) (t : S) → Writes t (next r t))
      → Writes s (continue next o)
  Writes-continue s o next now later =
      let rest = later now.value now.after in
      (rest.0, ap (continue next) now.returns ∙ rest.1, omega (arith, now.more, rest.2))

  Writes-newline : (s : S) → Writes s ((put_newline stream >> result (pos 0)) s)
  unfolding _uld_putc
  Writes-newline s =
      ((stream.dputchar_f stream.fd newline s).1, refl, omega (arith, takes.put_one newline s))

  module _ (m : Mem) where
    Returns-print_headers :
        (ehdr faddr left p : ℕ) (section : Section) (s : S)
        → Returns s (print_headers stream m ehdr faddr left p section s)
    unfolding print_headers
    Returns-print_headers ehdr faddr zero p section s = Returns-result (pos 0) s
    Returns-print_headers ehdr faddr (suc left) p section s =
        let name = cstr m (elf32_get_section_name_shstrtab_faddr m p faddr) in
        let created = (uld_load_create_section m section ehdr null p (pos 0) faddr).1 in
        let next = add32 p (e_shentsize m ehdr) in
        elim ((bit_and (uld_section_get_type m p name) flag_type_flash == 0)
            || bytes_eq name dot_text)
          as (λ b. Returns s (elim b as (λ x. Option (ℤ × S)) [
            | true ↦ print_headers stream m ehdr faddr left next section s
            | false ↦
                continue (λ r. print_headers stream m ehdr faddr left next created)
                  (print_sec stream m created s)
          ])) [
            | true ↦ Returns-print_headers ehdr faddr left next section s
            | false ↦
                Returns-continue s _ (λ r. print_headers stream m ehdr faddr left next created)
                  (Returns-fprintf " -s %s 0x%p" _ s)
                  (λ r t. Returns-print_headers ehdr faddr left next created t)
          ]

    Returns-print_sec : (x : Section) (s : S) → Returns s (print_sec stream m x s)
    Returns-print_sec x s = Returns-fprintf " -s %s 0x%p" _ s

    Returns-print_flash :
        (ehdr : ℕ) (flash : List Section) (section : Section) (s : S)
        → Returns s (print_flash stream m ehdr flash section s)
    unfolding print_flash
    Returns-print_flash ehdr [] section s = Returns-print_headers ehdr _ _ _ section s
    Returns-print_flash ehdr (x ∷ xs) section s =
        Returns-each _
          (λ y t.
            elim (is_text stream m y)
              as (λ b. Returns t ((if b then result (pos 0) else print_sec stream m y) t)) [
                | true ↦ Returns-result (pos 0) t
                | false ↦ Returns-print_sec y t
              ])
          (x ∷ xs) s

    -- On a device that takes all it is given, `uld_fprint_gdb_sym_cmd` returns: where a file's
    -- ".text" is neither kept nor created, with the code of that failure, before anything is written;
    -- and else with 0, after something is written.
    pub gdb_sym_cmd_cases :
        (unset : Section) (f : UldFile) (s : S)
        → let copy = uld_file_copy_sec_by_name m (some f) unset (some dot_text) flag_type_flash in
          let run = uld_fprint_gdb_sym_cmd stream m unset (some f) s in
          ((is_nonzero copy.0 ≡ true) × (run ≡ some (copy.0, s)))
          ⊎ ((copy.0 ≡ pos 0)
              × ((after : S) × (run ≡ some (pos 0, after)) × (written s < written after)))
    unfolding uld_fprint_gdb_sym_cmd
    gdb_sym_cmd_cases unset f s =
        let copy = uld_file_copy_sec_by_name m (some f) unset (some dot_text) flag_type_flash in
        elim (zero_or_not copy.0) [
          | inl found ↦
              let e : is_nonzero copy.0 ≡ false = ap is_nonzero found in
              let done =
                Writes-continue s _ _
                  (Returns-fprintf "add-symbol-file %s 0x%p"
                    (str f.fse.name ∷ num copy.1.adjusted_vma ∷ []) s)
                  (λ r t.
                    Writes-continue t _ _ (Returns-print_flash f.fse.base f.flash copy.1 t) (λ r u.
                      Writes-continue u _ _ (Returns-each _ Returns-print_sec f.mem u)
                        (λ r v. Writes-newline v))) in
              inr (found, (done.0, rw e done.1, done.2))
          | inr missing ↦ inl (missing, rw missing refl)
        ]
