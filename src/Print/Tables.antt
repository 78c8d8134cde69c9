-- ===== src/Print/Tables.antt =====
-- The tables of src/uld_print.c: fixups, the dynamic table, its symbols and relocations.
use uld_fdpic.Common.{
  ℕ, zero, suc, ◌+◌, ◌/◌, ◌%◌, ◌^◌, ◌==◌, ltb, Bool, true, false, Option, none, some, List, [], ◌∷◌,
  ◌++◌, if◌then◌else◌, ℤ, pos, negsuc,
}
use uld_fdpic.Mem.{Mem, null, add32, read32}
use uld_fdpic.Elf.Fields.{
  sh_size, st_type, st_info, st_value, st_size, st_other, st_shndx, d_tag, d_val, dt_null,
  dt_needed, r_info, r_offset, r_sym, r_type,
}
use uld_fdpic.Sal.{
  Section, flag_type_all, flag_type_flash, uld_section_find_in_lists_by_name,
  uld_section_find_in_lists_by_lma, uld_section_lma_to_adjusted_vma,
}
use uld_fdpic.File.{UldFile, uld_file_get_sec_by_index, uld_file_get_sec_by_name}
use uld_fdpic.Load.{uld_load_create_sec_list}
use uld_fdpic.Rofixup.{dot_rofixup}
use uld_fdpic.Reloc.{uld_file_section_max}
use uld_fdpic.Dyn.Symbols.{sec_dynsym, sec_dynstr, sym_at, sym_name}
use uld_fdpic.Dyn.Resolve.{sec_rel_dyn, rel_at}
use uld_fdpic.Dyn.Loading.{zero_section}
use uld_fdpic.Util.Number.{hex_text}
use uld_fdpic.Libc.Stdio.{File}
use uld_fdpic.Libc.Stdio.Format.{Arg}
use uld_fdpic.Print.{Printer, ◌>>◌, continue, result, num, str, str_at, fprintf, fputs}
use uld_fdpic.Print.Names.{
  lit, type_name, bind_name, vis_name, ndx_name, rel_name, shn_undef, shn_abs,
}

abbrev is_positive : ℤ → Bool
is_positive (pos zero) = false
is_positive (pos (suc n)) = true
is_positive (negsuc n) = false

-- ".dynamic" among the flash sections.
abbrev pub sec_dynamic : Mem → UldFile → Option Section
sec_dynamic m f =
    uld_file_get_sec_by_name m (some f)
      (some (0x2e ∷ 0x64 ∷ 0x79 ∷ 0x6e ∷ 0x61 ∷ 0x6d ∷ 0x69 ∷ 0x63 ∷ [])) flag_type_flash

module _ {S : Type 0} (stream : File S) (m : Mem) where
  -- A section's name, if there is a section and it has one.
  unfoldable pub target_name : Option Section → Arg
  target_name none = lit "UNKNOWN"
  target_name (some x) = if x.name == null then lit "UNKNOWN" else str_at m x.name

  -- The loop from the entry at `p` on, of 2 ^ 30 at most.
  unfoldable pub print_fixups : List (List Section) → Section → ℕ → ℕ → Printer S
  print_fixups lists rofixup zero p s = some (pos 0, s)
  print_fixups lists rofixup (suc left) p s =
      let addr = read32 m p in
      let target = target_name (uld_section_find_in_lists_by_lma m lists addr) in
      elim (ltb p (add32 rofixup.adjusted_lma (sh_size m rofixup.shdr))) as (λ x. Option (ℤ × S)) [
        | false ↦ some (pos 0, s)
        | true ↦
            continue (λ r. print_fixups lists rofixup left (add32 p 4))
              (fprintf stream "  %p      %p      %s\n" (num p ∷ num addr ∷ target ∷ []) s)
      ]

  unfoldable pub uld_fprint_rofixups_sec_lists : List (List Section) → Printer S
  uld_fprint_rofixups_sec_lists lists =
      elim (uld_section_find_in_lists_by_name m lists (some dot_rofixup)) as (λ x. Printer S) [
        | none ↦ result (negsuc 0)
        | some rofixup ↦ do
          fputs stream "Fixup table:\n"
          fputs stream "  fixup_addr    *fixup_addr   fixup_sec\n"
          print_fixups lists rofixup (2 ^ 30) rofixup.adjusted_lma
      ]

  unfoldable pub uld_fprint_rofixups_ufile : UldFile → Printer S
  uld_fprint_rofixups_ufile f = uld_fprint_rofixups_sec_lists (f.flash ∷ f.mem ∷ f.other ∷ [])

  -- The result is 0 also where there is no table.
  unfoldable pub uld_fprint_rofixups_ehdr : ℕ → ℕ → Printer S
  uld_fprint_rofixups_ehdr ehdr base =
      let made =
        uld_load_create_sec_list m ehdr base zero_section uld_file_section_max flag_type_all in
      if is_positive made.0
      then (uld_fprint_rofixups_sec_lists (made.1 ∷ []) >> result (pos 0))
      else result (pos 0)

  -- An entry's tag and value as text; `none` is a NULL `type_ptr`.
  unfoldable pub dyn_texts : Bool → Section → ℕ → Option (Arg × Arg)
  dyn_texts all dynstr dyn =
      let tag = d_tag m dyn in
      if tag == dt_null
      then some (lit "NULL)", lit "00000000")
      else if tag == dt_needed
      then some (lit "NEEDED)", str_at m (add32 dynstr.adjusted_lma (d_val m dyn)))
      else if all
      then some (str (hex_text 8 tag ++ 41 ∷ []), str (hex_text 8 (d_val m dyn)))
      else none

  abbrev pub print_dyn : ℕ → Option (Arg × Arg) → Printer S
  print_dyn dyn none = result (pos 0)
  print_dyn dyn (some (type_ptr, val_ptr)) =
      fprintf stream "[<%p>]  %08lx  (%-20s %s\n"
        (num dyn ∷ num (d_tag m dyn) ∷ type_ptr ∷ val_ptr ∷ [])

  -- The loop from the entry at `p` on, up to DT_NULL; `none` is a table without it, of 2 ^ 29
  -- entries of 8 bytes.
  unfoldable pub print_dyns : Bool → Section → ℕ → ℕ → Printer S
  print_dyns all dynstr zero p s = none
  print_dyns all dynstr (suc left) p s = elim (d_tag m p == dt_null) as (λ x. Option (ℤ × S)) [
    | true ↦ some (pos 0, s)
    | false ↦
        continue (λ r. print_dyns all dynstr left (add32 p 8))
          (print_dyn p (dyn_texts all dynstr p) s)
  ]

  abbrev pub print_dyn_sections : Bool → Option Section → Option Section → Printer S
  print_dyn_sections all (some dynamic) (some dynstr) = do
    fputs stream "Dynamic table:\n"
    fputs stream " dyn          tag       type                  val\n"
    print_dyns all dynstr (2 ^ 29) dynamic.adjusted_lma
  print_dyn_sections all none dynstr = result (negsuc 0)
  print_dyn_sections all (some dynamic) none = result (negsuc 0)

  -- A NULL file is `none`.
  unfoldable pub uld_fprint_dyn : Option UldFile → Bool → Printer S
  uld_fprint_dyn none all = result (negsuc 0)
  uld_fprint_dyn (some f) all = print_dyn_sections all (sec_dynamic m f) (sec_dynstr m f)

  -- The loop over the symbols from index `idx` on, `left` of them.
  unfoldable pub print_syms : Section → Section → ℕ → ℕ → Printer S
  print_syms dynsym dynstr zero idx = result (pos 0)
  print_syms dynsym dynstr (suc left) idx =
      let sym = sym_at dynsym.adjusted_lma idx in
      let args : List Arg =
        num idx
        ∷ num (st_value m sym)
        ∷ num (st_size m sym)
        ∷ type_name (st_type m sym)
        ∷ bind_name (st_info m sym / 16)
        ∷ vis_name (st_other m sym % 4)
        ∷ ndx_name (st_shndx m sym)
        ∷ str (sym_name m dynstr.adjusted_lma sym)
        ∷ [] in
      do
        fprintf stream "%5d: %08lx %5d %-7s %-6s %-8s %3s %s\n" args
        print_syms dynsym dynstr left (idx + 1)

  abbrev pub print_sym_sections : Option Section → Option Section → Printer S
  print_sym_sections (some dynsym) (some dynstr) = do
    fputs stream "Dynamic symbol table:\n"
    fputs stream "  idx: addr      size type    bind   vis      ndx name\n"
    print_syms dynsym dynstr (sh_size m dynsym.shdr / 16) 0
  print_sym_sections none dynstr = result (negsuc 0)
  print_sym_sections (some dynsym) none = result (negsuc 0)

  unfoldable pub uld_fprint_dynsym : Option UldFile → Printer S
  uld_fprint_dynsym none = result (negsuc 0)
  uld_fprint_dynsym (some f) = print_sym_sections (sec_dynsym m f) (sec_dynstr m f)

  -- The section that a symbol is in.
  unfoldable pub sym_sec_name : UldFile → ℕ → Arg
  sym_sec_name f n =
      if n == shn_undef
      then lit "UND"
      else if n == shn_abs
      then lit "ABS"
      else elim (uld_file_get_sec_by_index m (some f) (pos n) flag_type_all) [
        | none ↦ lit "UNKNOWN"
        | some x ↦ str_at m x.name
      ]

  -- The address that a relocation writes, or NULL, and the name of the section that it is in.
  abbrev pub off_target : Option Section → ℕ → ℕ × Arg
  off_target none off = (null, lit "UNKNOWN")
  off_target (some x) off = (uld_section_lma_to_adjusted_vma m (some x) off, str_at m x.name)

  unfoldable pub print_rel : UldFile → Section → Section → ℕ → Printer S
  print_rel f dynsym dynstr rel =
      let sym = sym_at dynsym.adjusted_lma (r_sym m rel) in
      let off = r_offset m rel in
      let target =
        off_target (uld_section_find_in_lists_by_lma m (f.flash ∷ f.mem ∷ f.other ∷ []) off) off in
      let off_val = if target.0 == null then 0 else read32 m target.0 in
      do
        fprintf stream "[<%p>] %08lx %-17s %s (%s)\n" (
            num rel
            ∷ num (r_info m rel)
            ∷ rel_name (r_type m rel)
            ∷ str (sym_name m dynstr.adjusted_lma sym)
            ∷ sym_sec_name f (st_shndx m sym)
            ∷ [])
        fprintf stream "             %08lx %p %08lx %s\n"
            (num off ∷ num target.0 ∷ num off_val ∷ target.1 ∷ [])

  unfoldable pub print_rels : UldFile → Section → Section → Section → ℕ → ℕ → Printer S
  print_rels f rel_dyn dynsym dynstr zero idx = result (pos 0)
  print_rels f rel_dyn dynsym dynstr (suc left) idx = do
    print_rel f dynsym dynstr (rel_at rel_dyn.adjusted_lma idx)
    print_rels f rel_dyn dynsym dynstr left (idx + 1)

  abbrev pub print_rel_sections :
      UldFile → Option Section → Option Section → Option Section → Printer S
  print_rel_sections f (some rel_dyn) (some dynsym) (some dynstr) = do
    fputs stream "Relocation table:\n"
    fputs stream " rel         info     type              name (sec)\n"
    fputs stream "             off      off_vma  value    off_sec\n"
    print_rels f rel_dyn dynsym dynstr (sh_size m rel_dyn.shdr / 8) 0
  print_rel_sections f none dynsym dynstr = result (negsuc 0)
  print_rel_sections f (some rel_dyn) none dynstr = result (negsuc 0)
  print_rel_sections f (some rel_dyn) (some dynsym) none = result (negsuc 0)

  unfoldable pub uld_fprint_rel_dyn : Option UldFile → Printer S
  uld_fprint_rel_dyn none = result (negsuc 0)
  uld_fprint_rel_dyn (some f) =
      print_rel_sections f (sec_rel_dyn m f) (sec_dynsym m f) (sec_dynstr m f)
