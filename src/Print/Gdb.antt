-- ===== src/Print/Gdb.antt =====
-- The add-symbol-file commands of src/uld_print.c: the sections of a file that are kept, or found
-- among its headers, with their addresses.
use uld_fdpic.Common.{
  ℕ, zero, suc, ◌-◌, ◌==◌, Bool, true, false, ◌||◌, Option, none, some, List, [], ◌∷◌,
  if◌then◌else◌, bytes_eq, ℤ, pos, negsuc, is_nonzero, bit_and,
}
use uld_fdpic.Mem.{Mem, null, add32, cstr}
use uld_fdpic.Elf.Fields.{e_shnum, e_shentsize, e_shstrndx}
use uld_fdpic.Elf.{
  elf32_get_section_by_index, elf32_get_section_flash_addr, elf32_get_section_name_shstrtab_faddr,
}
use uld_fdpic.Sal.{Section, flag_type_flash, uld_section_get_type}
use uld_fdpic.Load.{uld_load_create_section}
use uld_fdpic.File.{UldFile}
use uld_fdpic.File.CopySec.{uld_file_copy_sec_by_name}
use uld_fdpic.Libc.Stdio.{File}
use uld_fdpic.Print.{
  Printer, ◌>>=◌, ◌>>◌, continue, result, each, num, str, str_at, fprintf, put_newline,
}

abbrev pub dot_text : List ℕ
dot_text = 0x2e ∷ 0x74 ∷ 0x65 ∷ 0x78 ∷ 0x74 ∷ []

module _ {S : Type 0} (stream : File S) (m : Mem) where
  abbrev pub print_sec : Section → Printer S
  print_sec x = fprintf stream " -s %s 0x%p" (str_at m x.name ∷ num x.adjusted_vma ∷ [])

  -- The loop over the headers, with `left` to go, the one at `p` next; `section` is the local one,
  -- which a failed creation leaves in parts. The result of the creation is dropped.
  unfoldable pub print_headers : ℕ → ℕ → ℕ → ℕ → Section → Printer S
  print_headers ehdr faddr zero p section s = some (pos 0, s)
  print_headers ehdr faddr (suc left) p section s =
      let name = cstr m (elf32_get_section_name_shstrtab_faddr m p faddr) in
      let created = (uld_load_create_section m section ehdr null p (pos 0) faddr).1 in
      let next = add32 p (e_shentsize m ehdr) in
      elim ((bit_and (uld_section_get_type m p name) flag_type_flash == 0)
          || bytes_eq name dot_text)
        as (λ x. Option (ℤ × S)) [
          | true ↦ print_headers ehdr faddr left next section s
          | false ↦ continue (λ r. print_headers ehdr faddr left next created) (print_sec created s)
        ]

  abbrev pub is_text : Section → Bool
  is_text x = bytes_eq (cstr m x.name) dot_text

  -- `flash` is the list that the file keeps, `section` its ".text".
  unfoldable pub print_flash : ℕ → List Section → Section → Printer S
  print_flash ehdr [] section =
      let shstrtab = elf32_get_section_by_index m ehdr null (pos (e_shstrndx m ehdr)) in
      let faddr = elf32_get_section_flash_addr m shstrtab ehdr in
      print_headers ehdr faddr (e_shnum m ehdr - 1) (elf32_get_section_by_index m ehdr null (pos 1))
        section
  print_flash ehdr (x ∷ xs) section =
      each (λ y. if is_text y then result (pos 0) else print_sec y) (x ∷ xs)

  -- A NULL file is `none`; `unset` is what the local section holds.
  unfoldable pub uld_fprint_gdb_sym_cmd : Section → Option UldFile → Printer S
  uld_fprint_gdb_sym_cmd unset none = result (negsuc 0)
  uld_fprint_gdb_sym_cmd unset (some f) =
      let copy = uld_file_copy_sec_by_name m (some f) unset (some dot_text) flag_type_flash in
      if is_nonzero copy.0 then result copy.0 else do
        fprintf stream "add-symbol-file %s 0x%p" (str f.fse.name ∷ num copy.1.adjusted_vma ∷ [])
        print_flash f.fse.base f.flash copy.1
        each print_sec f.mem
        put_newline stream
        result (pos 0)

  -- The loop over the files, which ends at the first that fails.
  unfoldable pub print_cmds : Section → List UldFile → Printer S
  print_cmds unset [] = do put_newline stream; result (pos 0)
  print_cmds unset (f ∷ fs) = do
    r ← uld_fprint_gdb_sym_cmd unset (some f)
    if is_nonzero r then result (negsuc 0) else print_cmds unset fs

  -- A NULL list is `none`.
  unfoldable pub uld_fprint_gdb_sym_cmd_list : Section → Option (List UldFile) → Printer S
  uld_fprint_gdb_sym_cmd_list unset none = result (negsuc 0)
  uld_fprint_gdb_sym_cmd_list unset (some fs) = do put_newline stream; print_cmds unset fs
