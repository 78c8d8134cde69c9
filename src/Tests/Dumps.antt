-- ===== src/Tests/Dumps.antt =====
-- The command for a file "a" with a ".text" and a ".got".
use uld_fdpic.Common.{ℕ, ◌<◌, ◌≡◌, ◌⊎◌, refl, true, some, List, [], ◌∷◌, length, pos, is_nonzero}
use uld_fdpic.Mem.{Mem, writes, cstr, cstr_scan}
use uld_fdpic.Sal.{Section, flag_type_flash}
use uld_fdpic.File.{UldFile, uld_file_get_sec_by_name, find_typed}
use uld_fdpic.File.CopySec.{uld_file_copy_sec_by_name}
use uld_fdpic.Util.Number.{hex_loop, hex_text}
use uld_fdpic.Libc.Stdio.{
  replicate, pad_loop, _uld_fwrite_pad, fwrite_text, _uld_fwrite_hex, _uld_fwrite_str, _uld_putc,
}
use uld_fdpic.Libc.Stdio.Format.{modifier, convert, format_loop, _uld_vfprintf, _uld_fprintf}
use uld_fdpic.Print.{chars, each, arg, fprintf}
use uld_fdpic.Print.Gdb.{dot_text, print_flash, uld_fprint_gdb_sym_cmd}
use uld_fdpic.Print.Returns.{gdb_sym_cmd_cases}
use uld_fdpic.Tests.{blank_memory, data_section, loaded}
use uld_fdpic.Tests.Printed.{keeps, keeps-IsTaking}

-- ".text" at 64 and ".got" at 80.
abbrev names : Mem
names = writes (writes blank_memory 64 (chars ".text")) 80 (chars ".got")

abbrev text_section : Section
text_section = record data_section { name = 64; flags = flag_type_flash; adjusted_vma = 0x8000400 }

abbrev file : UldFile
file = record loaded { flash = text_section ∷ []; mem = record data_section { name = 80 } ∷ [] }

gdb_sym_cmd_cases_example :
    let copy =
      uld_file_copy_sec_by_name names (some file) data_section (some dot_text) flag_type_flash in
    let run = uld_fprint_gdb_sym_cmd keeps names data_section (some file) [] in
    ((is_nonzero copy.0 ≡ true) × (run ≡ some (copy.0, [])))
    ⊎ ((copy.0 ≡ pos 0)
        × ((after : List ℕ) × (run ≡ some (pos 0, after)) × (length {A = ℕ} [] < length after)))
gdb_sym_cmd_cases_example =
    gdb_sym_cmd_cases (List ℕ) keeps length keeps-IsTaking names data_section file []

printed_command :
    uld_fprint_gdb_sym_cmd keeps names data_section (some file) []
    ≡ some (pos 0, chars "add-symbol-file a 0x08000400 -s .got 0x00002000\n")
unfolding uld_fprint_gdb_sym_cmd print_flash each fprintf chars arg _uld_fprintf _uld_vfprintf
    format_loop modifier convert _uld_fwrite_hex _uld_fwrite_str fwrite_text _uld_fwrite_pad
    pad_loop replicate hex_text hex_loop _uld_putc cstr cstr_scan uld_file_copy_sec_by_name
    uld_file_get_sec_by_name find_typed
printed_command = refl
