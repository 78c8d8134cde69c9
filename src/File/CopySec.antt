-- ===== src/File/CopySec.antt =====
-- The functions of src/uld_file.c that copy a section of a file, or create it when the file does
-- not keep it.
use uld_fdpic.Common.{ℕ, Option, none, some, List, ◌==◌, if◌then◌else◌, ℤ, pos, negsuc}
use uld_fdpic.Mem.{Mem, null}
use uld_fdpic.Elf.{elf32_get_section_by_index, elf32_get_section_by_name}
use uld_fdpic.Sal.{Section}
use uld_fdpic.File.{UldFile, uld_file_get_sec_by_index, uld_file_get_sec_by_name}
use uld_fdpic.Load.{uld_load_create_section}

-- The kept section, or a new one over what the caller's section held.
abbrev pub kept_or_created : Mem → UldFile → Section → Option Section → ℕ → ℤ → ℤ × Section
kept_or_created m f old (some s) shdr index = (pos 0, s)
kept_or_created m f old none shdr index =
    if shdr == null
    then (negsuc 0, old)
    else uld_load_create_section m old f.fse.base null shdr index null

-- A NULL file is `none`; the section is not NULL.
unfoldable pub uld_file_copy_sec_by_index : Mem → Option UldFile → Section → ℤ → ℕ → ℤ × Section
uld_file_copy_sec_by_index m none old index type_mask = (negsuc 0, old)
uld_file_copy_sec_by_index m (some f) old index type_mask =
    kept_or_created m f old (uld_file_get_sec_by_index m (some f) index type_mask)
      (elf32_get_section_by_index m f.fse.base null index) index

unfoldable pub uld_file_copy_sec_by_name :
    Mem → Option UldFile → Section → Option (List ℕ) → ℕ → ℤ × Section
uld_file_copy_sec_by_name m none old name type_mask = (negsuc 0, old)
uld_file_copy_sec_by_name m (some f) old none type_mask = (negsuc 0, old)
uld_file_copy_sec_by_name m (some f) old (some name) type_mask =
    kept_or_created m f old (uld_file_get_sec_by_name m (some f) (some name) type_mask)
      (elf32_get_section_by_name m f.fse.base null (some name)) (negsuc 0)
