-- ===== src/Elf/Fields.antt =====
-- The structs of include/elf.h by their offsets, and the constants that the code compares with.
use uld_fdpic.Common.{ℕ, ◌+◌, ◌/◌, ◌%◌, Bool, not, ◌&&◌, ◌==◌}
use uld_fdpic.Mem.{Mem, read16, read32}

-- struct elf32_ehdr
unfoldable pub e_type : Mem → ℕ → ℕ
e_type m p = read16 m (p + 16)

unfoldable pub e_entry : Mem → ℕ → ℕ
e_entry m p = read32 m (p + 24)

unfoldable pub e_phoff : Mem → ℕ → ℕ
e_phoff m p = read32 m (p + 28)

unfoldable pub e_shoff : Mem → ℕ → ℕ
e_shoff m p = read32 m (p + 32)

unfoldable pub e_phentsize : Mem → ℕ → ℕ
e_phentsize m p = read16 m (p + 42)

unfoldable pub e_phnum : Mem → ℕ → ℕ
e_phnum m p = read16 m (p + 44)

unfoldable pub e_shentsize : Mem → ℕ → ℕ
e_shentsize m p = read16 m (p + 46)

unfoldable pub e_shnum : Mem → ℕ → ℕ
e_shnum m p = read16 m (p + 48)

unfoldable pub e_shstrndx : Mem → ℕ → ℕ
e_shstrndx m p = read16 m (p + 50)

-- struct elf32_shdr
unfoldable pub sh_name : Mem → ℕ → ℕ
sh_name m p = read32 m p

unfoldable pub sh_type : Mem → ℕ → ℕ
sh_type m p = read32 m (p + 4)

unfoldable pub sh_flags : Mem → ℕ → ℕ
sh_flags m p = read32 m (p + 8)

unfoldable pub sh_addr : Mem → ℕ → ℕ
sh_addr m p = read32 m (p + 12)

unfoldable pub sh_offset : Mem → ℕ → ℕ
sh_offset m p = read32 m (p + 16)

unfoldable pub sh_size : Mem → ℕ → ℕ
sh_size m p = read32 m (p + 20)

-- struct elf32_phdr
unfoldable pub p_type : Mem → ℕ → ℕ
p_type m p = read32 m p

unfoldable pub p_offset : Mem → ℕ → ℕ
p_offset m p = read32 m (p + 4)

unfoldable pub p_vaddr : Mem → ℕ → ℕ
p_vaddr m p = read32 m (p + 8)

unfoldable pub p_paddr : Mem → ℕ → ℕ
p_paddr m p = read32 m (p + 12)

unfoldable pub p_filesz : Mem → ℕ → ℕ
p_filesz m p = read32 m (p + 16)

unfoldable pub p_memsz : Mem → ℕ → ℕ
p_memsz m p = read32 m (p + 20)

-- struct elf32_sym
unfoldable pub st_name : Mem → ℕ → ℕ
st_name m p = read32 m p

unfoldable pub st_value : Mem → ℕ → ℕ
st_value m p = read32 m (p + 4)

unfoldable pub st_size : Mem → ℕ → ℕ
st_size m p = read32 m (p + 8)

unfoldable pub st_info : Mem → ℕ → ℕ
st_info m p = m (p + 12)

unfoldable pub st_other : Mem → ℕ → ℕ
st_other m p = m (p + 13)

unfoldable pub st_shndx : Mem → ℕ → ℕ
st_shndx m p = read16 m (p + 14)

-- struct elf32_rel
unfoldable pub r_offset : Mem → ℕ → ℕ
r_offset m p = read32 m p

unfoldable pub r_info : Mem → ℕ → ℕ
r_info m p = read32 m (p + 4)

-- struct elf32_dyn
unfoldable pub d_tag : Mem → ℕ → ℕ
d_tag m p = read32 m p

unfoldable pub d_val : Mem → ℕ → ℕ
d_val m p = read32 m (p + 4)

abbrev pub et_exec : ℕ
et_exec = 2

abbrev pub sht_nobits : ℕ
sht_nobits = 8

abbrev pub pt_load : ℕ
pt_load = 1

abbrev pub dt_null : ℕ
dt_null = 0

abbrev pub dt_needed : ℕ
dt_needed = 1

abbrev pub stt_object : ℕ
stt_object = 1

abbrev pub stt_func : ℕ
stt_func = 2

abbrev pub stt_section : ℕ
stt_section = 3

abbrev pub stn_undef : ℕ
stn_undef = 0

abbrev pub r_arm_abs32 : ℕ
r_arm_abs32 = 2

abbrev pub r_arm_glob_dat : ℕ
r_arm_glob_dat = 21

abbrev pub r_arm_relative : ℕ
r_arm_relative = 23

abbrev pub r_arm_funcdesc : ℕ
r_arm_funcdesc = 163

abbrev pub r_arm_funcdesc_value : ℕ
r_arm_funcdesc_value = 164

-- sh_flags & SHF_ALLOC, which is bit 1.
unfoldable pub is_alloc : Mem → ℕ → Bool
is_alloc m shdr = sh_flags m shdr / 2 % 2 == 1

-- ELF32_ST_TYPE of a symbol, and the two halves of a relocation's r_info.
unfoldable pub st_type : Mem → ℕ → ℕ
st_type m sym = st_info m sym % 16

unfoldable pub r_sym : Mem → ℕ → ℕ
r_sym m rel = r_info m rel / 256

unfoldable pub r_type : Mem → ℕ → ℕ
r_type m rel = r_info m rel % 256

unfoldable pub elf32_sym_has_section_index : Mem → ℕ → Bool
elf32_sym_has_section_index m sym = not (st_shndx m sym == 0) && (st_shndx m sym / 32768 % 2 == 0)
