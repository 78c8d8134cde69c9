-- ===== src/Tests/Inits.antt =====
-- A file at 0x1000 with two init functions, and code that logs its calls at 0x9000.
use uld_fdpic.Common.{All, ℕ, ◌+◌, ◌*◌, ◌≡◌, refl, arith, [], ◌∷◌, pos}
use uld_fdpic.Mem.{Mem, update, writes, read16, read32, write32, cstr, cstr_scan}
use uld_fdpic.Elf.Fields.{e_shoff, e_shentsize, e_shnum, e_shstrndx, sh_name, sh_offset, sh_size}
use uld_fdpic.Elf.{
  find_shdr, elf32_get_section_by_index, elf32_get_section_flash_addr,
  elf32_get_section_name_shstrtab_faddr, elf32_get_section_name, elf32_get_section_by_name,
}
use uld_fdpic.File.{UldFile}
use uld_fdpic.Exec.{
  uld_exec_init_section_list, call_loop, uld_exec_call_vv_fp_array_fdpic_base, call_sections,
  uld_exec_elf_call_init_funcs,
}
use uld_fdpic.Exec.Inits.{init_array, init_calls, run_calls}
use uld_fdpic.Dyn.Resolve.{Resolution}
use uld_fdpic.Dyn.ExecFse.{Machine, call_inits}
use uld_fdpic.Dyn.ExecFse.Order.{FitNamed, SameArrays, call_inits-run_calls}
use uld_fdpic.Print.{chars}
use uld_fdpic.Tests.{blank_memory, data_section, file_a, loaded}

-- The ELF header, the header of ".init_array", that of the names, the array and the names.
abbrev pub image : Mem
image =
    writes
      (write32
        (write32
          (write32
            (write32
              (write32
                (write32
                  (write32
                    (write32 (write32 blank_memory (0x1000 + 32) 52) (0x1000 + 44) (40 * 65536))
                    (0x1000 + 48) (3 + 2 * 65536))
                  (0x105c + 16) 0x100)
                (0x105c + 20) 8)
              0x1084 12)
            (0x1084 + 16) 0x200)
          0x1100 0x1401)
        0x1104 0x1501)
      0x1200 (chars ".init_array")

abbrev pub logging : ℕ → ℕ → Mem → Mem
logging fp base c = update image 0x9000 (c 0x9000 * 65536 + fp)

abbrev pub no_resolution : Resolution
no_resolution = record { ptr = 0; membase = 0; match_sym = 0; file_idx = 0 }

abbrev pub machine : Machine
machine = record {
  bss_end = 0x5000;
  none_entry = file_a;
  unset = data_section;
  res = no_resolution;
  depth = 4;
  call = logging;
  call_entry = λ entry sp argc argv base m. (pos 0, m);
}

abbrev file : UldFile
file = record loaded { membase = 0x7000 }

pointers : (init_array image file (chars ".init_array")).pointers ≡ 0x1401 ∷ 0x1501 ∷ []
unfolding chars read16 read32 write32 cstr cstr_scan e_shoff e_shentsize e_shnum e_shstrndx sh_name
    sh_offset sh_size find_shdr elf32_get_section_by_index elf32_get_section_flash_addr
    elf32_get_section_name_shstrtab_faddr elf32_get_section_name elf32_get_section_by_name
pointers = refl

fit : All (λ f. FitNamed image f uld_exec_init_section_list) (file ∷ [])
unfolding chars uld_exec_init_section_list read16 read32 write32 cstr cstr_scan e_shoff e_shentsize
    e_shnum e_shstrndx sh_name sh_offset sh_size find_shdr elf32_get_section_by_index
    elf32_get_section_flash_addr elf32_get_section_name_shstrtab_faddr elf32_get_section_name
    elf32_get_section_by_name
fit = (((λ e. cc), ((λ e. (omega arith, omega arith)), tt)), tt)

kept :
    (fp base : ℕ) (c : Mem)
    → SameArrays image (file ∷ []) c
    → SameArrays image (file ∷ []) (logging fp base c)
unfolding chars uld_exec_init_section_list read16 read32 write32 cstr cstr_scan e_shoff e_shentsize
    e_shnum e_shstrndx sh_name sh_offset sh_size find_shdr elf32_get_section_by_index
    elf32_get_section_flash_addr elf32_get_section_name_shstrtab_faddr elf32_get_section_name
    elf32_get_section_by_name
kept fp base c h = ((refl, (refl, tt)), tt)

call_inits-run_calls_example :
    call_inits machine (file ∷ []) image ≡ run_calls logging (init_calls image (file ∷ [])) image
call_inits-run_calls_example = call_inits-run_calls image machine (file ∷ []) fit kept

-- The two calls in their order.
logged : call_inits machine (file ∷ []) image 0x9000 ≡ 0x14011501
unfolding chars uld_exec_init_section_list read16 read32 write32 cstr cstr_scan e_shoff e_shentsize
    e_shnum e_shstrndx sh_name sh_offset sh_size find_shdr elf32_get_section_by_index
    elf32_get_section_flash_addr elf32_get_section_name_shstrtab_faddr elf32_get_section_name
    elf32_get_section_by_name call_inits call_loop uld_exec_call_vv_fp_array_fdpic_base
    call_sections uld_exec_elf_call_init_funcs
logged = refl
