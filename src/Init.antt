-- ===== src/Init.antt =====
-- src/uld_init.c: what runs before uld_main. The bounds of the loader's own arrays come from the
-- linker, and what the constructors do is a parameter.
use uld_fdpic.Common.{ℕ}
use uld_fdpic.Mem.{Mem}
use uld_fdpic.Exec.{uld_exec_call_vv_fp_array}

-- cpu_reset_clks and cpu_init_clks of src/cpu.c are empty.
unfoldable pub uld_start_hw_init : Mem → Mem
uld_start_hw_init m = m

unfoldable pub uld_start_init : (ℕ → Mem → Mem) → ℕ × ℕ → ℕ × ℕ → Mem → Mem
uld_start_init call preinit_array init_array m =
    let preinit = uld_exec_call_vv_fp_array call preinit_array.0 preinit_array.1 m in
    let init = uld_exec_call_vv_fp_array call init_array.0 init_array.1 preinit in
    uld_start_hw_init init
