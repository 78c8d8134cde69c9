-- ===== src/Print/Names.antt =====
-- The names of src/uld_print.c for types, bindings, visibilities, sections and relocations, with
-- the values of include/elf.h; another value is printed as a number.
use Prim.Native.String.{String}
use uld_fdpic.Common.{ℕ, ◌==◌, false, if◌then◌else◌}
use uld_fdpic.Elf.Fields.{
  stt_object, stt_func, stt_section, r_arm_abs32, r_arm_relative, r_arm_glob_dat, r_arm_funcdesc,
  r_arm_funcdesc_value,
}
use uld_fdpic.Util.Number.{hex_text, dec_text}
use uld_fdpic.Libc.Stdio.Format.{Arg}
use uld_fdpic.Print.{chars, str}

abbrev pub stt_notype : ℕ
stt_notype = 0

abbrev pub stb_local : ℕ
stb_local = 0

abbrev pub stb_global : ℕ
stb_global = 1

abbrev pub stv_default : ℕ
stv_default = 0

abbrev pub shn_undef : ℕ
shn_undef = 0x0000

abbrev pub shn_abs : ℕ
shn_abs = 0xfff1

abbrev pub r_arm_gotfuncdesc : ℕ
r_arm_gotfuncdesc = 161

abbrev pub r_arm_gotofffuncdesc : ℕ
r_arm_gotofffuncdesc = 162

-- A literal of the source as an argument.
abbrev pub lit : String → Arg
lit t = str (chars t)

abbrev pub dec : ℕ → Arg
dec v = str (dec_text v false)

unfoldable pub type_name : ℕ → Arg
type_name t =
    if t == stt_notype
    then lit "NOTYPE"
    else if t == stt_object
    then lit "OBJECT"
    else if t == stt_func
    then lit "FUNC"
    else if t == stt_section
    then lit "SECTION"
    else dec t

unfoldable pub bind_name : ℕ → Arg
bind_name b =
    if b == stb_local then lit "LOCAL" else if b == stb_global then lit "GLOBAL" else dec b

unfoldable pub vis_name : ℕ → Arg
vis_name v = if v == stv_default then lit "DEFAULT" else dec v

unfoldable pub ndx_name : ℕ → Arg
ndx_name n = if n == shn_undef then lit "UND" else if n == shn_abs then lit "ABS" else dec n

unfoldable pub rel_name : ℕ → Arg
rel_name t =
    if t == r_arm_abs32
    then lit "ABS32"
    else if t == r_arm_relative
    then lit "RELATIVE"
    else if t == r_arm_glob_dat
    then lit "GLOB_DAT"
    else if t == r_arm_gotfuncdesc
    then lit "GOTFUNCDESC"
    else if t == r_arm_gotofffuncdesc
    then lit "GOTOFFFUNCDESC"
    else if t == r_arm_funcdesc
    then lit "FUNCDESC"
    else if t == r_arm_funcdesc_value
    then lit "FUNCDESC_VALUE"
    else str (hex_text 8 t)
