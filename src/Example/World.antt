-- ===== src/Example/World.antt =====
-- What the example programs share: the variables of src/example/ex_lib_garage.c and
-- src/example/ex_lib_ftable.c, the devices, and the addresses that they print.
use uld_fdpic.Common.{ℕ, ◌+◌, Option, none, some, List, [], ◌∷◌, ℤ, pos}
use Prim.Native.String.{String}
use uld_fdpic.Print.{Printer, ◌>>◌, result, num, str, fprintf, chars}
use uld_fdpic.Libc.Stdio.{File, _uld_putchar}
use uld_fdpic.Libc.Stdio.Format.{Arg}

-- `name` is the text that `ex_garage_name` points to; the numbers are `int`s.
pub record Garage : Type 0 where
  pub call_count_get : ℕ
  pub call_count_set : ℕ
  pub call_count_inc_dec : ℕ
  pub call_count_print : ℕ
  pub car_count : ℕ
  pub truck_count : ℕ
  pub name : List ℕ

abbrev pub new_garage : Garage
new_garage = record {
  call_count_get = 0;
  call_count_set = 2;
  call_count_inc_dec = 0;
  call_count_print = 1;
  car_count = 2;
  truck_count = 0;
  name = chars "Squeaky's garage";
}

-- ex_ftable_func_a, _b and _c, and the table of pointers to them.
pub data Func : Type 0 where
  func_a : Func
  func_b : Func
  func_c : Func

-- `ex_ftable_ptr` points to `ex_ftable` for good.
pub record Ftable : Type 0 where
  pub ptr_a : Func
  pub ptr_b : Func
  pub ptr_c : Func
  pub state : ℕ

abbrev pub new_ftable : Ftable
new_ftable = record { ptr_a = func_a; ptr_b = func_b; ptr_c = func_c; state = 0 }

-- `breakpoints` counts the calls of swbkpt.
pub record World (S : Type 0) : Type 0 where
  pub garage : Garage
  pub ftable : Ftable
  pub breakpoints : ℕ
  pub device : S

-- Addresses that the loader has given: of the code of the functions, of `ex_ftable`, of the streams
-- and of the variables that the dynamic linker makes space for.
pub record Places : Type 0 where
  pub code_of : Func → ℕ
  pub ftable_at : ℕ
  pub main_code : ℕ
  pub stdin_at : ℕ
  pub stdout_at : ℕ
  pub stderr_at : ℕ
  pub write_code : ℕ
  pub puts_code : ℕ
  pub printf_code : ℕ
  pub alloc_a : ℕ
  pub alloc_b : ℕ
  pub alloc_c : ℕ

-- What cpu_get_pc, cpu_get_sp and cpu_get_fb return.
pub record Registers : Type 0 where
  pub pc : ℕ
  pub sp : ℕ
  pub fb : ℕ

abbrev pub with_device : {S : Type 0} → World S → Option (ℤ × S) → Option (ℤ × World S)
with_device w none = none
with_device w (some (r, s)) = some (r, record w { device = s })

-- A printer on the device leaves the variables alone.
abbrev pub on_device : {S : Type 0} → Printer S → Printer (World S)
on_device p w = with_device w (p w.device)

abbrev pub set_garage : {S : Type 0} → Garage → Printer (World S)
set_garage g w = some (pos 0, record w { garage = g })

abbrev pub swbkpt : {S : Type 0} → Printer (World S)
swbkpt w = some (pos 0, record w { breakpoints = w.breakpoints + 1 })

module _ {S : Type 0} (stdout : File S) where
  abbrev pub putchar : ℕ → Printer (World S)
  putchar c = on_device (λ s. some (_uld_putchar stdout c s))

  abbrev pub printf : String → List Arg → Printer (World S)
  printf format args = on_device (fprintf stdout format args)

  -- The two lines that each constructor starts with.
  unfoldable pub print_constructor : String → Registers → Printer (World S)
  print_constructor name regs = do
    printf "** constructor %s called **\n" (str (chars name) ∷ [])
    printf "registers pc: 0x%08lx sp: 0x%08lx fb: 0x%08lx\n"
        (num regs.pc ∷ num regs.sp ∷ num regs.fb ∷ [])

  -- The last two lines of the constructors that know the standard streams.
  unfoldable pub print_streams : Places → Printer (World S)
  print_streams places = do
    printf "stdin: %p stdout: %p stderr: %p\n"
        (num places.stdin_at ∷ num places.stdout_at ∷ num places.stderr_at ∷ [])
    printf "write: %p puts: %p printf: %p\n"
        (num places.write_code ∷ num places.puts_code ∷ num places.printf_code ∷ [])

  -- The loop over the arguments of a program, and the lines on its registers.
  unfoldable pub print_args : List (List ℕ) → Printer (World S)
  print_args [] = result (pos 0)
  print_args (a ∷ more) = printf " %s" (str a ∷ []) >> print_args more

  abbrev pub start_args : List (List ℕ) → Printer (World S)
  start_args [] = printf " <none>" []
  start_args (a ∷ more) = print_args (a ∷ more)

  unfoldable pub print_start : List (List ℕ) → Registers → Printer (World S)
  print_start argv regs = do
    printf "started with args:" []
    start_args argv
    printf "\nregisters pc: 0x%08lx sp: 0x%08lx fb: 0x%08lx\n"
        (num regs.pc ∷ num regs.sp ∷ num regs.fb ∷ [])
