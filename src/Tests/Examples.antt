-- ===== src/Tests/Examples.antt =====
-- The example programs, on a device that keeps the characters it is given.
use uld_fdpic.Common.{ℕ, ◌≡◌, refl, arith, some, List, [], ◌∷◌, ◌++◌, length, ℤ, pos}
use uld_fdpic.Tests.Printed.{keeps, keeps-IsTaking}
use uld_fdpic.Print.{chars}
use uld_fdpic.Example.Print.{
  ex_print_box, ex_print_box_text, ex_print_box_top, ex_print_box_bottom, ex_print_lmr, box_lines,
  ex_print_nputchar, nput_loop,
}
use uld_fdpic.Libc.Stdio.{replicate, _uld_fwrite, _uld_putc}
use uld_fdpic.Example.Print.Shows.{IsShowing}
use uld_fdpic.Example.Print.Box.{box_of, ex_print_box_text_lem}
use uld_fdpic.Example.World.{World, Func, Places, Registers, new_garage, new_ftable}
use uld_fdpic.Example.Ftable.{switched}
use uld_fdpic.Example.DynTest.{dyn_test_main}
use uld_fdpic.Example.DynTest.Passes.{tested_garage}
use uld_fdpic.Example.DynTest.Whole.{dyn_test_main_lem}

keeps-IsShowing : IsShowing (List ℕ) keeps (λ s. s)
keeps-IsShowing = record {
  taking = keeps-IsTaking;
  show_all = λ buf s. refl;
  show_one = λ c s. refl;
}

-- "got"
abbrev got : List ℕ
got = 103 ∷ 111 ∷ 116 ∷ []

ex_print_box_text_lem_example :
    (after : List ℕ) × (ex_print_box_text keeps 8 (some got) [] ≡ some (pos 0, after))
    × (after ≡ [] ++ box_of got)
ex_print_box_text_lem_example =
    ex_print_box_text_lem (List ℕ) keeps (λ s. s) keeps-IsShowing 8 got [] (omega arith)
      (omega arith)

-- Four wide, and three high.
boxed : ex_print_box keeps 8 4 3 [] ≡ some (pos 0, chars "/--\\\n|  |\n\\--/\n")
unfolding ex_print_box ex_print_box_top ex_print_box_bottom ex_print_lmr box_lines ex_print_nputchar
    nput_loop replicate _uld_fwrite _uld_putc chars
boxed = refl

abbrev new_world : World (List ℕ)
new_world = record { garage = new_garage; ftable = new_ftable; breakpoints = 0; device = [] }

abbrev places : Places
places = record {
  code_of = λ (f : Func). 0x8000100;
  ftable_at = 0x20000010;
  main_code = 0x8000200;
  stdin_at = 0x20000100;
  stdout_at = 0x20000120;
  stderr_at = 0x20000140;
  write_code = 0x8000300;
  puts_code = 0x8000320;
  printf_code = 0x8000340;
  alloc_a = 0x20000200;
  alloc_b = 0x20000204;
  alloc_c = 0x20000208;
}

abbrev registers : Registers
registers = record { pc = 0x8000210; sp = 0x20005000; fb = 0x20000000 }

-- From the start of the program, with one argument: 8 cars and 6 trucks in the end.
dyn_test_main_lem_example :
    (value : ℤ) × (after : World (List ℕ)) × (dyn_test_main keeps 40
        (got ∷ [])
        registers
        places
        new_world
      ≡ some (value, after))
    × (after.garage ≡ tested_garage new_garage)
    × (after.ftable ≡ switched 1)
    × (after.breakpoints ≡ 1)
unfolding chars switched
dyn_test_main_lem_example =
    dyn_test_main_lem (List ℕ) keeps length keeps-IsTaking 40 (got ∷ []) registers places new_world
      (omega arith) (omega arith)
