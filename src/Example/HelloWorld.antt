-- ===== src/Example/HelloWorld.antt =====
-- src/example/ex_app_hello_world.c, up to the loop at its end.
use uld_fdpic.Common.{ℕ, Bool, List, [], ◌∷◌}
use uld_fdpic.Libc.Stdio.{File}
use uld_fdpic.Print.{Printer, ◌>>◌, num, when}
use uld_fdpic.Example.World.{World, Places, Registers, swbkpt, printf, print_start}

-- `dynamic` tells whether HELLO_WORLD_DYNAMIC is defined.
unfoldable pub hello_world_main :
    {S : Type 0} → File S → Bool → List (List ℕ) → Registers → Places → Printer (World S)
hello_world_main stdout dynamic argv regs places = do
  printf stdout "hello world!\n" []
  when dynamic (printf stdout "this is built using dynamic linking\n" [])
  print_start stdout argv regs
  printf stdout "main is located at: 0x%p\n" (num places.main_code ∷ [])
  swbkpt
