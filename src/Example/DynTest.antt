-- ===== src/Example/DynTest.antt =====
-- src/example/ex_app_dyn_test.c. `main` never returns; its run up to the loop at its end is modelled.
pub mod Leads
pub mod Steps
pub mod Passes
pub mod Tables
pub mod Whole
use Prim.Native.String.{String}
use uld_fdpic.Common.{ℕ, zero, suc, ◌==◌, Bool, not, if◌then◌else◌, List, [], ◌∷◌, ℤ, pos}
use uld_fdpic.Mem.{add32, sub32}
use uld_fdpic.Libc.Stdio.{File, newline}
use uld_fdpic.Print.{Printer, ◌>>◌, continue, result, num, when}
use uld_fdpic.Example.Print.{ex_print_cow}
use uld_fdpic.Example.World.{
  Func, Ftable, Garage, World, Places, Registers, on_device, set_garage, swbkpt, putchar, printf,
  print_constructor, print_streams, print_start,
}
use uld_fdpic.Example.Garage.{
  ex_garage_inc_car, ex_garage_dec_car, ex_garage_inc_truck, ex_garage_dec_truck,
  ex_garage_print_car_count, ex_garage_print_truck_count, ex_garage_print_vehicle_count,
  ex_garage_print_call_counts, ex_garage_print_banner,
}
use uld_fdpic.Example.Ftable.{call_func, ex_ftable_func_c, ex_ftable_change_funcs}

-- `count` rounds that change the cars and then the trucks.
unfoldable pub rounds : (Garage → Garage) → (Garage → Garage) → ℕ → Garage → Garage
rounds car truck zero g = g
rounds car truck (suc count) g = rounds car truck count (truck (car g))

module _ {S : Type 0} (stdout : File S) where
  unfoldable pub ex_dyn_test_ctor : Places → Registers → Printer (World S)
  ex_dyn_test_ctor places regs = do
    print_constructor stdout "ex_dyn_test_ctor" regs
    print_streams stdout places

  unfoldable pub ex_dyn_test_print_ex_ftable : Places → Printer (World S)
  ex_dyn_test_print_ex_ftable places w =
      printf stdout " .ptr_a: 0x%p  .ptr_b 0x%p  .ptr_c 0x%p\n"
        (num (places.code_of w.ftable.ptr_a)
          ∷ num (places.code_of w.ftable.ptr_b)
          ∷ num (places.code_of w.ftable.ptr_c)
          ∷ [])
        w

  unfoldable pub ex_dyn_test_print_ex_ftable_ptr : Places → Printer (World S)
  ex_dyn_test_print_ex_ftable_ptr places w =
      printf stdout "->ptr_a: 0x%p ->ptr_b 0x%p ->ptr_c 0x%p\n"
        (num (places.code_of w.ftable.ptr_a)
          ∷ num (places.code_of w.ftable.ptr_b)
          ∷ num (places.code_of w.ftable.ptr_c)
          ∷ [])
        w

  abbrev pub call_a : ℕ → Printer (World S)
  call_a x w = call_func stdout w.ftable.ptr_a x w

  abbrev pub call_b : ℕ → Printer (World S)
  call_b x w = call_func stdout w.ftable.ptr_b x w

  abbrev pub call_c : ℕ → Printer (World S)
  call_c x w = call_func stdout w.ftable.ptr_c x w

  unfoldable pub ex_dyn_test_libftable : Places → Printer (World S)
  ex_dyn_test_libftable places = do
    ex_dyn_test_print_ex_ftable places
    ex_dyn_test_print_ex_ftable_ptr places
    printf stdout "** using libftable via ftable [<%p>]...\n" (num places.ftable_at ∷ [])
    call_a 1
    call_b 2
    call_c 3
    printf stdout "** using libftable directly...\n" []
    ex_ftable_func_c stdout 4
    ex_ftable_change_funcs stdout
    ex_dyn_test_print_ex_ftable_ptr places
    printf stdout "** using libftable via ftable pointer...\n" []
    call_a 5
    call_b 6
    call_c 7
    printf stdout "** using libftable via function pointers...\n" []
    ex_ftable_func_c stdout 8
    ex_ftable_change_funcs stdout
    ex_dyn_test_print_ex_ftable places
    ex_dyn_test_print_ex_ftable_ptr places
    putchar stdout newline

  -- A check of one number; the program stops at a breakpoint if it is not the one that is expected.
  unfoldable pub verify : String → ℕ → ℕ → Printer (World S)
  verify format expected n =
      when (not (expected == n)) (printf stdout format (num expected ∷ num n ∷ []) >> swbkpt)

  abbrev verify_cars : ℕ → Printer (World S)
  verify_cars cars w = verify "cars: %d != ex_garage_car_count: %d\n" cars w.garage.car_count w

  abbrev pub verify_trucks : ℕ → Printer (World S)
  verify_trucks trucks w =
      verify "trucks: %d != ex_garage_truck_count: %d\n" trucks w.garage.truck_count w

  unfoldable pub ex_dyn_test_verify_libgarage : ℕ → ℕ → Printer (World S)
  ex_dyn_test_verify_libgarage cars trucks = do verify_cars cars; verify_trucks trucks

  abbrev pub change : (Garage → Garage) → Printer (World S)
  change f w = set_garage (f w.garage) w

  module _ (patience : ℕ) where
    abbrev expect : String → (Garage → ℕ) → Printer (World S)
    expect format count w = printf stdout format (num (count w.garage) ∷ []) w

    unfoldable pub ex_dyn_test_print_libgarage : Printer (World S)
    ex_dyn_test_print_libgarage = do
      expect "expected car count: %d - " (λ g. g.car_count)
      ex_garage_print_car_count stdout patience
      expect "expected truck count: %d - " (λ g. g.truck_count)
      ex_garage_print_truck_count stdout patience
      expect "expected total count: %d - " (λ g. add32 g.car_count g.truck_count)
      ex_garage_print_vehicle_count stdout patience

    -- One change of the garage, with the check of its numbers.
    abbrev pub stage : (Garage → Garage) → (Garage → Garage) → ℕ → ℕ → ℕ → Printer (World S)
    stage car truck count cars trucks = do
      change (rounds car truck count)
      ex_dyn_test_verify_libgarage cars trucks
      ex_dyn_test_print_libgarage

    abbrev pub test_garage : ℕ → ℕ → Printer (World S)
    test_garage cars trucks = do
      ex_garage_print_banner stdout patience
      ex_dyn_test_print_libgarage
      putchar stdout newline
      stage ex_garage_inc_car ex_garage_inc_truck 5 (add32 cars 5) (add32 trucks 5)
      putchar stdout newline
      stage ex_garage_dec_car ex_garage_dec_truck 2 (sub32 (add32 cars 5) 2)
          (sub32 (add32 trucks 5) 2)
      putchar stdout newline
      stage ex_garage_inc_car ex_garage_inc_truck 5 (add32 (sub32 (add32 cars 5) 2) 5)
          (add32 (sub32 (add32 trucks 5) 2) 5)
      putchar stdout newline
      stage ex_garage_dec_car ex_garage_dec_truck 2 (sub32 (add32 (sub32 (add32 cars 5) 2) 5) 2)
          (sub32 (add32 (sub32 (add32 trucks 5) 2) 5) 2)
      ex_garage_print_call_counts stdout patience

    unfoldable pub ex_dyn_test_libgarage : Printer (World S)
    ex_dyn_test_libgarage w = test_garage w.garage.car_count w.garage.truck_count w

    -- `mystery_func` is `ex_print_cow`.
    unfoldable pub dyn_test_main : List (List ℕ) → Registers → Places → Printer (World S)
    dyn_test_main argv regs places = do
      printf stdout "dyn_test.elf\n" []
      print_start stdout argv regs
      printf stdout "main is located at: 0x%p\n\n" (num places.main_code ∷ [])
      ex_dyn_test_libftable places
      ex_dyn_test_libgarage
      on_device (ex_print_cow stdout patience)
      swbkpt
