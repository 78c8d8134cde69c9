-- ===== src/Example/Garage.antt =====
-- src/example/ex_lib_garage.c. A function that is reached through a pointer is called as it is: each
-- pointer is set in front of the call and stays.
pub mod Counts
use uld_fdpic.Common.{ℕ, ◌++◌, Bool, true, false, Option, some, List, [], ◌∷◌, ℤ, pos}
use uld_fdpic.Mem.{add32, sub32}
use uld_fdpic.Libc.Stdio.{File}
use uld_fdpic.Print.{Printer, ◌>>◌, ◌>>=◌, continue, result, num, chars}
use uld_fdpic.Example.Print.{ex_print_box_text, ex_print_upper, ex_print_lower}
use uld_fdpic.Example.World.{
  Garage, World, Places, Registers, on_device, set_garage, printf, print_constructor, print_streams,
}

unfoldable pub ex_garage_set_cars : ℕ → Garage → Garage
ex_garage_set_cars cars g = record g { call_count_set = add32 g.call_count_set 1; car_count = cars }

unfoldable pub ex_garage_get_cars : Garage → ℕ × Garage
ex_garage_get_cars g = (g.car_count, record g { call_count_get = add32 g.call_count_get 1 })

abbrev count_inc_dec : Garage → Garage
count_inc_dec g = record g { call_count_inc_dec = add32 g.call_count_inc_dec 1 }

unfoldable pub ex_garage_inc_car : Garage → Garage
ex_garage_inc_car g =
    let got = ex_garage_get_cars (count_inc_dec g) in ex_garage_set_cars (add32 got.0 1) got.1

unfoldable pub ex_garage_dec_car : Garage → Garage
ex_garage_dec_car g =
    let got = ex_garage_get_cars (count_inc_dec g) in ex_garage_set_cars (sub32 got.0 1) got.1

unfoldable pub ex_garage_set_trucks : ℕ → Garage → Garage
ex_garage_set_trucks trucks g = record g {
  call_count_set = add32 g.call_count_set 1;
  truck_count = trucks;
}

unfoldable pub ex_garage_get_trucks : Garage → ℕ × Garage
ex_garage_get_trucks g = (g.truck_count, record g { call_count_get = add32 g.call_count_get 1 })

unfoldable pub ex_garage_inc_truck : Garage → Garage
ex_garage_inc_truck g =
    let got = ex_garage_get_trucks (count_inc_dec g) in ex_garage_set_trucks (add32 got.0 1) got.1

unfoldable pub ex_garage_dec_truck : Garage → Garage
ex_garage_dec_truck g =
    let got = ex_garage_get_trucks (count_inc_dec g) in ex_garage_set_trucks (sub32 got.0 1) got.1

unfoldable pub ex_garage_get_vehicles : Garage → ℕ × Garage
ex_garage_get_vehicles g =
    (add32 g.car_count g.truck_count, record g { call_count_get = add32 g.call_count_get 1 })

abbrev pub count_print : {S : Type 0} → Printer (World S)
count_print w =
    set_garage (record w.garage { call_count_print = add32 w.garage.call_count_print 1 }) w

-- A getter, and what is done with its number.
abbrev pub getting :
    {S : Type 0} → (Garage → ℕ × Garage) → (ℕ → Printer (World S)) → Printer (World S)
getting get next w = let got = get w.garage in next got.0 (record w { garage = got.1 })

module _ {S : Type 0} (stdout : File S) (patience : ℕ) where
  unfoldable pub ex_garage_print_car_count : Printer (World S)
  ex_garage_print_car_count = do
    count_print
    on_device (ex_print_upper stdout patience (some (chars "CAR count: ")))
    getting ex_garage_get_cars (λ n. printf stdout "%d cars\n" (num n ∷ []))

  unfoldable pub ex_garage_print_truck_count : Printer (World S)
  ex_garage_print_truck_count = do
    count_print
    on_device (ex_print_lower stdout patience (some (chars "TRUCK count: ")))
    getting ex_garage_get_trucks (λ n. printf stdout "%d trucks\n" (num n ∷ []))

  unfoldable pub ex_garage_print_vehicle_count : Printer (World S)
  ex_garage_print_vehicle_count = do
    count_print
    getting ex_garage_get_vehicles (λ n. printf stdout "total count: %d vehicles\n" (num n ∷ []))

  abbrev print_counts : Printer (World S)
  print_counts w =
      printf stdout "call count - get: %d set: %d inc/dec: %d print: %d\n"
        (num w.garage.call_count_get
          ∷ num w.garage.call_count_set
          ∷ num w.garage.call_count_inc_dec
          ∷ num w.garage.call_count_print
          ∷ [])
        w

  unfoldable pub ex_garage_print_call_counts : Printer (World S)
  ex_garage_print_call_counts = count_print >> print_counts

  abbrev print_welcome : Printer (World S)
  print_welcome w =
      on_device (ex_print_box_text stdout patience (some (chars "Welcome to " ++ w.garage.name))) w

  unfoldable pub ex_garage_print_banner : Printer (World S)
  ex_garage_print_banner = count_print >> print_welcome

  unfoldable pub ex_garage_ctor_1 : Places → Registers → Printer (World S)
  ex_garage_ctor_1 places regs = do
    print_constructor stdout "ex_garage_ctor_1" regs
    print_streams stdout places
    ex_garage_print_call_counts

  unfoldable pub ex_garage_ctor_2 : Places → Registers → Printer (World S)
  ex_garage_ctor_2 places regs = do
    print_constructor stdout "ex_garage_ctor_2" regs
    printf stdout "ex_print_dl_alloc_* [<%p>] [<%p>] [<%p>]\n"
        (num places.alloc_a ∷ num places.alloc_b ∷ num places.alloc_c ∷ [])
