-- ===== src/Example/DynTest/Steps.antt =====
-- What the functions of src/example/ex_app_dyn_test.c add to the variables of the garage.
use uld_fdpic.Common.{
  ℕ, zero, suc, ◌+◌, ◌<◌, ◌≤◌, ◌≡◌, refl, sym, ap, ◌∙◌, arith, ◌==◌, true, some, List, [], ◌∷◌,
  ◌++◌, length, length-append, pos, if◌then◌else◌,
}
use Prim.Native.String.{String}
use uld_fdpic.Mem.{w32}
use uld_fdpic.Libc.Stdio.{File}
use uld_fdpic.Libc.Stdio.Format.{Arg}
use uld_fdpic.Libc.Stdio.Count.{IsTaking}
use uld_fdpic.Print.{Printer, continue, chars, num}
use uld_fdpic.Example.World.{Garage, World, printf}
use uld_fdpic.Example.Garage.{
  getting, ex_garage_get_cars, ex_garage_get_trucks, ex_garage_get_vehicles,
  ex_garage_print_car_count, ex_garage_print_truck_count, ex_garage_print_vehicle_count,
  ex_garage_print_call_counts, ex_garage_print_banner, count_print,
}
use uld_fdpic.Example.Garage.Counts.{Delta, unchanged, ◌⊕◌, raise, raised, raised-raised}
use uld_fdpic.Example.DynTest.{
  rounds, verify, ex_dyn_test_verify_libgarage, ex_dyn_test_print_libgarage, stage, verify_trucks,
}
use uld_fdpic.Example.Print.Returns.{Returns-box_text, Returns-upper, Returns-lower}
use uld_fdpic.Example.DynTest.Leads.{Leads, Leads-change, Leads-on_device, Leads-printf, ◌then◌}

unfoldable pub times : ℕ → Delta → Delta
times zero d = unchanged
times (suc n) d = d ⊕ times n d

rounds-raised :
    (a b : Delta) (car truck : Garage → Garage)
    → ((g : Garage) → car g ≡ raised a g)
    → ((g : Garage) → truck g ≡ raised b g)
    → (count : ℕ) (g : Garage) → rounds car truck count g ≡ raised (times count (a ⊕ b)) g
unfolding rounds times raised raise
rounds-raised a b car truck cars trucks zero g = refl
rounds-raised a b car truck cars trucks (suc n) g =
    rounds-raised a b car truck cars trucks n (truck (car g))
    ∙ ap (raised (times n (a ⊕ b))) (trucks (car g) ∙ ap (raised b) (cars g) ∙ raised-raised a b g)
    ∙ raised-raised (a ⊕ b) (times n (a ⊕ b)) g

abbrev pub one_get : Delta
one_get = record unchanged { get = 1 }

abbrev pub one_print : Delta
one_print = record unchanged { print = 1 }

-- What one print of the garage adds.
abbrev pub shown : Delta → Delta
shown d = d ⊕ one_print ⊕ one_get ⊕ one_print ⊕ one_get ⊕ one_print ⊕ one_get

verify_same :
    {S : Type 0} (stdout : File S) (format : String) (expected n : ℕ) (w : World S)
    → expected ≡ n
    → verify stdout format expected n w ≡ some (pos 0, w)
unfolding verify
verify_same stdout format expected n w e =
    let same : (expected == n) ≡ true = ground (arith, e) in rw same refl

module _ (S : Type 0) (stdout : File S) (written : S → ℕ) (takes : IsTaking S stdout written) where
  module _ (start : Garage) where
    abbrev Steps : Delta → Printer (World S) → Delta → Type 0
    Steps d p e = Leads S stdout written takes start d p e

    Steps-count_print : (d : Delta) → Steps d count_print (d ⊕ one_print)
    unfolding raised raise
    Steps-count_print d = Leads-change S stdout written takes start d one_print _ (λ g. refl)

    -- A printer that reads the garage.
    Steps-reading :
        (d : Delta) (p : Garage → Printer (World S))
        → ((g : Garage) → Steps d (p g) d)
        → Steps d (λ w. p w.garage w) d
    Steps-reading d p each = record { run = λ w at. (each w.garage).run w at }

    Steps-getting :
        (d : Delta) (get : Garage → ℕ × Garage) (format : String)
        → ((g : Garage) → (get g).1 ≡ raised one_get g)
        → Steps d (getting get (λ n. printf stdout format (num n ∷ []))) (d ⊕ one_get)
    Steps-getting d get format adds = record {
      run = λ w at.
          let got = Leads-change S stdout written takes start d one_get (λ g. (get g).1) adds in
          let print =
            Leads-printf S stdout written takes start (d ⊕ one_get) format
              (num (get w.garage).0 ∷ []) in
          (got then print).run w at;
    }

    Steps-printf :
        (d : Delta) (format : String) (args : List Arg) → Steps d (printf stdout format args) d
    Steps-printf d format args = Leads-printf S stdout written takes start d format args

    module _ (patience : ℕ) where
      Steps-car_count :
          (d : Delta)
          → Steps d (ex_garage_print_car_count stdout patience) (d ⊕ one_print ⊕ one_get)
      unfolding ex_garage_print_car_count ex_garage_get_cars raised raise
      Steps-car_count d =
          Steps-count_print d
          then Leads-on_device S stdout written takes start (d ⊕ one_print) _
              (Returns-upper S stdout written takes patience (chars "CAR count: "))
          then Steps-getting (d ⊕ one_print) ex_garage_get_cars "%d cars\n" (λ g. refl)

      Steps-truck_count :
          (d : Delta)
          → Steps d (ex_garage_print_truck_count stdout patience) (d ⊕ one_print ⊕ one_get)
      unfolding ex_garage_print_truck_count ex_garage_get_trucks raised raise
      Steps-truck_count d =
          Steps-count_print d
          then Leads-on_device S stdout written takes start (d ⊕ one_print) _
              (Returns-lower S stdout written takes patience (chars "TRUCK count: "))
          then Steps-getting (d ⊕ one_print) ex_garage_get_trucks "%d trucks\n" (λ g. refl)

      Steps-vehicle_count :
          (d : Delta)
          → Steps d (ex_garage_print_vehicle_count stdout patience) (d ⊕ one_print ⊕ one_get)
      unfolding ex_garage_print_vehicle_count ex_garage_get_vehicles raised raise
      Steps-vehicle_count d =
          Steps-count_print d
          then Steps-getting (d ⊕ one_print) ex_garage_get_vehicles "total count: %d vehicles\n"
              (λ g. refl)

      pub Steps-call_counts :
          (d : Delta) → Steps d (ex_garage_print_call_counts stdout patience) (d ⊕ one_print)
      unfolding ex_garage_print_call_counts
      Steps-call_counts d =
          Steps-count_print d
          then Steps-reading (d ⊕ one_print)
              (λ g. printf stdout "call count - get: %d set: %d inc/dec: %d print: %d\n" (
                num g.call_count_get
                ∷ num g.call_count_set
                ∷ num g.call_count_inc_dec
                ∷ num g.call_count_print
                ∷ []))
              (λ g. Steps-printf (d ⊕ one_print) _ _)

      pub Steps-print_libgarage :
          (d : Delta) → Steps d (ex_dyn_test_print_libgarage stdout patience) (shown d)
      unfolding ex_dyn_test_print_libgarage
      Steps-print_libgarage d =
          Steps-reading d _ (λ g. Steps-printf d _ _)
          then Steps-car_count d
          then Steps-reading (d ⊕ one_print ⊕ one_get) _ (λ g. Steps-printf _ _ _)
          then Steps-truck_count (d ⊕ one_print ⊕ one_get)
          then Steps-reading (d ⊕ one_print ⊕ one_get ⊕ one_print ⊕ one_get) _
              (λ g. Steps-printf _ _ _)
          then Steps-vehicle_count (d ⊕ one_print ⊕ one_get ⊕ one_print ⊕ one_get)

      -- The checks pass where the expected numbers are those of the garage.
      Steps-verify :
          (d : Delta) (cars trucks : ℕ)
          → cars ≡ raise d.cars start.car_count
          → trucks ≡ raise d.trucks start.truck_count
          → Steps d (ex_dyn_test_verify_libgarage stdout cars trucks) d
      unfolding ex_dyn_test_verify_libgarage raised
      Steps-verify d cars trucks same_cars same_trucks = record {
        run = λ w at.
            let first =
              verify_same stdout "cars: %d != ex_garage_car_count: %d\n" cars _ w
                (same_cars ∙ sym (ap (λ (g : Garage). g.car_count) at)) in
            let second =
              verify_same stdout "trucks: %d != ex_garage_truck_count: %d\n" trucks _ w
                (same_trucks ∙ sym (ap (λ (g : Garage). g.truck_count) at)) in
            record {
              value = pos 0;
              after = w;
              returns = ap (continue (λ r. verify_trucks stdout trucks)) first ∙ second;
              garage = at;
              ftable = refl;
              breakpoints = refl;
              more = omega arith;
            };
      }

      pub Steps-stage :
          (d a b : Delta) (car truck : Garage → Garage)
          → ((g : Garage) → car g ≡ raised a g)
          → ((g : Garage) → truck g ≡ raised b g)
          → (count cars trucks : ℕ)
          → let e = d ⊕ times count (a ⊕ b) in
            cars ≡ raise e.cars start.car_count
            → trucks ≡ raise e.trucks start.truck_count
            → Steps d (stage stdout patience car truck count cars trucks) (shown e)
      Steps-stage d a b car truck is_a is_b count cars trucks same_cars same_trucks =
          let e = d ⊕ times count (a ⊕ b) in
          Leads-change S stdout written takes start d (times count (a ⊕ b)) (rounds car truck count)
            (rounds-raised a b car truck is_a is_b count)
          then Steps-verify e cars trucks same_cars same_trucks
          then Steps-print_libgarage e

      pub Steps-banner :
          (d : Delta)
          → 11 + length start.name ≤ patience
          → patience < w32
          → Steps d (ex_garage_print_banner stdout patience) (d ⊕ one_print)
      unfolding ex_garage_print_banner raised chars
      Steps-banner d enough word = Steps-count_print d then record {
        run = λ w at.
            let e = length-append (chars "Welcome to ") w.garage.name in
            let n = ap (λ (g : Garage). length g.name) at in
            let all : length (chars "Welcome to " ++ w.garage.name) ≡ 11 + length start.name =
              e ∙ ap (λ k. 11 + k) n in
            (Leads-on_device S stdout written takes start (d ⊕ one_print) _ (λ s.
                Returns-box_text S stdout written takes patience
                  (chars "Welcome to " ++ w.garage.name) s (omega (arith, all, enough))
                  (omega (arith, all, enough, word)))).run
              w at;
      }
