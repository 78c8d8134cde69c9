-- ===== src/Example/DynTest/Passes.antt =====
-- The test of the garage passes its own checks, from any state of the garage.
use uld_fdpic.Common.{
  ℕ, ◌+◌, ◌-◌, ◌*◌, ◌<◌, ◌≤◌, ◌≡◌, refl, ◌∙◌, arith, some, length, ℤ, if◌then◌else◌,
}
use uld_fdpic.Mem.{w32, add32, sub32}
use uld_fdpic.Libc.Stdio.{File, newline}
use uld_fdpic.Libc.Stdio.Count.{IsTaking}
use uld_fdpic.Print.{Printer}
use uld_fdpic.Example.World.{Garage, World}
use uld_fdpic.Example.Garage.{
  ex_garage_inc_car, ex_garage_dec_car, ex_garage_inc_truck, ex_garage_dec_truck,
}
use uld_fdpic.Example.Garage.Counts.{
  Delta, unchanged, ◌⊕◌, raise, raised, one_change, raised-inc_car, raised-inc_truck,
  raised-dec_car, raised-dec_truck,
}
use uld_fdpic.Example.DynTest.{ex_dyn_test_libgarage, stage, test_garage}
use uld_fdpic.Example.DynTest.Steps.{
  times, shown, Steps-print_libgarage, Steps-stage, Steps-banner, Steps-call_counts,
}
use uld_fdpic.Example.DynTest.Leads.{Leads, Leads-putchar, ◌then◌}

-- What the test adds to the variables.
abbrev tested : Delta
tested = record {
  get = 43;
  set = 28;
  inc_dec = 28;
  print = 17;
  cars = 10 + 4 * (w32 - 1);
  trucks = 10 + 4 * (w32 - 1);
}

abbrev more_cars : Delta
more_cars = record one_change { cars = 1 }

abbrev more_trucks : Delta
more_trucks = record one_change { trucks = 1 }

abbrev fewer_cars : Delta
fewer_cars = record one_change { cars = w32 - 1 }

abbrev fewer_trucks : Delta
fewer_trucks = record one_change { trucks = w32 - 1 }

fewer_lem : (n : ℕ) → sub32 (add32 n 5) 2 ≡ add32 n (5 + 2 * (w32 - 1))
fewer_lem n = ground arith

more_lem : (n : ℕ) → add32 (sub32 (add32 n 5) 2) 5 ≡ add32 n (10 + 2 * (w32 - 1))
more_lem n = ground arith

end_lem : (n : ℕ) → sub32 (add32 (sub32 (add32 n 5) 2) 5) 2 ≡ add32 n (10 + 4 * (w32 - 1))
end_lem n = ground arith

six_lem : (n : ℕ) → add32 n (10 + 4 * (w32 - 1)) ≡ add32 n 6
six_lem n = ground arith

-- The garage after its test: 43 reads, 28 writes, 28 changes by one and 17 prints more, and six cars
-- and six trucks more.
abbrev pub tested_garage : Garage → Garage
tested_garage g = record {
  call_count_get = add32 g.call_count_get 43;
  call_count_set = add32 g.call_count_set 28;
  call_count_inc_dec = add32 g.call_count_inc_dec 28;
  call_count_print = add32 g.call_count_print 17;
  car_count = add32 g.car_count 6;
  truck_count = add32 g.truck_count 6;
  name = g.name;
}

module _ (S : Type 0) (stdout : File S) (written : S → ℕ) (takes : IsTaking S stdout written) where
  module _ (start : Garage) (patience : ℕ) where
    abbrev Steps : Delta → Printer (World S) → Delta → Type 0
    Steps d p e = Leads S stdout written takes start d p e

    Steps-more :
        (d : Delta) (cars trucks : ℕ)
        → cars ≡ raise (d.cars + 5) start.car_count
        → trucks ≡ raise (d.trucks + 5) start.truck_count
        → Steps d
            (stage stdout patience ex_garage_inc_car ex_garage_inc_truck 5 cars trucks)
            (shown (d ⊕ times 5 (more_cars ⊕ more_trucks)))
    unfolding times
    Steps-more d cars trucks same_cars same_trucks =
        Steps-stage S stdout written takes start patience d more_cars more_trucks ex_garage_inc_car
          ex_garage_inc_truck raised-inc_car raised-inc_truck 5 cars trucks same_cars same_trucks

    Steps-fewer :
        (d : Delta) (cars trucks : ℕ)
        → cars ≡ raise (d.cars + 2 * (w32 - 1)) start.car_count
        → trucks ≡ raise (d.trucks + 2 * (w32 - 1)) start.truck_count
        → Steps d
            (stage stdout patience ex_garage_dec_car ex_garage_dec_truck 2 cars trucks)
            (shown (d ⊕ times 2 (fewer_cars ⊕ fewer_trucks)))
    unfolding times
    Steps-fewer d cars trucks same_cars same_trucks =
        Steps-stage S stdout written takes start patience d fewer_cars fewer_trucks
          ex_garage_dec_car ex_garage_dec_truck raised-dec_car raised-dec_truck 2 cars trucks
          same_cars same_trucks

    Steps-libgarage :
        11 + length start.name ≤ patience
        → patience < w32
        → Steps unchanged (test_garage stdout patience start.car_count start.truck_count) tested
    unfolding times raise
    Steps-libgarage enough word =
        let c = start.car_count in
        let t = start.truck_count in
        Steps-banner S stdout written takes start patience unchanged enough word
        then Steps-print_libgarage S stdout written takes start patience _
        then Leads-putchar S stdout written takes start _ newline
        then Steps-more _ (add32 c 5) (add32 t 5) refl refl
        then Leads-putchar S stdout written takes start _ newline
        then Steps-fewer _ (sub32 (add32 c 5) 2) (sub32 (add32 t 5) 2) (fewer_lem c) (fewer_lem t)
        then Leads-putchar S stdout written takes start _ newline
        then Steps-more _ (add32 (sub32 (add32 c 5) 2) 5) (add32 (sub32 (add32 t 5) 2) 5)
            (more_lem c) (more_lem t)
        then Leads-putchar S stdout written takes start _ newline
        then Steps-fewer _ (sub32 (add32 (sub32 (add32 c 5) 2) 5) 2)
            (sub32 (add32 (sub32 (add32 t 5) 2) 5) 2) (end_lem c) (end_lem t)
        then Steps-call_counts S stdout written takes start patience _

  -- On a device that takes all it is given, the test of the garage returns, from every state of the
  -- garage, with the patience for the banner with its name. It stops at no breakpoint, so each
  -- of its checks passes; it leaves the table of functions alone, and takes nothing back from the
  -- device. It ends with 6 more cars and 6 more trucks, and it has counted 43 reads, 28 writes,
  -- 28 changes by one and 17 prints, each modulo 2^32.
  pub ex_dyn_test_libgarage_lem :
      (patience : ℕ) (w : World S)
      → 11 + length w.garage.name ≤ patience
      → patience < w32
      → (value : ℤ) × (after : World S) × (ex_dyn_test_libgarage stdout patience w
          ≡ some (value, after))
        × (after.garage ≡ tested_garage w.garage)
        × (after.breakpoints ≡ w.breakpoints)
        × (after.ftable ≡ w.ftable)
        × (written w.device ≤ written after.device)
  unfolding ex_dyn_test_libgarage raised raise
  ex_dyn_test_libgarage_lem patience w enough word =
      let run = (Steps-libgarage w.garage patience enough word).run w refl in
      let all : raised tested w.garage ≡ record (raised tested w.garage) {
        car_count = add32 w.garage.car_count 6;
        truck_count = add32 w.garage.truck_count 6;
      } =
        rw (six_lem w.garage.car_count, six_lem w.garage.truck_count) refl in
      (run.value, run.after, run.returns, run.garage ∙ all, run.breakpoints, run.ftable, run.more)
