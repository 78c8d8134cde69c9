-- ===== src/Example/Garage/Counts.antt =====
-- What the operations of src/example/ex_lib_garage.c add to its variables, each modulo 2^32.
use uld_fdpic.Common.{ℕ, ◌+◌, ◌-◌, ◌%◌, ◌≡◌, refl, arith, ◌==◌, if◌then◌else◌}
use uld_fdpic.Mem.{w32, add32, sub32}
use uld_fdpic.Example.World.{Garage}
use uld_fdpic.Example.Garage.{
  ex_garage_set_cars, ex_garage_get_cars, ex_garage_inc_car, ex_garage_dec_car,
  ex_garage_set_trucks, ex_garage_get_trucks, ex_garage_inc_truck, ex_garage_dec_truck,
}

-- A variable that nothing is added to is not cut to 32 bits.
unfoldable pub raise : ℕ → ℕ → ℕ
raise n x = if n == 0 then x else add32 x n

raise_lem : (n x : ℕ) → raise n x % w32 ≡ (x + n) % w32
unfolding raise
raise_lem n x = ground arith

raise-raise : (n m x : ℕ) → raise n (raise m x) ≡ raise (m + n) x
unfolding raise
raise-raise n m x = ground arith

-- What is added to each of the variables.
pub record Delta : Type 0 where
  pub get : ℕ
  pub set : ℕ
  pub inc_dec : ℕ
  pub print : ℕ
  pub cars : ℕ
  pub trucks : ℕ

abbrev pub unchanged : Delta
unchanged = record { get = 0; set = 0; inc_dec = 0; print = 0; cars = 0; trucks = 0 }

infixl 6 ◌⊕◌
abbrev pub ◌⊕◌ : Delta → Delta → Delta
d ⊕ e = record {
  get = d.get + e.get;
  set = d.set + e.set;
  inc_dec = d.inc_dec + e.inc_dec;
  print = d.print + e.print;
  cars = d.cars + e.cars;
  trucks = d.trucks + e.trucks;
}

unfoldable pub raised : Delta → Garage → Garage
raised d g = record {
  call_count_get = raise d.get g.call_count_get;
  call_count_set = raise d.set g.call_count_set;
  call_count_inc_dec = raise d.inc_dec g.call_count_inc_dec;
  call_count_print = raise d.print g.call_count_print;
  car_count = raise d.cars g.car_count;
  truck_count = raise d.trucks g.truck_count;
  name = g.name;
}

pub raised-raised : (d e : Delta) (g : Garage) → raised e (raised d g) ≡ raised (d ⊕ e) g
unfolding raised
raised-raised d e g =
    rw
      (
        raise-raise e.get d.get g.call_count_get,
        raise-raise e.set d.set g.call_count_set,
        raise-raise e.inc_dec d.inc_dec g.call_count_inc_dec,
        raise-raise e.print d.print g.call_count_print,
        raise-raise e.cars d.cars g.car_count,
        raise-raise e.trucks d.trucks g.truck_count,
      )
      refl

-- A change of one number: a read, a write and a call that counts as a change.
abbrev pub one_change : Delta
one_change = record unchanged { get = 1; set = 1; inc_dec = 1 }

pub raised-inc_car : (g : Garage) → ex_garage_inc_car g ≡ raised (record one_change { cars = 1 }) g
unfolding ex_garage_inc_car ex_garage_get_cars ex_garage_set_cars raised raise
raised-inc_car g = refl

pub raised-inc_truck :
    (g : Garage) → ex_garage_inc_truck g ≡ raised (record one_change { trucks = 1 }) g
unfolding ex_garage_inc_truck ex_garage_get_trucks ex_garage_set_trucks raised raise
raised-inc_truck g = refl

less_one : (x : ℕ) → sub32 x 1 ≡ raise (w32 - 1) x
unfolding raise
less_one x = ground arith

pub raised-dec_car :
    (g : Garage) → ex_garage_dec_car g ≡ raised (record one_change { cars = w32 - 1 }) g
unfolding ex_garage_dec_car ex_garage_get_cars ex_garage_set_cars raised raise
raised-dec_car g = rw (less_one g.car_count) refl

pub raised-dec_truck :
    (g : Garage) → ex_garage_dec_truck g ≡ raised (record one_change { trucks = w32 - 1 }) g
unfolding ex_garage_dec_truck ex_garage_get_trucks ex_garage_set_trucks raised raise
raised-dec_truck g = rw (less_one g.truck_count) refl
