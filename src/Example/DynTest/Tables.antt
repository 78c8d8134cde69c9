-- ===== src/Example/DynTest/Tables.antt =====
-- The printers of the table of functions, and what they make of the table.
use uld_fdpic.Common.{ℕ, ◌≡◌, refl, ap, ◌∙◌, arith, Option, some, List, [], ◌∷◌, ℤ, pos}
use Prim.Native.String.{String}
use uld_fdpic.Libc.Stdio.{File, newline, _uld_putchar}
use uld_fdpic.Libc.Stdio.Format.{Arg}
use uld_fdpic.Libc.Stdio.Count.{IsTaking}
use uld_fdpic.Print.{Printer, ◌>>◌, continue, result, num}
use uld_fdpic.Print.Returns.{Returns, Returns-fprintf}
use uld_fdpic.Example.World.{
  Func, func_a, func_b, func_c, Ftable, World, Places, Registers, on_device, with_device, printf,
  print_args, start_args, print_start,
}
use uld_fdpic.Example.Ftable.{
  switched, call_func, ex_ftable_func_a, ex_ftable_func_b, ex_ftable_func_c, ex_ftable_change_funcs,
}
use uld_fdpic.Example.DynTest.{
  call_a, call_b, call_c, ex_dyn_test_print_ex_ftable, ex_dyn_test_print_ex_ftable_ptr,
  ex_dyn_test_libftable,
}

module _ (S : Type 0) (stdout : File S) (written : S → ℕ) (takes : IsTaking S stdout written) where
  -- A run that returns with the table `t`, and leaves the garage and the breakpoints as they are.
  pub record Leaves (t : Ftable) (w : World S) (o : Option (ℤ × World S)) : Type 0 where
    pub value : ℤ
    pub after : World S
    pub returns : o ≡ some (value, after)
    pub ftable : after.ftable ≡ t
    pub garage : after.garage ≡ w.garage
    pub breakpoints : after.breakpoints ≡ w.breakpoints

  pub record Tables (t : Ftable) (p : Printer (World S)) (u : Ftable) : Type 0 where
    pub run : (w : World S) → w.ftable ≡ t → Leaves u w (p w)

  infixr 4 ◌next◌
  abbrev ◌next◌ :
      {t u v : Ftable} {p q : Printer (World S)} → Tables t p u → Tables u q v → Tables t (p >> q) v
  ◌next◌ {t} {u} {v} {p} {q} before behind = record {
    run = λ w at.
        let now = before.run w at in
        let rest = behind.run now.after now.ftable in
        record {
          value = rest.value;
          after = rest.after;
          returns = ap (continue (λ r. q)) now.returns ∙ rest.returns;
          ftable = rest.ftable;
          garage = rest.garage ∙ now.garage;
          breakpoints = rest.breakpoints ∙ now.breakpoints;
        };
  }

  Tables-on_device :
      (t : Ftable) (p : Printer S)
      → ((s : S) → Returns S stdout written takes s (p s))
      → Tables t (on_device p) t
  Tables-on_device t p done = record {
    run = λ w at.
        let run = done w.device in
        record {
          value = run.value;
          after = record w { device = run.after };
          returns = ap (with_device w) run.returns;
          ftable = at;
          garage = refl;
          breakpoints = refl;
        };
  }

  pub Tables-printf :
      (t : Ftable) (format : String) (args : List Arg) → Tables t (printf stdout format args) t
  Tables-printf t format args =
      Tables-on_device t _ (λ s. Returns-fprintf S stdout written takes format args s)

  Tables-result : (t : Ftable) (r : ℤ) → Tables t (result r) t
  Tables-result t r = record {
    run = λ w at. record {
      value = r;
      after = w;
      returns = refl;
      ftable = at;
      garage = refl;
      breakpoints = refl;
    };
  }

  -- A printer that reads the table.
  Tables-reading :
      (t u : Ftable) (p : Ftable → Printer (World S))
      → ((v : Ftable) → Tables t (p v) u)
      → Tables t (λ w. p w.ftable w) u
  Tables-reading t u p each = record { run = λ w at. (each w.ftable).run w at }

  Tables-func_c : (t : Ftable) (x : ℕ) → Tables t (ex_ftable_func_c stdout x) t
  unfolding ex_ftable_func_c
  Tables-func_c t x = Tables-printf t _ _ next Tables-result t (pos 0)

  Tables-call_func : (t : Ftable) (g : Func) (x : ℕ) → Tables t (call_func stdout g x) t
  unfolding call_func ex_ftable_func_a ex_ftable_func_b
  Tables-call_func t func_a x = Tables-printf t _ _ next Tables-result t (pos 0)
  Tables-call_func t func_b x = Tables-printf t _ _ next Tables-result t (pos 0)
  Tables-call_func t func_c x = Tables-func_c t x

  Tables-change_funcs : (t : Ftable) → Tables t (ex_ftable_change_funcs stdout) (switched t.state)
  unfolding ex_ftable_change_funcs
  Tables-change_funcs t = record {
    run = λ w at.
        let table = switched w.ftable.state in
        let same : table ≡ switched t.state = ap (λ (v : Ftable). switched v.state) at in
        let print =
          (Tables-printf table "ex_ftable_change_funcs switching table to state %d\n"
                (num table.state ∷ [])
              next Tables-result table (pos 0)).run
            (record w { ftable = table }) refl in
        record {
          value = print.value;
          after = print.after;
          returns = print.returns;
          ftable = print.ftable ∙ same;
          garage = print.garage;
          breakpoints = print.breakpoints;
        };
  }

  Tables-print_ftable :
      (t : Ftable) (places : Places) → Tables t (ex_dyn_test_print_ex_ftable stdout places) t
  unfolding ex_dyn_test_print_ex_ftable
  Tables-print_ftable t places =
      Tables-reading t t
        (λ v. printf stdout " .ptr_a: 0x%p  .ptr_b 0x%p  .ptr_c 0x%p\n" (
          num (places.code_of v.ptr_a)
          ∷ num (places.code_of v.ptr_b)
          ∷ num (places.code_of v.ptr_c)
          ∷ []))
        (λ v. Tables-printf t _ _)

  Tables-print_ftable_ptr :
      (t : Ftable) (places : Places) → Tables t (ex_dyn_test_print_ex_ftable_ptr stdout places) t
  unfolding ex_dyn_test_print_ex_ftable_ptr
  Tables-print_ftable_ptr t places =
      Tables-reading t t
        (λ v. printf stdout "->ptr_a: 0x%p ->ptr_b 0x%p ->ptr_c 0x%p\n" (
          num (places.code_of v.ptr_a)
          ∷ num (places.code_of v.ptr_b)
          ∷ num (places.code_of v.ptr_c)
          ∷ []))
        (λ v. Tables-printf t _ _)

  -- The three calls through the pointers of the table.
  Tables-call_a : (t : Ftable) (x : ℕ) → Tables t (call_a stdout x) t
  Tables-call_a t x =
      Tables-reading t t (λ v. call_func stdout v.ptr_a x) (λ v. Tables-call_func t v.ptr_a x)

  Tables-call_b : (t : Ftable) (x : ℕ) → Tables t (call_b stdout x) t
  Tables-call_b t x =
      Tables-reading t t (λ v. call_func stdout v.ptr_b x) (λ v. Tables-call_func t v.ptr_b x)

  Tables-call_c : (t : Ftable) (x : ℕ) → Tables t (call_c stdout x) t
  Tables-call_c t x =
      Tables-reading t t (λ v. call_func stdout v.ptr_c x) (λ v. Tables-call_func t v.ptr_c x)

  pub Tables-libftable :
      (t : Ftable) (places : Places)
      → Tables t (ex_dyn_test_libftable stdout places) (switched (switched t.state).state)
  unfolding ex_dyn_test_libftable _uld_putchar
  Tables-libftable t places =
      let u = switched t.state in
      let v = switched u.state in
      Tables-print_ftable t places
      next Tables-print_ftable_ptr t places
      next Tables-printf t _ _
      next Tables-call_a t 1
      next Tables-call_b t 2
      next Tables-call_c t 3
      next Tables-printf t _ _
      next Tables-func_c t 4
      next Tables-change_funcs t
      next Tables-print_ftable_ptr u places
      next Tables-printf u _ _
      next Tables-call_a u 5
      next Tables-call_b u 6
      next Tables-call_c u 7
      next Tables-printf u _ _
      next Tables-func_c u 8
      next Tables-change_funcs u
      next Tables-print_ftable v places
      next Tables-print_ftable_ptr v places
      next Tables-on_device v _ (λ s. record {
        value = _;
        after = (stdout.dputchar_f stdout.fd newline s).1;
        returns = refl;
        more = omega (arith, takes.put_one newline s);
      })

  Tables-print_args : (t : Ftable) (argv : List (List ℕ)) → Tables t (print_args stdout argv) t
  unfolding print_args
  Tables-print_args t [] = Tables-result t (pos 0)
  Tables-print_args t (a ∷ more) = Tables-printf t _ _ next Tables-print_args t more

  Tables-start_args : (t : Ftable) (argv : List (List ℕ)) → Tables t (start_args stdout argv) t
  Tables-start_args t [] = Tables-printf t _ _
  Tables-start_args t (a ∷ more) = Tables-print_args t (a ∷ more)

  pub Tables-print_start :
      (t : Ftable) (argv : List (List ℕ)) (regs : Registers)
      → Tables t (print_start stdout argv regs) t
  unfolding print_start
  Tables-print_start t argv regs =
      Tables-printf t _ _ next Tables-start_args t argv next Tables-printf t _ _
