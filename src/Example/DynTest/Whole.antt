-- ===== src/Example/DynTest/Whole.antt =====
-- A whole run of src/example/ex_app_dyn_test.c.
use uld_fdpic.Common.{
  ℕ, ◌+◌, ◌<◌, ◌≤◌, ◌≡◌, refl, ap, arith, ◌∙◌, some, List, [], ◌∷◌, length, ℤ, pos,
}
use uld_fdpic.Mem.{w32}
use uld_fdpic.Libc.Stdio.{File, _uld_puts}
use uld_fdpic.Libc.Stdio.Count.{IsTaking}
use uld_fdpic.Print.{◌>>◌, continue, num}
use uld_fdpic.Example.Print.{ex_print_cow, moo_str}
use uld_fdpic.Example.World.{
  Garage, World, Places, Registers, on_device, swbkpt, printf, print_start,
}
use uld_fdpic.Example.Ftable.{switched}
use uld_fdpic.Example.DynTest.{ex_dyn_test_libftable, ex_dyn_test_libgarage, dyn_test_main}
use uld_fdpic.Example.DynTest.Passes.{tested_garage, ex_dyn_test_libgarage_lem}
use uld_fdpic.Example.DynTest.Tables.{Tables-printf, Tables-print_start, Tables-libftable}

module _ (S : Type 0) (stdout : File S) (written : S → ℕ) (takes : IsTaking S stdout written) where
  -- On a device that takes all it is given, the test program runs to its end from every state and for
  -- all arguments, with the patience for the banner with the garage's name. It stops at one
  -- breakpoint, the one at its end, so each of its checks passes. It ends with 6 more cars and 6
  -- more trucks, it has counted 43 reads, 28 writes, 28 changes by one and 17 prints of the garage,
  -- each modulo 2^32, and the table of functions is the second next by its state.
  pub dyn_test_main_lem :
      (patience : ℕ) (argv : List (List ℕ)) (regs : Registers) (places : Places) (w : World S)
      → 11 + length w.garage.name ≤ patience
      → patience < w32
      → (value : ℤ) × (after : World S) × (dyn_test_main stdout patience argv regs places w
          ≡ some (value, after))
        × (after.garage ≡ tested_garage w.garage)
        × (after.ftable ≡ switched (switched w.ftable.state).state)
        × (after.breakpoints ≡ w.breakpoints + 1)
  unfolding dyn_test_main ex_print_cow
  dyn_test_main_lem patience argv regs places w enough word =
      let t = w.ftable in
      let a = (Tables-printf S stdout written takes t "dyn_test.elf\n" []).run w refl in
      let b = (Tables-print_start S stdout written takes t argv regs).run a.after a.ftable in
      let c =
        (Tables-printf S stdout written takes t "main is located at: 0x%p\n\n"
            (num places.main_code ∷ [])).run
          b.after b.ftable in
      let d = (Tables-libftable S stdout written takes t places).run c.after c.ftable in
      let same : d.after.garage ≡ w.garage = d.garage ∙ c.garage ∙ b.garage ∙ a.garage in
      let room : 11 + length d.after.garage.name ≤ patience =
        omega (arith, ap (λ (g : Garage). length g.name) same, enough) in
      let g = ex_dyn_test_libgarage_lem S stdout written takes patience d.after room word in
      let q₅ = on_device (ex_print_cow stdout patience) >> swbkpt in
      let q₄ = ex_dyn_test_libgarage stdout patience >> q₅ in
      let q₃ = ex_dyn_test_libftable stdout places >> q₄ in
      let q₂ = printf stdout "main is located at: 0x%p\n\n" (num places.main_code ∷ []) >> q₃ in
      let q₁ = print_start stdout argv regs >> q₂ in
      (
        pos 0,
        record g.1 {
          device = (_uld_puts stdout moo_str g.1.device).1;
          breakpoints = g.1.breakpoints + 1;
        },
        ap (continue (λ r. q₁)) a.returns
            ∙ ap (continue (λ r. q₂)) b.returns
            ∙ ap (continue (λ r. q₃)) c.returns
            ∙ ap (continue (λ r. q₄)) d.returns
            ∙ ap (continue (λ r. q₅)) g.2,
        g.3 ∙ ap tested_garage same,
        g.5 ∙ d.ftable,
        ap (λ n. n + 1) (g.4 ∙ d.breakpoints ∙ c.breakpoints ∙ b.breakpoints ∙ a.breakpoints),
      )
