-- ===== src/Example/Ftable.antt =====
-- src/example/ex_lib_ftable.c.
use uld_fdpic.Common.{ℕ, zero, suc, [], ◌∷◌, pos}
use uld_fdpic.Libc.Stdio.{File}
use uld_fdpic.Print.{Printer, ◌>>◌, result, num}
use uld_fdpic.Example.World.{
  Func, func_a, func_b, func_c, Ftable, World, Places, Registers, printf, print_constructor,
}

-- The switch of `ex_ftable_change_funcs`, by the state.
unfoldable pub switched : ℕ → Ftable
switched zero = record { ptr_a = func_b; ptr_b = func_c; ptr_c = func_a; state = 1 }
switched (suc zero) = record { ptr_a = func_c; ptr_b = func_a; ptr_c = func_b; state = 2 }
switched (suc (suc zero)) = record { ptr_a = func_a; ptr_b = func_a; ptr_c = func_a; state = 3 }
switched (suc (suc (suc n))) = record { ptr_a = func_c; ptr_b = func_c; ptr_c = func_c; state = 0 }

module _ {S : Type 0} (stdout : File S) where
  unfoldable pub ex_ftable_func_a : ℕ → Printer (World S)
  ex_ftable_func_a x = do
    printf stdout "ex_ftable_func_a called with x: %d\n" (num x ∷ [])
    result (pos 0)

  unfoldable pub ex_ftable_func_b : ℕ → Printer (World S)
  ex_ftable_func_b x = do
    printf stdout "ex_ftable_func_b called with x: %d\n" (num x ∷ [])
    result (pos 0)

  unfoldable pub ex_ftable_func_c : ℕ → Printer (World S)
  ex_ftable_func_c x = do
    printf stdout "ex_ftable_func_c called with x: %d\n" (num x ∷ [])
    result (pos 0)

  -- A call through a pointer of the table.
  unfoldable pub call_func : Func → ℕ → Printer (World S)
  call_func func_a x = ex_ftable_func_a x
  call_func func_b x = ex_ftable_func_b x
  call_func func_c x = ex_ftable_func_c x

  unfoldable pub ex_ftable_change_funcs : Printer (World S)
  ex_ftable_change_funcs w =
      let next = switched w.ftable.state in
      (printf stdout "ex_ftable_change_funcs switching table to state %d\n" (num next.state ∷ [])
          >> result (pos 0))
        (record w { ftable = next })

  -- The line with the three pointers of the table.
  abbrev print_table : Places → Printer (World S)
  print_table places w =
      printf stdout "[<%p>] ex_ftable .ptr_a: 0x%p  .ptr_b 0x%p  .ptr_c 0x%p\n"
        (num places.ftable_at
          ∷ num (places.code_of w.ftable.ptr_a)
          ∷ num (places.code_of w.ftable.ptr_b)
          ∷ num (places.code_of w.ftable.ptr_c)
          ∷ [])
        w

  unfoldable pub ex_ftable_ctor : Places → Registers → Printer (World S)
  ex_ftable_ctor places regs = do print_constructor stdout "ex_ftable_ctor" regs; print_table places
