-- ===== src/Tests/Debugger.antt =====
-- A debugger that refuses every write, and one that takes half of it, with a clock that goes on by
-- one hundredth of a second at each reading.
use uld_fdpic.Common.{
  ℕ, ◌+◌, ◌/◌, ◌%◌, ◌≡◌, ◌≢◌, ◌⊎◌, refl, arith, inl, [], ◌∷◌, length, some, ℤ, pos, negsuc,
}
use uld_fdpic.Mem.{w32}
use uld_fdpic.Swi.{Host, delay_ret, less, wait_loop, wait_if, write_loop, swi_write}
use uld_fdpic.Swi.Outcome.{IsSteady, reads, swi_write_outcome}

-- The state is the time.
abbrev refusing : Host ℕ
refusing = record {
  sys_write = λ fd buf t. (negsuc 0, t);
  sys_clock = λ t. (t % w32, t + 1);
  sys_time = λ t. (t / 100 % w32, t + 1);
  report_exception = λ reason t. t;
}

abbrev halving : Host ℕ
halving = record refusing { sys_write = λ fd buf t. (pos (length buf / 2), t) }

refusing-IsSteady : IsSteady refusing
refusing-IsSteady = record {
  word = λ t. omega arith;
  onward = λ t. omega arith;
  slow = λ t. omega arith;
}

swi_write_outcome_example :
    let run = swi_write refusing (pos 0x8000100) 50 1 (some (104 ∷ 105 ∷ [])) 0 in
    ((negsuc 0 ≢ negsuc 0) × (run ≡ some (less 2 (negsuc 0), 0)))
    ⊎ ((◌≡◌ {A = ℤ} (negsuc 0) (negsuc 0)) × ((n : ℕ) × (run ≡ some (pos 2, reads refusing n 0))))
swi_write_outcome_example =
    swi_write_outcome refusing refusing-IsSteady (pos 0x8000100) (omega arith) 50 1 (104 ∷ 105 ∷ [])
      0 (inl refl) (omega arith) (omega arith)

-- Two bytes count as written after a wait of 21 readings.
refused_write : swi_write refusing (pos 0x8000100) 50 1 (some (104 ∷ 105 ∷ [])) 0 ≡ some (pos 2, 21)
unfolding swi_write write_loop wait_if wait_loop delay_ret
refused_write = refl

halved_write :
    swi_write halving (pos 0x8000100) 50 2 (some (104 ∷ 105 ∷ 33 ∷ [])) 7 ≡ some (pos 2, 7)
unfolding swi_write write_loop wait_if
halved_write = refl
