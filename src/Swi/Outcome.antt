-- ===== src/Swi/Outcome.antt =====
-- What `swi_write` returns when the clock of the host goes on in small steps.
use uld_fdpic.Common.{
  ◌⊎◌, ℕ, zero, suc, ◌+◌, ◌/◌, ◌^◌, ◌<◌, ◌≤◌, ◌≡◌, ◌≢◌, refl, ap, ◌∙◌, arith, inl, inr, ◌==◌, true,
  false, not, ◌&&◌, ◌||◌, Bool-cases, some, List, ltb, leb, length, ℤ, pos, negsuc, int_eq,
}
use uld_fdpic.Mem.{w32, sub32}
use uld_fdpic.Swi.{Host, delay_ret, less, wait_loop, wait_if, write_loop, swi_write}

-- The values of an `int`.
abbrev pub IsInt : ℤ → Type 0
IsInt (pos a) = a < 2 ^ 31
IsInt (negsuc a) = a < 2 ^ 31

delay_ret_0 : (pc : ℤ) → IsInt pc → delay_ret pc ≡ pos 0
unfolding delay_ret
delay_ret_0 (pos a) h = let e : a / 100 / 200 / 300 / 400 ≡ 0 = omega arith in rw e refl
delay_ret_0 (negsuc a) h = ground arith

minus_one_or_not : (r : ℤ) → (r ≡ negsuc 0) ⊎ ((r ≢ negsuc 0) × (int_eq r (negsuc 0) ≡ false))
minus_one_or_not (pos n) = inr (cc, refl)
minus_one_or_not (negsuc zero) = inl refl
minus_one_or_not (negsuc (suc n)) = inr (ground arith, ground arith)

module _ {S : Type 0} (host : Host S) where
  -- Between two readings of the clock it goes on by 1 to 19 hundredths of a second.
  pub record IsSteady : Type 0 where
    pub word : (s : S) → (host.sys_clock s).0 < w32
    pub onward : (s : S) → 1 ≤ sub32 (host.sys_clock (host.sys_clock s).1).0 (host.sys_clock s).0
    pub slow : (s : S) → sub32 (host.sys_clock (host.sys_clock s).1).0 (host.sys_clock s).0 ≤ 19

  -- The state after `n` readings of the clock.
  abbrev pub reads : ℕ → S → S
  reads zero s = s
  reads (suc n) s = reads n (host.sys_clock s).1

  module _ (steady : IsSteady) (pc : ℤ) (int : IsInt pc) (patience : ℕ) where
    -- A wait that `d` has passed of, after the reading at `s`.
    wait_loop-ends :
        (left start d : ℕ) (s : S)
        → sub32 (host.sys_clock s).0 start ≡ d
        → start < w32
        → d < 20
        → 20 ≤ left + d
        → (n : ℕ) × (wait_loop host pc patience left start (pos 0) (host.sys_clock s).1
            ≡ some (pos 0, reads n (host.sys_clock s).1))
    unfolding wait_loop
    wait_loop-ends zero start d s e low lt enough = absurd (omega arith)
    wait_loop-ends (suc left) start d s e low lt enough =
        let t = (host.sys_clock s).1 in
        let k = sub32 (host.sys_clock t).0 (host.sys_clock s).0 in
        let sum : sub32 (host.sys_clock t).0 start ≡ d + k =
          omega (arith, e, low, lt, steady.word s, steady.word t, steady.slow s) in
        elim (Bool-cases (
          leb (2 ^ 31) (sub32 (host.sys_clock t).0 start)
          || ltb (sub32 (host.sys_clock t).0 start) 20)) [
            | inl more ↦
                let below : d + k < 20 = ground (arith, sum, more, lt, steady.slow s) in
                let rest =
                  wait_loop-ends left start (d + k) t sum low below
                    (omega (arith, steady.onward s, enough)) in
                (suc rest.0, rw (wait_loop, more, delay_ret_0 pc int) rest.1)
            | inr over ↦ (1, rw (wait_loop, over) refl)
          ]

    -- The wait after an answer -1.
    wait_if-refused :
        (s : S)
        → 20 ≤ patience
        → (n : ℕ) × (wait_if host pc patience (negsuc 0, s) ≡ some (pos 0, reads n s))
    unfolding wait_if
    wait_if-refused s enough = go patience enough
      where
        go :
            (left : ℕ)
            → 20 ≤ left
            → (n : ℕ) × (wait_loop host pc patience left
                  (host.sys_clock s).0
                  (negsuc 0)
                  (host.sys_clock s).1
                ≡ some (pos 0, reads n s))
        go zero enough = absurd (omega arith)
        go (suc left) enough =
            let t = (host.sys_clock s).1 in
            let k = sub32 (host.sys_clock t).0 (host.sys_clock s).0 in
            let below : (leb (2 ^ 31) k || ltb k 20) ≡ true = ground (arith, steady.slow s) in
            let rest =
              wait_loop-ends left (host.sys_clock s).0 k t refl (steady.word s)
                (omega (arith, steady.slow s)) (omega (arith, steady.onward s, enough)) in
            (suc (suc rest.0), rw (wait_loop, below, delay_ret_0 pc int) rest.1)

    -- On a host whose clock goes on in steps of less than the 20 hundredths of a second of the wait,
    -- `swi_write` of one byte or more to descriptor 1 or 2 returns after a single SYS_WRITE. An
    -- answer other than -1 counts as the number of bytes not written; but after -1, when nothing is
    -- written, the wait ends with the result that all bytes are written, and there is no other try.
    pub swi_write_outcome :
        (fd : ℕ) (buf : List ℕ) (s : S)
        → (fd ≡ 1) ⊎ (fd ≡ 2)
        → length buf ≢ 0
        → 20 ≤ patience
        → let answer = host.sys_write fd buf s in
          let run = swi_write host pc patience fd (some buf) s in
          ((answer.0 ≢ negsuc 0) × (run ≡ some (less (length buf) answer.0, answer.1)))
          ⊎ ((answer.0 ≡ negsuc 0) × ((n : ℕ) × (run ≡ some (pos (length buf), reads n answer.1))))
    unfolding swi_write write_loop
    swi_write_outcome fd buf s valid some_bytes enough =
        let answer = host.sys_write fd buf s in
        let open_fd : (not (fd == 1) && not (fd == 2)) ≡ false = ground (arith, valid) in
        let nonempty : (length buf == 0) ≡ false = ground (arith, some_bytes) in
        elim (minus_one_or_not answer.0) [
          | inl refused ↦
              let waited = wait_if-refused answer.1 enough in
              let step : wait_if host pc patience answer ≡ some (pos 0, reads waited.0 answer.1) =
                ap (λ r. wait_if host pc patience (r, answer.1)) refused ∙ waited.1 in
              let all : less (length buf) (pos 0) ≡ pos (length buf) = ground arith in
              let result = ap (λ r. some (r, reads waited.0 answer.1)) all in
              inr (refused, (waited.0, rw (open_fd, nonempty, step) result))
          | inr answered ↦
              let step : wait_if host pc patience answer ≡ some answer =
                unfold wait_if in rw (wait_if, answered.1) refl in
              inl (answered.0, rw (open_fd, nonempty, step) (rw answered.1 (rw answered.1 refl)))
        ]
