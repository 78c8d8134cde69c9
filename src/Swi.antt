-- ===== src/Swi.antt =====
-- src/swi.c and include/swi.h: output through the debugger. The traps SYS_WRITE, SYS_CLOCK,
-- SYS_TIME and ReportException are those of a host with a state, and `cpu_get_pc` is a parameter,
-- as an `int`. The wait for the clock takes at most `patience` readings; `none` is a wait without
-- end.
pub mod Outcome
use uld_fdpic.Common.{
  ℕ, zero, suc, ◌+◌, ◌-◌, ◌/◌, ◌%◌, ◌^◌, ◌==◌, Bool, true, false, not, ◌&&◌, ◌||◌, Option, none,
  some, List, [], ◌∷◌, ltb, leb, if◌then◌else◌, length, ℤ, pos, negsuc, int_eq,
}
use uld_fdpic.Mem.{sub32}
use uld_fdpic.Libc.Stdio.{File, eof, newline, _uld_fputc, _uld_fputs, _uld_putc, _uld_fwrite}
use uld_fdpic.Libc.Stdio.Format.{Arg, _uld_vfprintf, _uld_fprintf}

-- Readings of the clock are 32-bit words. SYS_WRITE answers with the number of bytes that it did
-- not write, or -1.
pub record Host (S : Type 0) : Type 0 where
  pub sys_write : ℕ → List ℕ → S → ℤ × S
  pub sys_clock : S → ℕ × S
  pub sys_time : S → ℕ × S
  pub report_exception : ℕ → S → S

-- `/` on `int`, which rounds towards 0.
abbrev pub int_quot : ℤ → ℕ → ℤ
int_quot (pos a) n = pos (a / n)
int_quot (negsuc a) n = if (a + 1) / n == 0 then pos 0 else negsuc ((a + 1) / n - 1)

-- What one round of the wait leaves in `ret`: each of its 100000 turns computes the same.
unfoldable pub delay_ret : ℤ → ℤ
delay_ret pc =
    int_quot
      (int_quot
        (int_quot
          (int_quot (int_quot (int_quot (int_quot (int_quot (int_quot pc 100) 200) 300) 400) 500)
            600)
          700)
        800)
      900

-- `count - ret` as an `int`.
abbrev pub less : ℕ → ℤ → ℤ
less count (pos n) = if leb n count then pos (count - n) else negsuc (n - count - 1)
less count (negsuc n) = pos (count + n + 1)

module _ {S : Type 0} (host : Host S) (pc : ℤ) (patience : ℕ) where
  unfoldable pub swi_clock : S → ℕ × S
  swi_clock s = host.sys_clock s

  unfoldable pub swi_time : S → ℕ × S
  swi_time s = host.sys_time s

  -- The state after the request ADP_Stopped_ApplicationExit; the function never returns.
  unfoldable pub swi_exit : S → S
  swi_exit s = host.report_exception 0x20026 s

  -- The test is on the signed difference.
  unfoldable pub wait_loop : ℕ → ℕ → ℤ → S → Option (ℤ × S)
  wait_loop zero centisec ret s = none
  wait_loop (suc left) centisec ret s =
      let now = host.sys_clock s in
      let waited = sub32 now.0 centisec in
      elim (leb (2 ^ 31) waited || ltb waited 20) [
        | true ↦ wait_loop left centisec (delay_ret pc) now.1
        | false ↦ some (ret, now.1)
      ]

  -- `if (ret == -1)`.
  unfoldable pub wait_if : ℤ × S → Option (ℤ × S)
  unfolding wait_loop
  wait_if (ret, s) =
      let start = host.sys_clock s in
      if int_eq ret (negsuc 0) then wait_loop patience start.0 ret start.1 else some (ret, s)

  -- The test `--retries && ret == -1`, in front of the next round.
  abbrev pub again : ℕ → (S → Option (ℤ × S)) → Option (ℤ × S) → Option (ℤ × S)
  again retries next none = none
  again retries next (some (ret, s)) =
      if not (retries == 0) && int_eq ret (negsuc 0) then next s else some (ret, s)

  -- The loop with `suc retries` rounds to go.
  unfoldable pub write_loop : ℕ → ℕ → List ℕ → S → Option (ℤ × S)
  write_loop zero fd buf s = again 0 (λ t. none) (wait_if (host.sys_write fd buf s))
  write_loop (suc retries) fd buf s =
      again (suc retries) (λ t. write_loop retries fd buf t) (wait_if (host.sys_write fd buf s))

  abbrev pub written : ℕ → Option (ℤ × S) → Option (ℤ × S)
  written count none = none
  written count (some (ret, s)) =
      if int_eq ret (negsuc 0) then some (eof, s) else some (less count ret, s)

  -- `buf` is the `count` bytes; a NULL one is `none`.
  unfoldable pub swi_write : ℕ → Option (List ℕ) → S → Option (ℤ × S)
  swi_write fd none s = some (eof, s)
  swi_write fd (some buf) s =
      if not (fd == 1) && not (fd == 2)
      then some (eof, s)
      else if length buf == 0
      then some (pos 0, s)
      else written (length buf) (write_loop 4 fd buf s)

  abbrev pub put_result : ℕ → Option (ℤ × S) → Option (ℤ × S)
  put_result c none = none
  put_result c (some (r, s)) = some ((if int_eq r (pos 1) then pos (c % 256) else eof), s)

  unfoldable pub swi_dputchar : ℕ → ℕ → S → Option (ℤ × S)
  swi_dputchar fd c s = put_result c (swi_write fd (some (c % 256 ∷ [])) s)

  -- A stream over the two functions. Its state is `none` after a wait without end: nothing more
  -- happens then.
  abbrev pub streamed : Option (ℤ × S) → ℤ × Option S
  streamed none = (eof, none)
  streamed (some (r, s)) = (r, some s)

  abbrev pub running : (S → Option (ℤ × S)) → Option S → ℤ × Option S
  running f none = (eof, none)
  running f (some s) = streamed (f s)

  -- SWI_STDIN, SWI_STDOUT and SWI_STDERR, which differ in the descriptor.
  unfoldable pub swi_file : ℕ → File (Option S)
  swi_file fd = record {
    write_f = λ fd buf s. running (swi_write fd (some buf)) s;
    dputchar_f = λ fd c s. running (swi_dputchar fd c) s;
    fd = fd;
  }

  unfoldable pub swi_fputc : ℕ → File (Option S) → Option S → ℤ × Option S
  swi_fputc c stream s = _uld_fputc stream c s

  unfoldable pub swi_fputs : List ℕ → File (Option S) → Option S → ℤ × Option S
  swi_fputs text stream s = _uld_fputs stream text s

  unfoldable pub swi_putc : ℕ → File (Option S) → Option S → ℤ × Option S
  swi_putc c stream s = _uld_putc stream c s

  unfoldable pub swi_putchar : ℕ → Option S → ℤ × Option S
  swi_putchar c s = _uld_putc (swi_file 1) c s

  -- A statement, without a result.
  unfoldable pub swi_puts : List ℕ → Option S → Option S
  swi_puts text s = (_uld_putc (swi_file 1) newline (_uld_fputs (swi_file 1) text s).1).1

  unfoldable pub swi_fwrite : List ℕ → ℕ → File (Option S) → Option S → ℕ × Option S
  swi_fwrite buf size stream s = _uld_fwrite stream buf size s

  unfoldable pub swi_vfprintf :
      File (Option S) → (ℕ → Arg) → Option (List ℕ) → Option S → Option (ℤ × Option S)
  swi_vfprintf stream ap format s = _uld_vfprintf stream ap format s

  unfoldable pub swi_fprintf :
      File (Option S) → (ℕ → Arg) → Option (List ℕ) → Option S → Option (ℤ × Option S)
  swi_fprintf stream ap format s = _uld_fprintf stream ap format s

  unfoldable pub swi_vprintf : (ℕ → Arg) → Option (List ℕ) → Option S → Option (ℤ × Option S)
  swi_vprintf ap format s = _uld_vfprintf (swi_file 1) ap format s

  unfoldable pub swi_printf : (ℕ → Arg) → Option (List ℕ) → Option S → Option (ℤ × Option S)
  swi_printf ap format s = _uld_vfprintf (swi_file 1) ap format s

  -- The stream with the descriptor `fd` is not used.
  unfoldable pub swi_dprintf : (ℕ → Arg) → ℕ → Option (List ℕ) → Option S → Option (ℤ × Option S)
  swi_dprintf ap fd format s = _uld_vfprintf (swi_file 1) ap format s

  unfoldable pub swi_vdprintf : (ℕ → Arg) → ℕ → Option (List ℕ) → Option S → Option (ℤ × Option S)
  swi_vdprintf ap fd format s = _uld_vfprintf (record (swi_file 1) { fd = fd }) ap format s
