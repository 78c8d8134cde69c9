-- ===== src/Libc/Stdio/Count/Formats.antt =====
-- `_uld_vfprintf` returns, and it returns the number of characters that it writes.
use uld_fdpic.Common.{
  ℕ, ◌+◌, ◌%◌, ◌≡◌, refl, ap, ◌∙◌, arith, inl, inr, Bool, true, false, ◌||◌, Option, some, List, [],
  ◌∷◌, ◌++◌, ◌==◌, if◌then◌else◌, length, ℤ, pos, int_of, Bool-cases,
}
use uld_fdpic.Mem.{w32}
use uld_fdpic.Util.Number.{hex_text}
use uld_fdpic.Libc.Stdio.{File, Flags, _uld_fwrite_hex, _uld_fwrite_str}
use uld_fdpic.Libc.Stdio.Format.{
  Mode, Arg, literal, directive, changes, conversion, no_flags, modifier, int_width, Printed, used,
  convert, then_count, flush, format_loop, _uld_vfprintf,
}
use uld_fdpic.Libc.Stdio.Count.{IsTaking, Counted, Counted-fwrite_text, Counted-fwrite_dec}

module _ (S : Type 0) (stream : File S) (written : S → ℕ) (takes : IsTaking S stream written) where
  -- What a directive prints.
  record Converted (s : S) (o : Printed S) : Type 0 where
    count : ℕ
    next : ℕ
    after : S
    returns : o ≡ some (pos count, next, after)
    size : written after ≡ written s + count

  used-Converted :
      (i : ℕ) (s : S) (o : Option (ℤ × S))
      → Counted S stream written takes s o
      → Converted s (used i o)
  used-Converted i s o (k, step) = record {
    count = k;
    next = i;
    after = step.after;
    returns = ap (used i) step.returns;
    size = step.size;
  }

  if-Converted :
      (b : Bool) (s : S) (x y : Printed S)
      → Converted s x
      → Converted s y
      → Converted s (if b then x else y)
  if-Converted true s x y h k = h
  if-Converted false s x y h k = k

  module _ (va : ℕ → Arg) where
    convert-Converted :
        (c : ℕ) (flags : Flags) (width i : ℕ) (s : S)
        → Converted s (convert stream va c flags width i s)
    unfolding convert _uld_fwrite_hex _uld_fwrite_str
    convert-Converted c flags width i s =
        let hex = λ (w : ℕ) (f : Flags).
          used-Converted (i + 1) s _
            (Counted-fwrite_text S stream written takes (hex_text 0 (va i).word) w f s) in
        let dec = λ (f : Flags).
          used-Converted (i + 1) s _
            (Counted-fwrite_dec S stream written takes (va i).word width f s) in
        if-Converted (c == 37) s _ _
          (record {
            count = 1;
            next = i;
            after = (stream.dputchar_f stream.fd 37 s).1;
            returns = refl;
            size = takes.put_one 37 s;
          })
          (if-Converted (c == 112) s _ _ (hex 8 _) (
            if-Converted (c == 100) s _ _ (dec _) (
              if-Converted (c == 117) s _ _ (dec flags) (
                if-Converted (c == 115) s _ _
                  (used-Converted (i + 1) s _
                    (Counted-fwrite_text S stream written takes (va i).text width flags s))
                  (if-Converted ((c == 88) || (c == 120)) s _ _ (hex width flags) (record {
                    count = 0;
                    next = i;
                    after = s;
                    returns = refl;
                    size = omega arith;
                  }))))))

    -- The characters that a run of the loop writes are those that its count grows by, as a word.
    record Grows (n : ℕ) (s : S) (o : Option (ℤ × S)) : Type 0 where
      more : ℕ
      after : S
      returns : o ≡ some (int_of ((n + more) % w32), after)
      size : written after ≡ written s + more

    -- What is printed, then the rest of the format.
    Grows-then_count :
        (n : ℕ) (s : S) (o : Printed S) (next : ℕ → ℕ → S → Option (ℤ × S))
        → Converted s o
        → ((k i : ℕ) (t : S) → Grows k t (next (k % w32) i t))
        → Grows n s (then_count stream va (n % w32) next o)
    Grows-then_count n s o next now later =
        let rest = later (n + now.count) now.next now.after in
        let word : (n % w32 + now.count % w32) % w32 ≡ (n + now.count) % w32 = omega arith in
        let sum : (n + now.count + rest.more) % w32 ≡ (n + (now.count + rest.more)) % w32 =
          omega arith in
        record {
          more = now.count + rest.more;
          after = rest.after;
          returns =
              ap (then_count stream va (n % w32) next) now.returns
              ∙ ap (λ k. next k now.next now.after) word
              ∙ rest.returns
              ∙ ap (λ k. some (int_of k, rest.after)) sum;
          size = omega (arith, rest.size, now.size);
        }

    Grows-end : (n : ℕ) (s : S) → Grows n s (some (int_of (n % w32), s))
    Grows-end n s =
        let e : n % w32 ≡ (n + 0) % w32 = omega arith in
        record { more = 0; after = s; returns = ap (λ k. some (int_of k, s)) e; size = omega arith }

    flush-Converted : (text : List ℕ) (i : ℕ) (s : S) → Converted s (flush stream va text i s)
    flush-Converted text i s = record {
      count = length text;
      next = i;
      after = (stream.write_f stream.fd text s).1;
      returns =
          ap (λ r. some (r, i, (stream.write_f stream.fd text s).1)) (takes.write_count text s);
      size = takes.write_all text s;
    }

    Grows-format_loop :
        (format : List ℕ) (mode : Mode) (n i : ℕ) (s : S)
        → Grows n s (format_loop stream va mode format (n % w32) i s)
    unfolding format_loop
    Grows-format_loop [] (literal false text) n i s = Grows-end n s
    Grows-format_loop [] (literal true text) n i s =
        Grows-then_count n s _ (λ n j t. some (int_of n, t)) (flush-Converted text i s)
          (λ k j t. Grows-end k t)
    Grows-format_loop [] (directive flags width) n i s = Grows-end n s
    Grows-format_loop (c ∷ cs) (literal b text) n i s = elim (Bool-cases (c == 37)) [
      | inl percent ↦
          rw (format_loop, percent)
            (Grows-then_count n s _ (λ n j t. format_loop stream va (directive no_flags 0) cs n j t)
              (flush-Converted text i s)
              (λ k j t. Grows-format_loop cs (directive no_flags 0) k j t))
      | inr plain ↦
          rw (format_loop, plain) (Grows-format_loop cs (literal true (text ++ c ∷ [])) n i s)
    ]
    Grows-format_loop (c ∷ cs) (directive flags width) n i s =
        elim (modifier c flags width)
          as (λ x. Grows n s (elim x [
            | changes flags' width' ↦
                format_loop stream va (directive flags' width') cs (n % w32) i s
            | conversion ↦
                then_count stream va (n % w32)
                  (λ n j t. format_loop stream va (literal false []) cs n j t)
                  (convert stream va c flags (int_width width) i s)
          ])) [
            | changes flags' width' ↦ Grows-format_loop cs (directive flags' width') n i s
            | conversion ↦
                Grows-then_count n s _ (λ n j t. format_loop stream va (literal false []) cs n j t)
                  (convert-Converted c flags (int_width width) i s)
                  (λ k j t. Grows-format_loop cs (literal false []) k j t)
          ]

    -- On a device that takes all it is given, `_uld_vfprintf` returns, for every format and all
    -- arguments, and its result is the number of characters that it has written, as a 32-bit
    -- `int`: from 2 ^ 31 characters on it wraps around.
    pub vfprintf_count :
        (format : List ℕ) (s : S)
        → (k : ℕ) × (after : S) × (_uld_vfprintf stream va (some format) s
            ≡ some (int_of (k % w32), after))
          × (written after ≡ written s + k)
    unfolding _uld_vfprintf
    vfprintf_count format s =
        let run = Grows-format_loop format (literal false []) 0 0 s in
        let sum : (0 + run.more) % w32 ≡ run.more % w32 = omega arith in
        (run.more, run.after, run.returns ∙ ap (λ k. some (int_of k, run.after)) sum, run.size)
