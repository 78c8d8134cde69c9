-- ===== src/Example/Print/Returns.antt =====
-- The printers of src/example/ex_lib_print.c return on a device that takes all it is given.
use uld_fdpic.Common.{
  ℕ, zero, suc, ◌-◌, ◌/◌, ◌<◌, ◌≤◌, ◌≡◌, refl, ap, ◌∙◌, arith, ◌==◌, true, false, if◌then◌else◌,
  int_eq, Option, some, List, [], ◌∷◌, length, min, ℤ, pos, map,
}
use uld_fdpic.Mem.{w32, sub32}
use uld_fdpic.Libc.Stdio.{File, eof, newline, replicate, _uld_fwrite, _uld_fputs, _uld_putc}
use uld_fdpic.Libc.Stdio.Count.{IsTaking, length-replicate}
use uld_fdpic.Print.{Printer, continue, str}
use uld_fdpic.Print.Returns.{Returns, Returns-result, Returns-continue, Returns-fprintf}
use uld_fdpic.Example.Print.{
  putc, nput_loop, ex_print_nputchar, ex_print_lmr, ex_print_box_top, ex_print_box_bottom,
  ex_print_box_text, ex_print_case, to_upper, to_lower, ex_print_upper, ex_print_lower,
}

module _ (S : Type 0) (stdout : File S) (written : S → ℕ) (takes : IsTaking S stdout written) where
  abbrev Done : S → Option (ℤ × S) → Type 0
  Done s o = Returns S stdout written takes s o

  abbrev then_ :
      (s : S) (o : Option (ℤ × S)) (q : Printer S)
      → Done s o
      → ((t : S) → Done t (q t))
      → Done s (continue (λ r. q) o)
  then_ s o q first later =
      Returns-continue S stdout written takes s o (λ r. q) first (λ r t. later t)

  Returns-putc : (patience c : ℕ) (s : S) → Done s (putc stdout patience c s)
  unfolding _uld_putc
  Returns-putc patience c s = record {
    value = _;
    after = (stdout.dputchar_f stdout.fd c s).1;
    returns = refl;
    more = omega (arith, takes.put_one c s);
  }

  pub _uld_fwrite_all : (buf : List ℕ) (s : S) → (_uld_fwrite stdout buf 1 s).0 ≡ length buf
  unfolding _uld_fwrite
  _uld_fwrite_all buf s =
      let e = takes.write_count buf s in
      let n : length buf / 1 ≡ length buf = omega arith in rw (e, n) refl

  _uld_fwrite_more : (buf : List ℕ) (s : S) → written s ≤ written (_uld_fwrite stdout buf 1 s).1
  unfolding _uld_fwrite
  _uld_fwrite_more buf s =
      let e = takes.write_count buf s in rw e (omega (arith, takes.write_all buf s))

  module _ (patience : ℕ) where
    pub nput_loop-round :
        (left c n : ℕ) (s : S)
        → let r = _uld_fwrite stdout (replicate (min (suc n) 16) c) 1 s in
          nput_loop stdout patience (suc left) c (suc n) s
          ≡ nput_loop stdout patience left c (sub32 (suc n) r.0) r.1
    unfolding nput_loop
    nput_loop-round left c n s =
        let some_left : (suc n == 0) ≡ false = ground arith in rw (nput_loop, some_left) refl

    Returns-nput_loop :
        (left c n : ℕ) (s : S) → n ≤ left → n < w32 → Done s (nput_loop stdout patience left c n s)
    unfolding nput_loop
    Returns-nput_loop zero c n s enough word =
        let e : (n == 0) ≡ true = ground (arith, enough) in
        rw e (Returns-result S stdout written takes (pos 0) s)
    Returns-nput_loop (suc left) c zero s enough word =
        Returns-result S stdout written takes (pos 0) s
    Returns-nput_loop (suc left) c (suc n) s enough word =
        let k = min (suc n) 16 in
        let buf = replicate k c in
        let r = _uld_fwrite stdout buf 1 s in
        let all : r.0 ≡ k = _uld_fwrite_all buf s ∙ length-replicate k c in
        let e : sub32 (suc n) r.0 ≡ suc n - k = ap (sub32 (suc n)) all ∙ ground (arith, word) in
        let ih =
          Returns-nput_loop left c (suc n - k) r.1 (omega (arith, enough)) (omega (arith, word)) in
        record {
          value = ih.value;
          after = ih.after;
          returns =
              nput_loop-round left c n s
              ∙ ap (λ x. nput_loop stdout patience left c x r.1) e
              ∙ ih.returns;
          more = omega (arith, ih.more, _uld_fwrite_more buf s);
        }

    Returns-nputchar :
        (c n : ℕ) (s : S)
        → n ≤ patience
        → n < w32
        → Done s (ex_print_nputchar stdout patience c n s)
    unfolding ex_print_nputchar
    Returns-nputchar c n s enough word = Returns-nput_loop patience c n s enough word

    Returns-lmr :
        (left middle right n : ℕ) (s : S)
        → n ≤ patience
        → n < w32
        → Done s (ex_print_lmr stdout patience left middle right n s)
    unfolding ex_print_lmr
    Returns-lmr left middle right n s enough word = then_ s _ _ (Returns-putc patience left s) (λ t.
        then_ t _ _ (Returns-nputchar middle n t enough word)
          (λ u. then_ u _ _ (Returns-putc patience right u) (λ v. Returns-putc patience newline v)))

    pub Returns-box_text :
        (text : List ℕ) (s : S)
        → length text ≤ patience
        → length text < w32
        → Done s (ex_print_box_text stdout patience (some text) s)
    unfolding ex_print_box_text ex_print_box_top ex_print_box_bottom
    Returns-box_text text s enough word =
        then_ s _ _ (Returns-lmr _ _ _ (length text) s enough word) (λ t.
          then_ t _ _ (Returns-fprintf S stdout written takes "|%s|\n" (str text ∷ []) t) (λ u.
            then_ u _ _ (Returns-lmr _ _ _ (length text) u enough word)
              (λ v. Returns-result S stdout written takes (pos 0) v)))

    Returns-fputs : (text : List ℕ) (s : S) → Done s (some (pos 0, (_uld_fputs stdout text s).1))
    unfolding _uld_fputs
    Returns-fputs text s =
        let r = stdout.write_f stdout.fd text s in
        let le : written s ≤ written r.1 = omega (arith, takes.write_all text s) in
        record {
          value = pos 0;
          after = (_uld_fputs stdout text s).1;
          returns = refl;
          more =
              elim (int_eq r.0 (pos (length text)))
                as (λ b.
                  written s
                  ≤ written (if◌then◌else◌ {A = ℤ × S} b (pos (length text), r.1) (eof, r.1)).1) [
                    | true ↦ le
                    | false ↦ le
                  ];
        }

    pub Returns-upper :
        (text : List ℕ) (s : S) → Done s (ex_print_upper stdout patience (some text) s)
    unfolding ex_print_upper ex_print_case
    Returns-upper text s = Returns-fputs (map to_upper text) s

    pub Returns-lower :
        (text : List ℕ) (s : S) → Done s (ex_print_lower stdout patience (some text) s)
    unfolding ex_print_lower ex_print_case
    Returns-lower text s = Returns-fputs (map to_lower text) s
